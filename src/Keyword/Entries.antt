-- ===== src/Keyword/Entries.antt =====
-- src/rasdaman/include/rqlkwlist.h: the keyword entries that are not commented out, in the file's
-- order, each with the name of its token.
use iql.Base.{String, List, [], ◌∷◌}
use iql.Text.{txt}
use iql.Keyword.{RasqlKeyword}

abbrev entry : String → String → RasqlKeyword
entry name token = record { name = txt name; token = txt token }

abbrev pub rasql_keywords : List RasqlKeyword
rasql_keywords =
    entry "abs" "ABS"
    ∷ entry "add_cell" "ADDCELLS"
    ∷ entry "add_cells" "ADDCELLS"
    ∷ entry "all_cell" "RQLALL"
    ∷ entry "all_cells" "RQLALL"
    ∷ entry "arccos" "ARCCOS"
    ∷ entry "arcsin" "ARCSIN"
    ∷ entry "arctan" "ARCTAN"
    ∷ entry "avg_cell" "AVGCELLS"
    ∷ entry "avg_cells" "AVGCELLS"
    ∷ entry "bmp" "BMP"
    ∷ entry "bool" "TBOOL"
    ∷ entry "char" "TCHAR"
    ∷ entry "complex" "COMPLEX"
    ∷ entry "condense" "CONDENSE"
    ∷ entry "cos" "COS"
    ∷ entry "cosh" "COSH"
    ∷ entry "count_cell" "COUNTCELLS"
    ∷ entry "count_cells" "COUNTCELLS"
    ∷ entry "dem" "DEM"
    ∷ entry "double" "TDOUBLE"
    ∷ entry "exp" "EXP"
    ∷ entry "extend" "EXTEND"
    ∷ entry "float" "TFLOAT"
    ∷ entry "hdf" "HDF"
    ∷ entry "hi" "HI"
    ∷ entry "im" "IM"
    ∷ entry "inv_bmp" "INV_BMP"
    ∷ entry "inv_csv" "INV_CSV"
    ∷ entry "inv_dem" "INV_DEM"
    ∷ entry "inv_hdf" "INV_HDF"
    ∷ entry "inv_jpeg" "INV_JPEG"
    ∷ entry "inv_png" "INV_PNG"
    ∷ entry "inv_tiff" "INV_TIFF"
    ∷ entry "inv_tor" "INV_TOR"
    ∷ entry "inv_vff" "INV_VFF"
    ∷ entry "jpeg" "JPEG"
    ∷ entry "ln" "LN"
    ∷ entry "log" "RQLLOG"
    ∷ entry "lo" "LO"
    ∷ entry "long" "TLONG"
    ∷ entry "marray" "MARRAY"
    ∷ entry "max_cell" "MAXCELLS"
    ∷ entry "max_cells" "MAXCELLS"
    ∷ entry "min_cell" "MINCELLS"
    ∷ entry "min_cells" "MINCELLS"
    ∷ entry "octet" "TOCTET"
    ∷ entry "oid" "OID"
    ∷ entry "png" "PNG"
    ∷ entry "re" "RE"
    ∷ entry "scale" "SCALE"
    ∷ entry "sdom" "SDOM"
    ∷ entry "shift" "SHIFT"
    ∷ entry "short" "TSHORT"
    ∷ entry "sinh" "SINH"
    ∷ entry "sin" "SIN"
    ∷ entry "sqrt" "SQRT"
    ∷ entry "struct" "STRCT"
    ∷ entry "tanh" "TANH"
    ∷ entry "tan" "TAN"
    ∷ entry "tiff" "TIFF"
    ∷ entry "tor" "TOR"
    ∷ entry "ulong" "TULONG"
    ∷ entry "unsigned" "TUNSIG"
    ∷ entry "ushort" "TUSHORT"
    ∷ entry "vff" "VFF"
    ∷ entry "xor" "XOR"
    ∷ []
