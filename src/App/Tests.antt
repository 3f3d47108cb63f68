-- ===== src/App/Tests.antt =====
-- The dictionary of a table and two collections, one of which has the table's name.
use iql.Base.{◌≡◌, some, [], ◌∷◌, take, map}
use iql.Text.{txt, lower_byte}
use iql.Source.{rasdaman}
use iql.Query.Source.{find_table}
use iql.App.{dictionary, is_postgis_function, sort}
use iql.App.Dictionary.{is_in, find_table-dictionary, is_postgis_function-sort}

find_table-dictionary_example :
    find_table (txt "maps") (dictionary (txt "towns" ∷ []) (txt "towns" ∷ txt "maps" ∷ []))
    ≡ some rasdaman
unfolding txt
find_table-dictionary_example =
    find_table-dictionary (txt "towns" ∷ []) (txt "towns" ∷ txt "maps" ∷ []) (txt "maps")

is_postgis_function-sort_example :
    is_postgis_function (sort (txt "st_y" ∷ txt "st_x" ∷ [])) (txt "ST_X")
    ≡ is_in (map lower_byte (take 49 (txt "ST_X"))) (txt "st_y" ∷ txt "st_x" ∷ [])
is_postgis_function-sort_example =
    is_postgis_function-sort (txt "st_y" ∷ txt "st_x" ∷ []) (txt "ST_X")
