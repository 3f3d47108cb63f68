-- ===== src/Query/Show.antt =====
-- toString of every node, the text in which traces and error messages show a query.
use iql.Base.{[], ◌∷◌, ◌++◌, if◌then◌else◌}
use iql.Text.{Text, txt, text_eq}
use iql.Query.{
  Node, NodeList, column, column_of, const, str, binary, postgis, postgis_list, sql_call,
  sql_function, rasql, rasql_with, interval, interval_from, interval_to, interval_between, trim,
  encode, data_source, join, join_using, join_on, filter, list, nil, cons,
}

abbrev with_table : Text → Text → Text
with_table [] c = c
with_table (x ∷ t) c = (x ∷ t) ++ (txt "." ++ c)

abbrev quoted : Text → Text → Text
quoted v type = if text_eq type (txt "string") then txt "'" ++ (v ++ txt "'::text") else v

abbrev with_options : Text → Text
with_options [] = []
with_options (x ∷ o) = txt "," ++ (x ∷ o)

abbrev with_alias : Text → Text
with_alias [] = []
with_alias (x ∷ a) = txt " AS " ++ (x ∷ a)

-- QtConst::toString, which the query of a constant contains too.
unfoldable pub show_const : Text → Text → Text
show_const v type = quoted v type

unfoldable mutual
  pub show : Node → Text
  show (column i t c) = with_table t c
  show (column_of i n c) = c
  show (const i v type) = quoted v type
  show (str i s) = s
  show (binary i n op m) = show n ++ (txt " " ++ (op ++ (txt " " ++ show m)))
  show (postgis i f n) = f ++ (txt " ( " ++ (show n ++ txt " ) "))
  show (postgis_list i f j ns) = f ++ (txt " ( " ++ (show_list ns ++ txt " ) "))
  show (sql_call i f) = f ++ txt "()"
  show (sql_function i f j nil) = f ++ txt "()"
  show (sql_function i f j (cons n ns)) = f ++ (txt "(" ++ ((show n ++ show_rest ns) ++ txt ")"))
  show (rasql i f n scalar) = f ++ (txt "(" ++ (show n ++ txt ")"))
  show (rasql_with i f n m) = f ++ (txt "(" ++ (show n ++ (txt ", " ++ (show m ++ txt ")"))))
  show (interval i lo hi) = lo ++ hi
  show (interval_from i n hi) = show n ++ hi
  show (interval_to i lo m) = lo ++ show m
  show (interval_between i n m) = show n ++ show m
  show (trim i n m) = txt "trim( " ++ (show n ++ (txt ", " ++ (show m ++ txt " )")))
  show (encode i n format options) =
      format ++ (txt "(" ++ (show n ++ (with_options options ++ txt ")")))
  show (data_source i t a) = t ++ with_alias a
  show (join i n m type nat) =
      show n
      ++ (txt " " ++ ((if nat then txt " NATURAL " else []) ++ (type ++ (txt " JOIN " ++ show m))))
  show (join_using i n m type cs) = show n ++ (txt " " ++ (type ++ (txt " JOIN " ++ show m)))
  show (join_on i n m type c) = show n ++ (txt " " ++ (type ++ (txt " JOIN " ++ show m)))
  show (filter i n) = show n
  show (list i ns) = show_list ns

  pub show_list : NodeList → Text
  show_list nil = []
  show_list (cons n ns) = show n ++ show_rest ns

  -- The elements behind the first, each after a comma.
  pub show_rest : NodeList → Text
  show_rest nil = []
  show_rest (cons n ns) = txt ", " ++ (show n ++ show_rest ns)

-- QtSelectStatement::toString
unfoldable pub show_select : NodeList → NodeList → Text
unfolding show
show_select what from = txt "SELECT " ++ (show_list what ++ (txt " FROM " ++ show_list from))
