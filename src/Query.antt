-- ===== src/Query.antt =====
-- src/querytree: the nodes of a query tree. Every node has the number that QtNode::generateId gave
-- it; its fields that change while the query runs are kept in the state by that number.
-- A list holds nodes that are not null, as the parser builds it.
pub mod Names
pub mod Registered
pub mod Invariant
pub mod Settled
pub mod Outcome
pub mod Saved
pub mod Show
pub mod Source
pub mod Leaf
pub mod Column
pub mod Binary
pub mod Function
pub mod Interval
pub mod Trim
pub mod Join
pub mod Items
pub mod Run
pub mod Select
pub mod Files
pub mod Tree
pub mod Example
mod Tests
use iql.Base.{ℕ, suc, Bool, true, false, List, [], ◌∷◌, ◌++◌, map, ◌+◌, if◌then◌else◌}
use iql.Text.{Text, txt, text_eq, decimal, lower_byte}

mutual
  pub data Node : Type 0 where
    -- QtColumn by table (or "") and column, and by a node
    column : ℕ → Text → Text → Node
    column_of : ℕ → Node → Text → Node
    -- QtConst: value and type; QtString
    const : ℕ → Text → Text → Node
    str : ℕ → Text → Node
    binary : ℕ → Node → Text → Node → Node
    -- QtPostGisFunction of one node, and of a QtList with its own number
    postgis : ℕ → Text → Node → Node
    postgis_list : ℕ → Text → ℕ → NodeList → Node
    -- QtSqlFunction without and with arguments
    sql_call : ℕ → Text → Node
    sql_function : ℕ → Text → ℕ → NodeList → Node
    -- QtRasqlFunction of one array, with its flag for a scalar result, and of two nodes
    rasql : ℕ → Text → Node → Bool → Node
    rasql_with : ℕ → Text → Node → Node → Node
    -- QtRasqlInterval, types 1 to 4
    interval : ℕ → Text → Text → Node
    interval_from : ℕ → Node → Text → Node
    interval_to : ℕ → Text → Node → Node
    interval_between : ℕ → Node → Node → Node
    trim : ℕ → Node → Node → Node
    -- QtEncodeArray: child, format, options
    encode : ℕ → Node → Text → Text → Node
    -- QtDataSource: table name and alias
    data_source : ℕ → Text → Text → Node
    -- QtJoin: its flag for NATURAL, its USING columns, its ON condition
    join : ℕ → Node → Node → Text → Bool → Node
    join_using : ℕ → Node → Node → Text → List Text → Node
    join_on : ℕ → Node → Node → Text → Node → Node
    filter : ℕ → Node → Node
    list : ℕ → NodeList → Node

  pub data NodeList : Type 0 where
    nil : NodeList
    cons : Node → NodeList → NodeList

unfoldable pub node_id : Node → ℕ
node_id (column i t c) = i
node_id (column_of i n c) = i
node_id (const i v t) = i
node_id (str i s) = i
node_id (binary i n op m) = i
node_id (postgis i f n) = i
node_id (postgis_list i f j ns) = i
node_id (sql_call i f) = i
node_id (sql_function i f j ns) = i
node_id (rasql i f n scalar) = i
node_id (rasql_with i f n m) = i
node_id (interval i lo hi) = i
node_id (interval_from i lo hi) = i
node_id (interval_to i lo hi) = i
node_id (interval_between i lo hi) = i
node_id (trim i n m) = i
node_id (encode i n f o) = i
node_id (data_source i t a) = i
node_id (join i n m t nat) = i
node_id (join_using i n m t cs) = i
node_id (join_on i n m t c) = i
node_id (filter i n) = i
node_id (list i ns) = i

-- generateId: the id that it prints, and the counter after its increment. The counter is a signed
-- `long` of 64 bits, which no run fills; it has no bound here.
unfoldable pub generate_id : ℕ → Text × ℕ
unfolding decimal
generate_id counter = (txt "id" ++ decimal (counter + 1), counter + 1)

-- The id of the node with a number.
unfoldable pub node_name : ℕ → Text
unfolding decimal
node_name n = txt "id" ++ decimal n

-- The name that a QtBinaryOperation gives the column of its result.
unfoldable pub op_name : Text → Text
op_name op =
    if text_eq op (txt "+")
    then txt "plus"
    else if text_eq op (txt "-")
    then txt "minus"
    else if text_eq op (txt "*")
    then txt "times"
    else if text_eq op (txt "/")
    then txt "divide"
    else if text_eq op (txt "%")
    then txt "mod"
    else if text_eq op (txt "^")
    then txt "power"
    else if text_eq op (txt "<")
    then txt "less"
    else if text_eq op (txt "<=")
    then txt "lessorequal"
    else if text_eq op (txt ">")
    then txt "greater"
    else if text_eq op (txt ">=")
    then txt "greaterorequal"
    else if text_eq op (txt "=")
    then txt "equal"
    else if text_eq op (txt "!=")
    then txt "notequal"
    else if text_eq op (txt "and")
    then op
    else if text_eq op (txt "or")
    then op
    else if text_eq op (txt "xor")
    then op
    else if text_eq op (txt "not")
    then op
    else if text_eq op (txt "like")
    then op
    else if text_eq op (txt "not like")
    then txt "notlike"
    else txt "op"

-- The constructors of QtRasqlFunction put the function's name in lower case.
unfoldable pub rasql_node : ℕ → Text → Node → Bool → Node
unfolding lower_byte
rasql_node i fname n reduce = rasql i (map lower_byte fname) n reduce

unfoldable pub rasql_with_node : ℕ → Text → Node → Node → Node
unfolding lower_byte
rasql_with_node i fname n m = rasql_with i (map lower_byte fname) n m
