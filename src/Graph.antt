-- ===== src/Graph.antt =====
-- graph/MachineGraph.cpp: the dot file that shows a machine. What is written stays written where an
-- exception is thrown. How a stream writes an `int` is the argument `show`.
pub mod Tags
pub mod Rows
pub mod Plain
pub mod Chains
pub mod Cells
pub mod Balanced
use skweltch.Prelude.{
  ◌≡◌, Bool, true, false, List, [], ◌∷◌, ◌++◌, Option, none, some, Bytes, codes, equal, not,
  if◌then◌else◌, ℤ, negsuc,
}
use skweltch.Result.{Result, ok, threw, undefined, runtime_error}
use skweltch.Json.{Value, Array, end_array, item, Object, end_object, pair, LexicalCast}
use skweltch.Json.JsonObject.{
  get_obj, get_child, get_string, get_int, get_array, is_null, value_text,
}
use skweltch.Stream.{Writing, ◌>>=◌, ◌>>◌, put, got}
use skweltch.Vent.{is_positive}

-- `writeTableHeader`
unfoldable pub write_table_header : Writing Unit
write_table_header = put (codes "<TABLE BORDER=\"0\" CELLBORDER=\"0\" CELLSPACING=\"0\">\n")

-- `writeEdge`
unfoldable pub write_edge : Bytes → Bytes → Bytes → Bytes → Bool → Writing Unit
write_edge from to fromlabel tolabel samehead = do
  put (codes "\t")
  put from
  put (codes " -> ")
  put to
  put (codes "[headlabel=\"")
  put fromlabel
  put (codes "\",taillabel=\"")
  put tolabel
  put (codes "\"")
  put (if samehead then codes ",samehead=true" else [])
  put (codes "];\n")

-- `writeNodeInfoRow` and `writeNodeConfigRow`
unfoldable pub write_node_info_row : Bytes → Bytes → Writing Unit
write_node_info_row name value = do
  put (codes "\t\t\t\t<TR>\n\t\t\t\t\t<TD ALIGN=\"left\"><FONT POINT-SIZE=\"10\">")
  put name
  put (codes "</FONT></TD>\n\t\t\t\t\t<TD ALIGN=\"left\"><FONT POINT-SIZE=\"10\">")
  put value
  put (codes "</FONT></TD>\n\t\t\t\t</TR>\n")

unfoldable pub write_node_config_row : Bytes → Bytes → Writing Unit
write_node_config_row name value = do
  put (codes "\t\t\t\t<TR>\n\t\t\t\t\t<TD ALIGN=\"left\">")
  put (codes "<FONT COLOR=\"lightgray\" POINT-SIZE=\"10\">")
  put name
  put (codes "</FONT></TD>\n\t\t\t\t\t<TD ALIGN=\"left\">")
  put (codes "<FONT COLOR=\"lightgray\" POINT-SIZE=\"10\">")
  put value
  put (codes "</FONT></TD>\n\t\t\t\t</TR>\n")

-- The header of the inner table before its first row: `if (!any)`.
unfoldable pub first_row : Bool → Writing Unit
unfolding write_table_header
first_row true = put []
first_row false = do put (codes "\t\t\t"); write_table_header

-- `if (any)`
unfoldable pub close_rows : Bool → Writing Unit
close_rows any = put (if any then codes "\t\t\t</TABLE>\n" else [])

-- What `catch (std::runtime_error &e)` makes of reading the node.
abbrev pub or_no_text : Result Bytes → Result Bytes
or_no_text (threw runtime_error) = ok []
or_no_text r = r

module _ {Real : Type 0} (cast : LexicalCast Real) (show : ℤ → Bytes) where
  -- The row of a connection.
  unfoldable pub connection_row : Bytes → Value Real → Writing Unit
  unfolding write_node_info_row
  connection_row key o = do
    mode ← got (get_string o (codes "mode"))
    elim (equal mode (codes "connect")) [
      | true ↦ write_node_info_row key (codes "connect")
      | false ↦ do
        address ← got (get_string o (codes "address"))
        port ← got (get_int o (codes "port") (negsuc 0))
        write_node_info_row key (codes "bind:" ++ (address ++ (codes ":" ++ show port)))
    ]

  -- The loop over the connections, with the flag `any`.
  unfoldable pub connection_rows : Object Real → Bool → Writing Bool
  unfolding first_row connection_row
  connection_rows end_object any = got (ok any)
  connection_rows (pair key o rest) any = do
    first_row any
    connection_row key o
    connection_rows rest true

  unfoldable pub count_row : ℤ → Writing Bool
  unfolding first_row write_node_info_row
  count_row count = elim (is_positive count) [
    | true ↦ do
      first_row false
      write_node_info_row (codes "count") (cast.of_int count)
      got (ok true)
    | false ↦ got (ok false)
  ]

  unfoldable pub node_row : Bytes → Bool → Writing Bool
  unfolding first_row write_node_info_row
  node_row [] any = got (ok any)
  node_row (c ∷ s) any = do first_row any; write_node_info_row (codes "node") (c ∷ s); got (ok true)

  -- `writeNodeInfo`
  unfoldable pub write_node_info : Value Real → Writing Unit
  unfolding connection_rows count_row node_row close_rows
  write_node_info node = do
    put (codes "\t<TR>\n\t\t<TD>\n")
    count ← got (get_int node (codes "count") (negsuc 0))
    any ← count_row count
    s ← got (or_no_text (get_string node (codes "node")))
    any ← node_row s any
    confconn ← got (get_child node (codes "connections"))
    any ← elim (is_null confconn) [
      | true ↦ got (ok any)
      | false ↦ do o ← got (get_obj confconn); connection_rows o any
    ]
    close_rows any
    put (codes "\t\t</TD>\n\t</TR>\n")

  -- The loop of `writeNodeConfig`
  unfoldable pub config_rows : Object Real → Bool → Writing Bool
  unfolding first_row write_node_config_row
  config_rows end_object any = got (ok any)
  config_rows (pair key v rest) any = do
    first_row any
    write_node_config_row key (value_text cast v)
    config_rows rest true

  -- `writeNodeConfig`
  unfoldable pub write_node_config : Value Real → Writing Unit
  unfolding config_rows close_rows
  write_node_config node = do
    put (codes "\t<TR>\n\t\t<TD>\n")
    config ← got (get_child node (codes "config"))
    any ← elim (is_null config) [
      | true ↦ got (ok false)
      | false ↦ do o ← got (get_obj config); config_rows o false
    ]
    close_rows any
    put (codes "\t\t</TD>\n\t</TR>\n")

  -- The edge of a connection, and the loop over them.
  unfoldable pub connection_edge : Bytes → Bytes → Value Real → Writing Unit
  unfolding write_edge
  connection_edge name key o = do
    mode ← got (get_string o (codes "mode"))
    elim (equal mode (codes "connect")) [
      | true ↦ do
        direction ← got (get_string o (codes "direction"))
        block ← got (get_string o (codes "block"))
        connection ← got (get_string o (codes "connection"))
        elim (equal direction (codes "to")) [
          | true ↦ write_edge name block connection key false
          | false ↦ write_edge block name key connection false
        ]
      | false ↦ put []
    ]

  unfoldable pub connection_edges : Bytes → Object Real → Writing Unit
  unfolding connection_edge
  connection_edges name end_object = put []
  connection_edges name (pair key o rest) = do
    connection_edge name key o
    connection_edges name rest

  -- `writeNode`
  unfoldable pub write_node : Value Real → Writing Unit
  unfolding write_table_header write_node_info write_node_config connection_edges
  write_node node = do
    name ← got (get_string node (codes "name"))
    put (codes "\t")
    put name
    put (codes " [shape=box,label=<\n")
    write_table_header
    put (codes "\t<TR>\n\t\t<TD><FONT POINT-SIZE=\"18\" COLOR=\"green\">")
    put name
    put (codes "</FONT></TD>\n\t</TR>\n")
    write_node_info node
    write_node_config node
    put (codes "</TABLE>>];\n")
    confconn ← got (get_child node (codes "connections"))
    elim (is_null confconn) [
      | true ↦ put []
      | false ↦ do o ← got (get_obj confconn); connection_edges name o
    ]

  unfoldable pub write_nodes : Array Real → Writing Unit
  unfolding write_node
  write_nodes end_array = put []
  write_nodes (item v rest) = do write_node v; write_nodes rest

  unfoldable pub write_child : Value Real → Bytes → Writing Unit
  unfolding write_node
  write_child m name = do node ← got (get_child m name); write_node node

  unfoldable pub write_blocks : Value Real → Writing Bool
  unfolding write_child write_nodes
  write_blocks m = do
    write_child m (codes "vent")
    write_child m (codes "sink")
    bg ← got (get_array m (codes "background"))
    write_nodes bg
    write_child m (codes "reap")
    put (codes "}")
    got (ok true)

  -- `makeDOT`, of what has been read from the stream.
  unfoldable pub make_dot : Option (Value Real) → Writing Bool
  unfolding write_blocks
  make_dot json = do
    put (codes "digraph G {\n\tsplines=spline;\n\tnodesep=2;\n\tnode [fontcolor=white,\n")
    put (codes "\t\tfillcolor=black,\n\t\tfontname=Geneva,\n\t\tlabel=\"\\N\",style=filled\n\t];\n")
    put (
        codes "\tedge [color=blue,\n\t\tfontcolor=black,\n\t\tfontname=Geneva,\n\t\tfontsize=10,\n")
    put (codes "\t\tfontcolor=lightblue,\n\t\tstyle=bold\n\t];\n")
    elim json [ none ↦ got (ok false) | some m ↦ write_blocks m ]
