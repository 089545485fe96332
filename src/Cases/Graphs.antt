-- ===== src/Cases/Graphs.antt =====
-- The dot file of a machine.
use skweltch.Prelude.{
  ℕ, zero, suc, ◌≡◌, refl, true, some, [], codes, replicate, ℤ, pos, negsuc, equal,
}
use skweltch.Json.{Value, str, int, array, object, end_array, item, end_object, pair, LexicalCast}
use skweltch.Json.JsonObject.{get_string, get_child, get_array, get_int, get_value, value_text}
use skweltch.Cases.Machines.{unary, show_unary}
use skweltch.Graph.{
  write_table_header, write_edge, write_node_info_row, write_node_config_row, first_row, close_rows,
  connection_row, connection_rows, count_row, node_row, write_node_info, config_rows,
  write_node_config, connection_edge, connection_edges, write_node, write_nodes, write_child,
  write_blocks, make_dot,
}
use skweltch.Stream.{◌>>=◌}
use skweltch.Graph.Tags.{outside, read_tags, is_plain}
use skweltch.Graph.Plain.{plain_value}
use skweltch.Graph.Balanced.{make_dot-balanced}

abbrev drawn_unary : LexicalCast ℕ
drawn_unary = record unary { of_real = λ x. codes "0" }

replicate-plain : (n : ℕ) → is_plain (replicate n b'1') ≡ true
replicate-plain zero = refl
replicate-plain (suc n) = replicate-plain n

show_unary-plain : (n : ℤ) → is_plain (show_unary n) ≡ true
show_unary-plain (pos n) = replicate-plain n
show_unary-plain (negsuc n) = replicate-plain n

abbrev block : Value ℕ → Value ℕ → Value ℕ
block n connections = object (
    pair (codes "name") n (
      pair (codes "count") (int (pos 2)) (
        pair (codes "node") (str (codes "host")) (
          pair (codes "connections") connections (
            pair (codes "config") (object (pair (codes "low") (int (pos 1)) end_object))
              end_object)))))

-- A vent that binds, and three blocks of which one connects to it.
abbrev drawn_machine : Value ℕ
drawn_machine =
    let bound = object (
      pair (codes "pushTo")
        (object (
          pair (codes "mode") (str (codes "bind")) (
            pair (codes "address") (str (codes "*"))
              (pair (codes "port") (int (pos 5)) end_object))))
        end_object) in
    let connected = object (
      pair (codes "pullFrom")
        (object (
          pair (codes "mode") (str (codes "connect")) (
            pair (codes "direction") (str (codes "from")) (
              pair (codes "block") (str (codes "v"))
                (pair (codes "connection") (str (codes "pushTo")) end_object)))))
        end_object) in
    object (
      pair (codes "vent") (block (str (codes "v")) bound) (
        pair (codes "sink") (block (str (codes "s")) (object end_object)) (
          pair (codes "background") (array (item (block (str (codes "w")) connected) end_array))
            (pair (codes "reap") (block (str (codes "r")) (object end_object)) end_object))))

make_dot-balanced_example :
    read_tags (make_dot drawn_unary show_unary (some drawn_machine)).text (outside [])
    ≡ some (outside [])
unfolding ◌>>=◌ write_table_header write_edge write_node_info_row write_node_config_row first_row
    close_rows connection_row connection_rows count_row node_row write_node_info config_rows
    write_node_config connection_edge connection_edges write_node write_nodes write_child
    write_blocks make_dot get_string get_child get_array get_int get_value value_text equal
    plain_value
make_dot-balanced_example =
    make_dot-balanced drawn_unary show_unary show_unary-plain (λ b. refl) (λ x. refl)
      show_unary-plain drawn_machine true refl refl
