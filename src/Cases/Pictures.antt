-- ===== src/Cases/Pictures.antt =====
-- The picture of a vent and a reap, for ui/rest/nodesHandler.cpp.
use skweltch.Prelude.{ℕ, ◌≡◌, refl, true, Bytes, codes, equal, List, [], ◌∷◌, ℤ, pos, Option, some}
use skweltch.Json.{Value, int, item, str, object, array, end_array, end_object, pair}
use skweltch.Json.JsonObject.{
  get_value, get_string, get_int, get_array, get_child, add, push_back, push_item,
}
use skweltch.Json.JsonPath.{get_path, get_place, loop, step, get_token, find_key}
use skweltch.Rest.{
  Frame, id_at, connections_of, edges_from, add_edges, links_from, add_node, give_ids, all_edges,
  all_nodes, read_frame, nodes_handler,
}
use skweltch.Rest.Drawn.{Drawn, nodes_handler-Drawn}
use skweltch.Cases.Machines.{unary}

abbrev block_named : Bytes → Value ℕ → Value ℕ
block_named name connections = object (
    pair (codes "name") (str name) (
      pair (codes "config") (object (pair (codes "connections") connections end_object))
        end_object))

-- The vent sends to the reap.
abbrev two_blocks : Value ℕ
two_blocks = object (
    pair (codes "vent")
      (block_named (codes "v") (
        object (
          pair (codes "out")
            (object (
              pair (codes "direction") (str (codes "to"))
                (pair (codes "block") (str (codes "r")) end_object)))
            end_object)))
      (pair (codes "background") (array end_array)
        (pair (codes "reap") (block_named (codes "r") (object end_object)) end_object)))

abbrev whole_path : Bytes → List Bytes
whole_path path = codes "config" ∷ codes "connections" ∷ []

abbrev no_split : ℕ → Bytes → List Bytes
no_split c text = text ∷ []

abbrev two_places : ℕ → List (ℕ × ℕ) → Frame → Option (List (ℤ × ℤ))
two_places n edges frame = some ((pos 1, pos 2) ∷ (pos 3, pos 4) ∷ [])

abbrev pictured : Bytes → ℤ → ℤ → Value ℕ
pictured type x y = object (
    pair (codes "type") (str type) (
      pair (codes "rect")
        (object (
          pair (codes "left") (int x) (
            pair (codes "top") (int y) (
              pair (codes "width") (int (pos 100))
                (pair (codes "height") (int (pos 100)) end_object)))))
        end_object))

abbrev two_pictured : Value ℕ
two_pictured = object (
    pair (codes "v") (pictured (codes "vent") (pos 1) (pos 2)) (
      pair (codes "r") (pictured (codes "reap") (pos 3) (pos 4)) (
        pair (codes "connections")
          (array (
            item
              (object (
                pair (codes "from") (str (codes "v"))
                  (pair (codes "to") (str (codes "r")) end_object)))
              end_array))
          end_object)))

nodes_handler-Drawn_example :
    (true ≡ true) × Drawn unary whole_path no_split two_places two_blocks two_pictured
unfolding nodes_handler read_frame give_ids all_edges add_edges connections_of edges_from all_nodes
    add_node links_from id_at get_array get_child get_string get_int get_value add push_back
    push_item equal get_path get_place loop step get_token find_key
nodes_handler-Drawn_example =
    nodes_handler-Drawn unary whole_path no_split two_places []
      (record { loaded = true; root = two_blocks }) two_pictured refl
