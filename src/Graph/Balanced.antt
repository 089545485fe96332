-- ===== src/Graph/Balanced.antt =====
-- Every element that the dot file opens is closed by its own name, inside of the label that it is in.
use skweltch.Prelude.{◌≡◌, refl, Bool, true, false, [], ◌∷◌, some, Bytes, codes, equal, ℤ, arith}
use skweltch.Result.{ok}
use skweltch.Json.{Value, Array, end_array, item, Object, end_object, pair, LexicalCast}
use skweltch.Json.JsonObject.{get_obj, is_null}
use skweltch.Graph.{
  write_table_header, connection_edge, connection_edges, write_node, write_nodes, write_child,
  write_blocks, make_dot,
}
use skweltch.Stream.{◌>>=◌, put, got}
use skweltch.Graph.Tags.{
  outside, read_char, read_tags, read_tags-plain, is_plain, Draws, Draws-bind,
}
use skweltch.Graph.Rows.{Turns, write_edge-Turns}
use skweltch.Graph.Chains.{Any, then_turn, reads, writes, one_of}
use skweltch.Graph.Cells.{cell, write_node_info-Turns, write_node_config-Turns}
use skweltch.Graph.Plain.{
  plain_value, plain_array, plain_object, get_obj-plain, get_string-plain, get_child-plain,
  get_array-plain,
}

module _ {Real : Type 0} (cast : LexicalCast Real) (show : ℤ → Bytes)
    (hi : (n : ℤ) → is_plain (cast.of_int n) ≡ true)
    (hb : (b : Bool) → is_plain (cast.of_bool b) ≡ true)
    (hr : (x : Real) → is_plain (cast.of_real x) ≡ true)
    (hs : (n : ℤ) → is_plain (show n) ≡ true) where
  connection_edge-Turns :
      (name key : Bytes) (o : Value Real)
      → is_plain name ≡ true
      → is_plain key ≡ true
      → plain_value o ≡ true
      → Turns (outside []) (connection_edge cast show name key o) (outside [])
  unfolding connection_edge read_tags
  connection_edge-Turns name key o n k h = reads λ mode e.
      one_of (equal mode (codes "connect"))
        (reads λ direction d. reads λ block b. reads λ connection c.
          let pb = get_string-plain o (codes "block") block h b in
          let pc = get_string-plain o (codes "connection") connection h c in
          one_of (equal direction (codes "to"))
            (write_edge-Turns name block connection key false n pb pc k)
            (write_edge-Turns block name key connection false pb n k pc))
        (writes (outside []) refl)

  connection_edges-Turns :
      (name : Bytes) (o : Object Real)
      → is_plain name ≡ true
      → plain_object o ≡ true
      → Turns (outside []) (connection_edges cast show name o) (outside [])
  unfolding connection_edges plain_object read_tags
  connection_edges-Turns name end_object n h = writes (outside []) refl
  connection_edges-Turns name (pair key v o) n h =
      then_turn (connection_edge-Turns name key v n (ground arith) (ground arith))
        (connection_edges-Turns name o n (ground arith))

  edges_of-Turns :
      (name : Bytes) (v : Value Real)
      → is_plain name ≡ true
      → plain_value v ≡ true
      → Turns
          (outside [])
          (elim (is_null v) [
            | true ↦ put []
            | false ↦ got (get_obj v) >>= λ o. connection_edges cast show name o
          ])
          (outside [])
  unfolding read_tags
  edges_of-Turns name v n h =
      one_of (is_null v) (writes (outside []) refl)
        (reads λ o e. connection_edges-Turns name o n (get_obj-plain v o h e))

  write_node-Turns :
      (node : Value Real)
      → plain_value node ≡ true
      → Turns (outside []) (write_node cast show node) (outside [])
  unfolding write_node write_table_header read_tags read_char equal
  write_node-Turns node h = reads λ name e.
      let n = get_string-plain node (codes "name") name h e in
      then_turn (writes (outside []) refl) (
        then_turn (writes (outside []) (read_tags-plain name [] n)) (
          then_turn (writes (outside ([] ∷ [])) refl) (
            then_turn (writes (outside cell) refl) (
              then_turn (writes (outside (codes "FONT" ∷ codes "TD" ∷ codes "TR" ∷ cell)) refl) (
                then_turn (writes _ (read_tags-plain name _ n)) (
                  then_turn (writes (outside cell) refl) (
                    then_turn (write_node_info-Turns cast show hi hb hr hs node h) (
                      then_turn (write_node_config-Turns cast show hi hb hr hs node h) (
                        then_turn (writes (outside []) refl) (
                          reads λ c f.
                            edges_of-Turns name c n
                              (get_child-plain node (codes "connections") c h f)))))))))))

  write_nodes-Turns :
      (a : Array Real)
      → plain_array a ≡ true
      → Turns (outside []) (write_nodes cast show a) (outside [])
  unfolding write_nodes plain_array read_tags
  write_nodes-Turns end_array h = writes (outside []) refl
  write_nodes-Turns (item v a) h =
      then_turn (write_node-Turns v (ground arith)) (write_nodes-Turns a (ground arith))

  write_child-Turns :
      (m : Value Real) (name : Bytes)
      → plain_value m ≡ true
      → Turns (outside []) (write_child cast show m name) (outside [])
  unfolding write_child
  write_child-Turns m name h =
      reads λ node e. write_node-Turns node (get_child-plain m name node h e)

  write_blocks-Draws :
      (m : Value Real)
      → plain_value m ≡ true
      → Draws Any (outside []) (write_blocks cast show m) (λ b. outside [])
  unfolding write_blocks ◌>>=◌ read_tags read_char
  write_blocks-Draws m h = Draws-bind (write_child-Turns m (codes "vent") h) λ a u.
      Draws-bind (write_child-Turns m (codes "sink") h) λ a u. reads λ bg e.
        Draws-bind (write_nodes-Turns bg (get_array-plain m (codes "background") bg h e)) λ a u.
          Draws-bind (write_child-Turns m (codes "reap") h)
            λ a u. record { ends = λ b e. (refl, tt) }

  make_dot-Draws :
      (m : Value Real)
      → plain_value m ≡ true
      → Draws Any (outside []) (make_dot cast show (some m)) (λ b. outside [])
  unfolding make_dot read_tags read_char
  make_dot-Draws m h = Draws-bind (writes (outside []) refl) λ a u.
      Draws-bind (writes (outside []) refl) λ a u.
        Draws-bind (writes (outside []) refl)
          λ a u. Draws-bind (writes (outside []) refl) λ a u. write_blocks-Draws m h

  -- In the dot file of a configuration whose names and texts hold no `<` and no `>`, nor does a number
  -- or a truth value as it is written, each element is closed by its own name within the one that it
  -- is in, and each label ends, if the file is written to its end.
  pub make_dot-balanced :
      (m : Value Real) (b : Bool)
      → plain_value m ≡ true
      → (make_dot cast show (some m)).out ≡ ok b
      → read_tags (make_dot cast show (some m)).text (outside []) ≡ some (outside [])
  make_dot-balanced m b h e = ((make_dot-Draws m h).ends b e).0
