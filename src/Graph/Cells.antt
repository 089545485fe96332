-- ===== src/Graph/Cells.antt =====
-- The two cells of the table of a block, between two places of a reader of its tags.
use skweltch.Prelude.{
  ◌≡◌, refl, Bool, true, false, List, [], ◌∷◌, ◌++◌, Bytes, codes, equal, ℤ, arith,
}
use skweltch.Result.{ok}
use skweltch.Json.{Value, Object, end_object, pair, LexicalCast}
use skweltch.Json.JsonObject.{get_obj, get_string, is_null}
use skweltch.Vent.{is_positive}
use skweltch.Graph.{
  connection_row, connection_rows, count_row, node_row, write_node_info, config_rows,
  write_node_config,
}
use skweltch.Stream.{◌>>=◌, got}
use skweltch.Graph.Tags.{outside, read_char, read_tags, is_plain}
use skweltch.Graph.Rows.{
  Turns, rows_in, inner, write_node_info_row-Turns, write_node_config_row-Turns, first_row-Turns,
  close_rows-Turns,
}
use skweltch.Graph.Chains.{Rows, then_turn, then_more, with_any, reads, writes, one_of, no_more}
use skweltch.Graph.Plain.{
  plain_value, plain_object, get_obj-plain, get_string-plain, get_child-plain, value_text-plain,
  or_no_text-plain, is_plain-append,
}

-- The elements around a cell of the table.
abbrev pub cell : List Bytes
cell = codes "TABLE" ∷ [] ∷ []

module _ {Real : Type 0} (cast : LexicalCast Real) (show : ℤ → Bytes)
    (hi : (n : ℤ) → is_plain (cast.of_int n) ≡ true)
    (hb : (b : Bool) → is_plain (cast.of_bool b) ≡ true)
    (hr : (x : Real) → is_plain (cast.of_real x) ≡ true)
    (hs : (n : ℤ) → is_plain (show n) ≡ true) where
  connection_row-Turns :
      (key : Bytes) (o : Value Real)
      → is_plain key ≡ true
      → plain_value o ≡ true
      → Turns (outside rows_in) (connection_row cast show key o) (outside rows_in)
  unfolding connection_row
  connection_row-Turns key o k h = reads λ mode e.
      one_of (equal mode (codes "connect")) (write_node_info_row-Turns key _ k refl) (
        reads λ address f. reads λ port g. write_node_info_row-Turns key _ k (
          is_plain-append (codes "bind:") (address ++ (codes ":" ++ show port)) refl (
            is_plain-append address (codes ":" ++ show port)
              (get_string-plain o (codes "address") address h f) (hs port))))

  connection_rows-Rows :
      (o : Object Real) (any : Bool)
      → plain_object o ≡ true
      → Rows (outside (inner any)) (connection_rows cast show o any)
  unfolding connection_rows plain_object
  connection_rows-Rows end_object any h = no_more any
  connection_rows-Rows (pair key v o) any h = then_more (first_row-Turns any) (
      then_more (connection_row-Turns key v (ground arith) (ground arith))
        (connection_rows-Rows o true (ground arith)))

  count_row-Rows : (count : ℤ) → Rows (outside (inner false)) (count_row cast show count)
  unfolding count_row
  count_row-Rows count =
      one_of (is_positive count)
        (then_more (first_row-Turns false)
          (then_more (write_node_info_row-Turns (codes "count") _ refl (hi count)) (no_more true)))
        (no_more false)

  node_row-Rows :
      (s : Bytes) (any : Bool)
      → is_plain s ≡ true
      → Rows (outside (inner any)) (node_row cast show s any)
  unfolding node_row
  node_row-Rows [] any h = no_more any
  node_row-Rows (c ∷ s) any h =
      then_more (first_row-Turns any)
        (then_more (write_node_info_row-Turns (codes "node") (c ∷ s) refl h) (no_more true))

  connections_info-Rows :
      (v : Value Real) (any : Bool)
      → plain_value v ≡ true
      → Rows (outside (inner any)) (elim (is_null v) [
        | true ↦ got (ok any)
        | false ↦ got (get_obj v) >>= λ o. connection_rows cast show o any
      ])
  connections_info-Rows v any h =
      one_of (is_null v) (no_more any)
        (reads λ o e. connection_rows-Rows o any (get_obj-plain v o h e))

  pub write_node_info-Turns :
      (node : Value Real)
      → plain_value node ≡ true
      → Turns (outside cell) (write_node_info cast show node) (outside cell)
  unfolding write_node_info read_tags read_char equal
  write_node_info-Turns node h = then_turn (writes (outside (inner false)) refl) (
      reads λ count e. with_any (count_row-Rows count) λ any. reads λ s f.
        with_any
          (node_row-Rows s any (
            or_no_text-plain (get_string node (codes "node")) s
              (λ t. get_string-plain node (codes "node") t h) f))
          λ any. reads λ c g.
            with_any
              (connections_info-Rows c any (get_child-plain node (codes "connections") c h g))
              λ any. then_turn (close_rows-Turns any) (writes (outside cell) refl))

  config_rows-Rows :
      (o : Object Real) (any : Bool)
      → plain_object o ≡ true
      → Rows (outside (inner any)) (config_rows cast show o any)
  unfolding config_rows plain_object
  config_rows-Rows end_object any h = no_more any
  config_rows-Rows (pair key v o) any h = then_more (first_row-Turns any) (
      then_more
        (write_node_config_row-Turns key _ (ground arith)
          (value_text-plain cast hi hb hr v (ground arith)))
        (config_rows-Rows o true (ground arith)))

  config_info-Rows :
      (v : Value Real)
      → plain_value v ≡ true
      → Rows (outside (inner false)) (elim (is_null v) [
        | true ↦ got (ok false)
        | false ↦ got (get_obj v) >>= λ o. config_rows cast show o false
      ])
  config_info-Rows v h =
      one_of (is_null v) (no_more false)
        (reads λ o e. config_rows-Rows o false (get_obj-plain v o h e))

  pub write_node_config-Turns :
      (node : Value Real)
      → plain_value node ≡ true
      → Turns (outside cell) (write_node_config cast show node) (outside cell)
  unfolding write_node_config read_tags read_char equal
  write_node_config-Turns node h = then_turn (writes (outside (inner false)) refl) (
      reads λ c e.
        with_any (config_info-Rows c (get_child-plain node (codes "config") c h e))
          λ any. then_turn (close_rows-Turns any) (writes (outside cell) refl))
