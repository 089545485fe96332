-- ===== src/Rest/Linked.antt =====
-- The connections that the picture of ui/rest/nodesHandler.cpp shows, by the configuration of the blocks.
use skweltch.Prelude.{
  ◌≡◌, refl, ap, sym, ◌∙◌, inl, inr, true, false, Bytes, codes, equal, List, [], ◌∷◌, ◌++◌, ℤ, pos,
  Bool-cases, ◌⊎◌,
}
use skweltch.Result.{ok, >>=-ok, same_ok}
use skweltch.Json.{Value, Object, end_object, pair, LexicalCast}
use skweltch.Json.JsonObject.{get_string, get_int, get_obj, is_null}
use skweltch.Json.JsonPath.{get_path}
use skweltch.Pipes.{ended}
use skweltch.Rest.{Ids, id_at, connections_of, links_from, add_node, center_at, all_nodes}

module _ {Real : Type 0} (cast : LexicalCast Real) (split_path : Bytes → List Bytes) where
  -- From a block of the name to each block that one of its connections is directed to.
  abbrev pub Directed : Bytes → Object Real → List (Bytes × Bytes) → Type 0
  Directed name end_object links = links ≡ []
  Directed name (pair key o more) links =
      (direction : Bytes) × (rest : List (Bytes × Bytes)) × (get_string o (codes "direction")
        ≡ ok direction)
      × Directed name more rest
      × (((equal direction (codes "to") ≡ false) × (links ≡ rest))
          ⊎ ((equal direction (codes "to") ≡ true)
              × ((block : Bytes) × (get_string o (codes "block") ≡ ok block)
                  × (links ≡ (name, block) ∷ rest))))

  -- The connections are those at `config.connections`, if there is something.
  abbrev pub BlockLinks : Value Real → List (Bytes × Bytes) → Type 0
  BlockLinks block links =
      (name : Bytes) × (found : Value Real) × (get_string block (codes "name") ≡ ok name)
      × (ended (get_path cast split_path block (codes "config.connections")) ≡ ok found)
      × (((is_null found ≡ true) × (links ≡ []))
          ⊎ ((is_null found ≡ false)
              × ((o : Object Real) × (get_obj found ≡ ok o) × Directed name o links)))

  -- Those of one block after the other.
  abbrev pub Links : List (Value Real × Bytes) → List (Bytes × Bytes) → Type 0
  Links [] links = links ≡ []
  Links ((block, type) ∷ blocks) links =
      (here : List (Bytes × Bytes)) × (rest : List (Bytes × Bytes)) × BlockLinks block here
      × Links blocks rest
      × (links ≡ here ++ rest)

  links_from-Directed :
      (name : Bytes) (o : Object Real) (links : List (Bytes × Bytes))
      → links_from cast split_path name o ≡ ok links
      → Directed name o links
  unfolding links_from
  links_from-Directed name end_object links e = sym (same_ok e)
  links_from-Directed name (pair key o more) links e =
      let (direction, told, e1) = >>=-ok (get_string o (codes "direction")) _ e in
      elim (Bool-cases (equal direction (codes "to"))) [
        | inl to ↦
            let (block, named, e2) = >>=-ok (get_string o (codes "block")) _ (rw to at e1) in
            let (rest, linked, e3) = >>=-ok (links_from cast split_path name more) _ e2 in
            (
              direction,
              rest,
              told,
              links_from-Directed name more rest linked,
              inr (to, (block, named, sym (same_ok e3))),
            )
        | inr other ↦ (
          direction,
          links,
          told,
          links_from-Directed name more links (rw other at e1),
          inl (other, refl),
        )
      ]

  add_node-BlockLinks :
      (picture block : Value Real) (type : Bytes) (center : ℤ × ℤ) (now : Value Real)
      (links : List (Bytes × Bytes))
      → add_node cast split_path picture block type center ≡ ok (now, links)
      → BlockLinks block links
  unfolding add_node connections_of links_from
  add_node-BlockLinks picture block type center now links h =
      let (name, named, h1) = >>=-ok (get_string block (codes "name")) _ h in
      let (count, counted, h2) = >>=-ok (get_int block (codes "count") (pos 0)) _ h1 in
      let (o, connected, h3) = >>=-ok (connections_of cast split_path block) _ h2 in
      let (found, there, e) =
        >>=-ok (ended (get_path cast split_path block (codes "config.connections"))) _ connected in
      let (rest, linked, h4) = >>=-ok (links_from cast split_path name o) _ h3 in
      let same : rest ≡ links = ap (λ (p : Value Real × List (Bytes × Bytes)). p.1) (same_ok h4) in
      let directed : Directed name o links =
        links_from-Directed name o links (linked ∙ ap ok same) in
      elim (Bool-cases (is_null found)) [
        | inl nothing ↦
            let empty : end_object ≡ o = same_ok (rw nothing at e) in
            (name, found, named, there, inl (nothing, rw (← empty) at directed))
        | inr some_there ↦
            (name, found, named, there, inr (some_there, (o, (rw some_there at e), directed)))
      ]

  pub all_nodes-Links :
      (ids : Ids) (centers : List (ℤ × ℤ)) (blocks : List (Value Real × Bytes))
      (picture last : Value Real) (links : List (Bytes × Bytes))
      → all_nodes cast split_path ids centers blocks picture ≡ ok (last, links)
      → Links blocks links
  unfolding all_nodes
  all_nodes-Links ids centers [] picture last links h =
      ap (λ (p : Value Real × List (Bytes × Bytes)). p.1) (sym (same_ok h))
  all_nodes-Links ids centers ((block, type) ∷ blocks) picture last links h =
      let (name, named, h1) = >>=-ok (get_string block (codes "name")) _ h in
      let (id, found, h2) = >>=-ok (id_at ids name) _ h1 in
      let (center, placed, h3) = >>=-ok (center_at cast split_path centers id) _ h2 in
      let ((now, here), added, h4) =
        >>=-ok (add_node cast split_path picture block type center) _ h3 in
      let ((end_picture, rest), added', h5) =
        >>=-ok (all_nodes cast split_path ids centers blocks now) _ h4 in
      (
        here,
        rest,
        add_node-BlockLinks picture block type center now here added,
        all_nodes-Links ids centers blocks now end_picture rest added',
        ap (λ (p : Value Real × List (Bytes × Bytes)). p.1) (sym (same_ok h5)),
      )
