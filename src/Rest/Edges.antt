-- ===== src/Rest/Edges.antt =====
-- The edges of the graph that is laid out are the connections that are reported.
use skweltch.Prelude.{
  ℕ, ◌≡◌, refl, ap, sym, ◌∙◌, inl, inr, Bytes, codes, equal, ◌==◌, if◌then◌else◌, List, [], ◌∷◌,
  ◌++◌, ℤ, pos, Bool-cases,
}
use skweltch.Result.{Result, ok, threw, other_error, ◌>>=◌, >>=-ok, same_ok}
use skweltch.Json.{Value, Object, end_object, pair, LexicalCast}
use skweltch.Json.JsonObject.{get_string, get_int}
use skweltch.Rest.{
  Ids, id_at, connections_of, edges_from, add_edges, links_from, add_node, all_edges, center_at,
  all_nodes,
}

-- The ids of the ends of connections.
abbrev pub ids_of : Ids → List (Bytes × Bytes) → Result (List (ℕ × ℕ))
ids_of ids [] = ok []
ids_of ids ((here, there) ∷ links) =
    id_at ids here >>= λ h. id_at ids there >>= λ t. ids_of ids links >>= λ es. ok ((h, t) ∷ es)

module _ {Real : Type 0} (cast : LexicalCast Real) (split_path : Bytes → List Bytes) where
  links_from-ids_of :
      (ids : Ids) (name : Bytes) (o : Object Real) (es : List (ℕ × ℕ))
      (links : List (Bytes × Bytes))
      → edges_from cast split_path ids name o ≡ ok es
      → links_from cast split_path name o ≡ ok links
      → ids_of ids links ≡ ok es
  unfolding edges_from links_from
  links_from-ids_of ids name end_object es links e h = rw (← same_ok h) e
  links_from-ids_of ids name (pair key o more) es links e h =
      let (direction, told, e1) = >>=-ok (get_string o (codes "direction")) _ e in
      let (direction', told', h1) = >>=-ok (get_string o (codes "direction")) _ h in
      let same : direction ≡ direction' = same_ok (sym told ∙ told') in
      elim (Bool-cases (equal direction (codes "to"))) [
        | inl to ↦
            to_case (λ edges rest. links_from-ids_of ids name more edges rest) (rw to at e1)
              (rw (← same, to) at h1)
        | inr other ↦
            links_from-ids_of ids name more es links (rw other at e1) (rw (← same, other) at h1)
      ]
    where
      to_case :
          ((edges : List (ℕ × ℕ)) (rest : List (Bytes × Bytes))
            → edges_from cast split_path ids name more ≡ ok edges
            → links_from cast split_path name more ≡ ok rest
            → ids_of ids rest ≡ ok edges)
          → (do
            here ← id_at ids name
            block ← get_string o (codes "block")
            there ← id_at ids block
            if here == there
                then threw other_error
                else (edges_from cast split_path ids name more >>= λ edges.
                    ok ((here, there) ∷ edges)))
            ≡ ok es
          → (do
            block ← get_string o (codes "block")
            links ← links_from cast split_path name more
            ok ((name, block) ∷ links))
            ≡ ok links
          → ids_of ids links ≡ ok es
      to_case later e h =
          let (here, found, e1) = >>=-ok (id_at ids name) _ e in
          let (block, told, e2) = >>=-ok (get_string o (codes "block")) _ e1 in
          let (there, found', e3) = >>=-ok (id_at ids block) _ e2 in
          let (block', told', h1) = >>=-ok (get_string o (codes "block")) _ h in
          let (rest, linked, h2) = >>=-ok (links_from cast split_path name more) _ h1 in
          let same : block ≡ block' = same_ok (sym told ∙ told') in
          elim (Bool-cases (here == there)) [
            | inl loops ↦ absurd (cc (rw loops at e3))
            | inr apart ↦
                let (edges, drawn, e4) =
                  >>=-ok (edges_from cast split_path ids name more) _ (rw apart at e3) in
                let rest_ids = later edges rest drawn linked in
                rw (← same_ok h2, found, ← same, found', rest_ids) e4
          ]

  ids_of-append :
      (ids : Ids) (links more : List (Bytes × Bytes)) (es fs : List (ℕ × ℕ))
      → ids_of ids links ≡ ok es
      → ids_of ids more ≡ ok fs
      → ids_of ids (links ++ more) ≡ ok (es ++ fs)
  ids_of-append ids [] more es fs e h = rw (← same_ok e) h
  ids_of-append ids ((here, there) ∷ links) more es fs e h =
      let (i, found, e1) = >>=-ok (id_at ids here) _ e in
      let (j, found', e2) = >>=-ok (id_at ids there) _ e1 in
      let (rest, linked, e3) = >>=-ok (ids_of ids links) _ e2 in
      rw (found, found', ids_of-append ids links more rest fs linked h, ← same_ok e3) refl

  add_node-ids_of :
      (ids : Ids) (block picture : Value Real) (type : Bytes) (center : ℤ × ℤ) (es : List (ℕ × ℕ))
      (now : Value Real) (links : List (Bytes × Bytes))
      → add_edges cast split_path ids block ≡ ok es
      → add_node cast split_path picture block type center ≡ ok (now, links)
      → ids_of ids links ≡ ok es
  unfolding add_edges add_node
  add_node-ids_of ids block picture type center es now links e h =
      let (name, named, e1) = >>=-ok (get_string block (codes "name")) _ e in
      let (o, found, e2) = >>=-ok (connections_of cast split_path block) _ e1 in
      let (name', named', h1) = >>=-ok (get_string block (codes "name")) _ h in
      let (count, counted, h2) = >>=-ok (get_int block (codes "count") (pos 0)) _ h1 in
      let (o', found', h3) = >>=-ok (connections_of cast split_path block) _ h2 in
      let (rest, linked, h4) = >>=-ok (links_from cast split_path name' o') _ h3 in
      let same_name : name' ≡ name = same_ok (sym named' ∙ named) in
      let same_o : o' ≡ o = same_ok (sym found' ∙ found) in
      let same_links : rest ≡ links =
        ap (λ (p : Value Real × List (Bytes × Bytes)). p.1) (same_ok h4) in
      links_from-ids_of ids name o es links e2 (rw (← same_name, ← same_o, ← same_links) linked)

  pub all_nodes-ids_of :
      (ids : Ids) (centers : List (ℤ × ℤ)) (blocks : List (Value Real × Bytes))
      (picture : Value Real) (es : List (ℕ × ℕ)) (last : Value Real) (links : List (Bytes × Bytes))
      → all_edges cast split_path ids blocks ≡ ok es
      → all_nodes cast split_path ids centers blocks picture ≡ ok (last, links)
      → ids_of ids links ≡ ok es
  unfolding all_edges all_nodes
  all_nodes-ids_of ids centers [] picture es last links e h =
      rw (ap (λ (p : Value Real × List (Bytes × Bytes)). p.1) (sym (same_ok h))) e
  all_nodes-ids_of ids centers ((block, type) ∷ blocks) picture es last links e h =
      let (edges, drawn, e1) = >>=-ok (add_edges cast split_path ids block) _ e in
      let (more, drawn', e2) = >>=-ok (all_edges cast split_path ids blocks) _ e1 in
      let (name, named, h1) = >>=-ok (get_string block (codes "name")) _ h in
      let (id, found, h2) = >>=-ok (id_at ids name) _ h1 in
      let (center, placed, h3) = >>=-ok (center_at cast split_path centers id) _ h2 in
      let ((now, here), added, h4) =
        >>=-ok (add_node cast split_path picture block type center) _ h3 in
      let ((end_picture, rest), added', h5) =
        >>=-ok (all_nodes cast split_path ids centers blocks now) _ h4 in
      let first_ids = add_node-ids_of ids block picture type center edges now here drawn added in
      let rest_ids = all_nodes-ids_of ids centers blocks now more end_picture rest drawn' added' in
      let same_links : links ≡ here ++ rest =
        ap (λ (p : Value Real × List (Bytes × Bytes)). p.1) (sym (same_ok h5)) in
      rw (same_links, ← same_ok e2) (ids_of-append ids here rest edges more first_ids rest_ids)
