-- ===== src/Rest/Shown.antt =====
-- What the picture of ui/rest/nodesHandler.cpp shows of each block.
use skweltch.Prelude.{
  ℕ, suc, ◌≡◌, refl, ap, sym, ◌∙◌, Bytes, codes, List, [], ◌∷◌, ℤ, pos, negsuc, zero, some,
  get_elem?, Option-cases, inl, inr, if◌then◌else◌,
}
use skweltch.Result.{ok, >>=-ok, same_ok}
use skweltch.Json.{Value, null, int, str, object, Object, end_object, pair, LexicalCast}
use skweltch.Json.JsonObject.{get_string, get_int, add, push_back}
use skweltch.Rest.{Ids, id_at, connections_of, links_from, add_node, add_rect, center_at, all_nodes}
use skweltch.Vent.{is_positive}

module _ {Real : Type 0} where
  -- Left, top, width and height of a block whose center is given.
  abbrev pub shown_rect : ℤ × ℤ → Value Real
  shown_rect (x, y) = object (
      pair (codes "left") (int x) (
        pair (codes "top") (int y) (
          pair (codes "width") (int (pos 100)) (pair (codes "height") (int (pos 100)) end_object))))

  -- Its type, its count if that is positive, and its rectangle.
  abbrev pub shown_info : Bytes → ℤ → ℤ × ℤ → Value Real
  shown_info type (pos (suc n)) center = object (
      pair (codes "type") (str type) (
        pair (codes "count") (int (pos (suc n)))
          (pair (codes "rect") (shown_rect center) end_object)))
  shown_info type (pos zero) center =
      object (pair (codes "type") (str type) (pair (codes "rect") (shown_rect center) end_object))
  shown_info type (negsuc n) center =
      object (pair (codes "type") (str type) (pair (codes "rect") (shown_rect center) end_object))

  -- One entry for each block, in their order: its name, and what is said above, with the center that
  -- has been laid out for the id of the name.
  abbrev pub Shows :
      Ids → List (ℤ × ℤ) → List (Value Real × Bytes) → List (Bytes × Value Real) → Type 0
  Shows ids centers [] [] = Unit
  Shows ids centers [] (entry ∷ entries) = ⊥
  Shows ids centers (block ∷ blocks) [] = ⊥
  Shows ids centers ((block, type) ∷ blocks) ((name, info) ∷ entries) =
      (get_string block (codes "name") ≡ ok name)
      × ((count : ℤ) × (id : ℕ) × (center : ℤ × ℤ) × (get_int block (codes "count") (pos 0)
            ≡ ok count)
          × (id_at ids name ≡ ok id)
          × (get_elem? centers id ≡ some center)
          × (info ≡ shown_info type count center))
      × Shows ids centers blocks entries

  abbrev pub object_of : List (Bytes × Value Real) → Object Real
  object_of [] = end_object
  object_of ((name, info) ∷ entries) = pair name info (object_of entries)

  -- An object with more entries behind its own; no value yet is an object without one.
  abbrev pub with_entries : Value Real → List (Bytes × Value Real) → Value Real
  with_entries v [] = v
  with_entries v ((name, info) ∷ entries) = with_entries (add name info v) entries

  append_object : Object Real → Object Real → Object Real
  append_object end_object p = p
  append_object (pair k v o) p = pair k v (append_object o p)

  append_object-push_back :
      (o : Object Real) (name : Bytes) (v : Value Real) (p : Object Real)
      → append_object (push_back o name v) p ≡ append_object o (pair name v p)
  unfolding push_back append_object
  append_object-push_back end_object name v p = refl
  append_object-push_back (pair k w o) name v p = ap (pair k w) (append_object-push_back o name v p)

  append_object-end : (o : Object Real) → o ≡ append_object o end_object
  unfolding append_object
  append_object-end end_object = refl
  append_object-end (pair k v o) = ap (pair k v) (append_object-end o)

  with_entries-object :
      (o : Object Real) (entries : List (Bytes × Value Real))
      → with_entries (object o) entries ≡ object (append_object o (object_of entries))
  unfolding add
  with_entries-object o [] = ap object (append_object-end o)
  with_entries-object o ((name, info) ∷ entries) =
      with_entries-object (push_back o name info) entries
      ∙ ap object (append_object-push_back o name info (object_of entries))

  -- A picture that is begun with an entry has the entries and no others.
  with_entries-null :
      (entry : Bytes × Value Real) (entries : List (Bytes × Value Real))
      → with_entries null (entry ∷ entries) ≡ object (object_of (entry ∷ entries))
  unfolding add push_back append_object
  with_entries-null (name, info) entries = with_entries-object (pair name info end_object) entries

  pub Shows-with_entries :
      (ids : Ids) (centers : List (ℤ × ℤ)) (block : Value Real × Bytes)
      (blocks : List (Value Real × Bytes)) (entries : List (Bytes × Value Real))
      → Shows ids centers (block ∷ blocks) entries
      → with_entries null entries ≡ object (object_of entries)
  Shows-with_entries ids centers block blocks [] shown = absurd shown
  Shows-with_entries ids centers block blocks (entry ∷ entries) shown =
      with_entries-null entry entries

  module _ (cast : LexicalCast Real) (split_path : Bytes → List Bytes) where
    center_at-some :
        (centers : List (ℤ × ℤ)) (id : ℕ) (center : ℤ × ℤ)
        → center_at cast split_path centers id ≡ ok center
        → get_elem? centers id ≡ some center
    center_at-some centers id center e = elim (Option-cases (get_elem? centers id)) [
      | inl nothing ↦ absurd (cc (rw (center_at, nothing) at e))
      | inr (c, there) ↦ there ∙ ap some (same_ok (rw (center_at, there) at e))
    ]

    add_rect-shown :
        (type : Bytes) (count : ℤ) (center : ℤ × ℤ)
        → (let typed = add (codes "type") (str type) null in
            add_rect cast split_path center
              (if is_positive count then add (codes "count") (int count) typed else typed))
          ≡ shown_info type count center
    unfolding add push_back
    add_rect-shown type (pos zero) center = refl
    add_rect-shown type (pos (suc n)) center = refl
    add_rect-shown type (negsuc n) center = refl

    -- The entry for a block.
    add_node-entry :
        (picture block : Value Real) (type : Bytes) (center : ℤ × ℤ) (now : Value Real)
        (links : List (Bytes × Bytes)) (name : Bytes)
        → get_string block (codes "name") ≡ ok name
        → add_node cast split_path picture block type center ≡ ok (now, links)
        → (count : ℤ) × (get_int block (codes "count") (pos 0) ≡ ok count)
          × (now ≡ add name (shown_info type count center) picture)
    unfolding add_node
    add_node-entry picture block type center now links name named h =
        let (name', named', h1) = >>=-ok (get_string block (codes "name")) _ h in
        let (count, counted, h2) = >>=-ok (get_int block (codes "count") (pos 0)) _ h1 in
        let (o, found, h3) = >>=-ok (connections_of cast split_path block) _ h2 in
        let (rest, linked, h4) = >>=-ok (links_from cast split_path name' o) _ h3 in
        let same_name : name' ≡ name = same_ok (sym named' ∙ named) in
        let same_now = ap (λ (p : Value Real × List (Bytes × Bytes)). p.0) (sym (same_ok h4)) in
        (
          count,
          counted,
          same_now
              ∙ rw same_name (
                  ap (λ (info : Value Real). add name info picture)
                    (add_rect-shown type count center)),
        )

    -- Each block is shown, behind what the picture has.
    pub all_nodes-Shows :
        (ids : Ids) (centers : List (ℤ × ℤ)) (blocks : List (Value Real × Bytes))
        (picture last : Value Real) (links : List (Bytes × Bytes))
        → all_nodes cast split_path ids centers blocks picture ≡ ok (last, links)
        → (entries : List (Bytes × Value Real)) × Shows ids centers blocks entries
          × (last ≡ with_entries picture entries)
    unfolding all_nodes
    all_nodes-Shows ids centers [] picture last links h =
        ([], tt, ap (λ (p : Value Real × List (Bytes × Bytes)). p.0) (sym (same_ok h)))
    all_nodes-Shows ids centers ((block, type) ∷ blocks) picture last links h =
        let (name, named, h1) = >>=-ok (get_string block (codes "name")) _ h in
        let (id, found, h2) = >>=-ok (id_at ids name) _ h1 in
        let (center, placed, h3) = >>=-ok (center_at cast split_path centers id) _ h2 in
        let ((now, here), added, h4) =
          >>=-ok (add_node cast split_path picture block type center) _ h3 in
        let ((end_picture, rest), added', h5) =
          >>=-ok (all_nodes cast split_path ids centers blocks now) _ h4 in
        let (count, counted, grown) =
          add_node-entry picture block type center now here name named added in
        let (entries, shown, later) =
          all_nodes-Shows ids centers blocks now end_picture rest added' in
        let same_last : last ≡ end_picture =
          ap (λ (p : Value Real × List (Bytes × Bytes)). p.0) (sym (same_ok h5)) in
        (
          (name, shown_info type count center) ∷ entries,
          (
            named,
            (count, id, center, counted, found, center_at-some centers id center placed, refl),
            shown,
          ),
          same_last ∙ later ∙ ap (λ (v : Value Real). with_entries v entries) grown,
        )
