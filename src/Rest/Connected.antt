-- ===== src/Rest/Connected.antt =====
-- The connections behind the blocks, in the picture of ui/rest/nodesHandler.cpp.
use skweltch.Prelude.{◌≡◌, refl, ap, ◌∙◌, Bytes, codes, List, [], ◌∷◌, ◌++◌}
use skweltch.Json.{Value, str, array, object, Array, end_array, item, end_object, pair, LexicalCast}
use skweltch.Json.JsonObject.{add, push_back, push_item}
use skweltch.Rest.{links_array, with_links}
use skweltch.Rest.Shown.{object_of}

module _ {Real : Type 0} where
  -- An object with the two names for each connection, in their order.
  abbrev pub connections_shown : List (Bytes × Bytes) → Array Real
  connections_shown [] = end_array
  connections_shown ((here, there) ∷ links) =
      item (object (pair (codes "from") (str here) (pair (codes "to") (str there) end_object)))
        (connections_shown links)

  -- The entries, and behind them the connections if there are any.
  abbrev pub picture_shown : List (Bytes × Value Real) → List (Bytes × Bytes) → Value Real
  picture_shown entries [] = object (object_of entries)
  picture_shown entries (link ∷ links) = object (
      object_of (entries ++ ((codes "connections", array (connections_shown (link ∷ links))) ∷ [])))

  append_array : Array Real → Array Real → Array Real
  append_array end_array b = b
  append_array (item v a) b = item v (append_array a b)

  append_array-push_item :
      (a : Array Real) (v : Value Real) (b : Array Real)
      → append_array (push_item a v) b ≡ append_array a (item v b)
  unfolding push_item append_array
  append_array-push_item end_array v b = refl
  append_array-push_item (item w a) v b = ap (item w) (append_array-push_item a v b)

  append_array-end : (a : Array Real) → a ≡ append_array a end_array
  unfolding append_array
  append_array-end end_array = refl
  append_array-end (item v a) = ap (item v) (append_array-end a)

  push_back-object_of :
      (entries : List (Bytes × Value Real)) (name : Bytes) (v : Value Real)
      → push_back (object_of entries) name v ≡ object_of (entries ++ ((name, v) ∷ []))
  unfolding push_back
  push_back-object_of [] name v = refl
  push_back-object_of ((key, w) ∷ entries) name v =
      ap (pair key w) (push_back-object_of entries name v)

  module _ (cast : LexicalCast Real) (split_path : Bytes → List Bytes) where
    links_array-shown :
        (links : List (Bytes × Bytes)) (a : Array Real)
        → links_array cast split_path links a ≡ append_array a (connections_shown links)
    unfolding add push_back
    links_array-shown [] a = append_array-end a
    links_array-shown ((here, there) ∷ links) a =
        links_array-shown links _
        ∙ append_array-push_item a
            (object (pair (codes "from") (str here) (pair (codes "to") (str there) end_object)))
            (connections_shown links)

    pub with_links-shown :
        (links : List (Bytes × Bytes)) (entries : List (Bytes × Value Real))
        → with_links cast split_path links (object (object_of entries))
          ≡ picture_shown entries links
    unfolding add append_array
    with_links-shown [] entries = refl
    with_links-shown (link ∷ links) entries =
        ap
          (λ (a : Array Real).
            object (push_back (object_of entries) (codes "connections") (array a)))
          (links_array-shown (link ∷ links) end_array)
        ∙ ap object (
            push_back-object_of entries (codes "connections")
              (array (connections_shown (link ∷ links))))
