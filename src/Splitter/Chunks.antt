-- ===== src/Splitter/Chunks.antt =====
-- The chunk of a matched element is its own text.
use skweltch.Prelude.{
  ◌-◌, ◌<◌, ◌≡◌, ◌≢◌, inl, inr, refl, sym, ap, ◌∙◌, Bool, true, false, some, List, [], ◌∷◌, ◌++◌,
  Bytes, All, equal, equal_iff, ltb, length, get_elem?, arith, Bool-cases, append-nil, append_assoc,
}
use skweltch.Xml.{Event}
use skweltch.Xml.Document.{
  Tag, instruction, opening, closing, Node, render_attrs, render_tag, render, attr_events,
  tag_events, text_events, events, tell_all,
}
use skweltch.Xml.RoundTrip.{tell_all-append, render_tag-append}
use skweltch.Splitter.{Chunk, Splitter, is_at, on_start, on_end, splitter}

-- What may stand inside of a matched element `leaf`: no processing instruction, which the chunk would
-- leave out, and no end tag of that name, which would be taken for the element's own.
abbrev pub IsInner : Bytes → Tag → Type 0
IsInner leaf (instruction s) = ⊥
IsInner leaf (opening name attrs) = Unit
IsInner leaf (closing name) = name ≢ leaf

abbrev pub AllInner : Bytes → List Node → Type 0
AllInner leaf = All (λ n. IsInner leaf n.tag)

module _ {T : Type 0} (ch : Chunk T) (leaf : Bytes) where
  -- Inside of the element the splitter is at the end of its path, which is `leaf`.
  pub record Inside (p : Splitter T) : Type 0 where
    pub deep : p.spos ≡ length p.stack
    pub some_depth : 0 < p.spos
    pub at_leaf : get_elem? p.stack (p.spos - 1) ≡ some leaf

  abbrev pub add : Bytes → Splitter T → Splitter T
  add s p = record p { chunk = p.chunk ++ s }

  abbrev pub told : List Event → Splitter T → (Splitter T → Splitter T × Bool) → Splitter T × Bool
  told = tell_all (splitter ch)

  add-add : (p : Splitter T) (s t : Bytes) → add t (add s p) ≡ add (s ++ t) p
  add-add p s t = ap (λ (c : Bytes). record p { chunk = c }) (append_assoc p.chunk s t)

  pub told_text :
      (t : Bytes) (p : Splitter T) (k : Splitter T → Splitter T × Bool)
      → told (text_events t) p k ≡ k (add t p)
  unfolding splitter
  told_text [] p k = ap (λ (c : Bytes). k (record p { chunk = c })) (sym (append-nil p.chunk))
  told_text (c ∷ t) p k = refl

  pub told_attrs :
      (attrs : List Bytes) (p : Splitter T) (k : Splitter T → Splitter T × Bool)
      → told (attr_events attrs) p k ≡ k (add (render_attrs attrs []) p)
  unfolding splitter
  told_attrs [] p k = refl
  told_attrs (a ∷ attrs) p k =
      told_attrs attrs (add (b' ' ∷ a) p) k ∙ ap k (add-add p (b' ' ∷ a) (render_attrs attrs []))

  on_start-Inside :
      (name : Bytes) (p : Splitter T) → Inside p → on_start name p ≡ add (b'<' ∷ name) p
  unfolding on_start
  on_start-Inside name p v =
      let deep : ltb p.spos (length p.stack) ≡ false = ground arith in rw deep

  on_end-Inside :
      (name : Bytes) (p : Splitter T)
      → Inside p
      → name ≢ leaf
      → on_end ch name p ≡ (add (b'<' ∷ b'/' ∷ (name ++ b'>' ∷ [])) p, true)
  unfolding on_end is_at
  on_end-Inside name p v h =
      let other : equal name leaf ≡ false = elim (Bool-cases (equal name leaf)) [
        | inl e ↦ absurd (h ((equal_iff name leaf).0 e))
        | inr e ↦ e
      ] in
      let missed : is_at p.stack (p.spos - 1) name ≡ false = rw (v.at_leaf, is_at) other in
      rw missed (ground arith)

  told_tag :
      (g : Tag) (p : Splitter T) (k : Splitter T → Splitter T × Bool)
      → Inside p
      → IsInner leaf g
      → told (tag_events g) p k ≡ k (add (render_tag g []) p)
  unfolding splitter
  told_tag (instruction s) p k v h = absurd h
  told_tag (opening name attrs) p k v h = rw (on_start-Inside name p v) (
      told_attrs attrs (add (b'<' ∷ name) p) k
      ∙ ap k (add-add p (b'<' ∷ name) (render_attrs attrs [])))
  told_tag (closing name) p k v h = rw (on_end-Inside name p v h)

  -- Everything inside of the element goes into its chunk.
  pub told_nodes :
      (ns : List Node) (p : Splitter T) (k : Splitter T → Splitter T × Bool)
      → Inside p
      → AllInner leaf ns
      → told (events ns) p k ≡ k (add (render ns []) p)
  told_nodes [] p k v h = ap (λ (c : Bytes). k (record p { chunk = c })) (sym (append-nil p.chunk))
  told_nodes (n ∷ ns) p k v h =
      let inside = λ (s : Bytes).
        let i : Inside (add s p) = record {
          deep = v.deep;
          some_depth = v.some_depth;
          at_leaf = v.at_leaf;
        } in
        i in
      let p1 = add n.before p in
      let p2 = add (render_tag n.tag []) p1 in
      tell_all-append (splitter ch) (text_events n.before) (tag_events n.tag ++ events ns) p k
      ∙ told_text n.before p (λ q. told (tag_events n.tag ++ events ns) q k)
      ∙ tell_all-append (splitter ch) (tag_events n.tag) (events ns) p1 k
      ∙ told_tag n.tag p1 (λ q. told (events ns) q k) (inside n.before) h.0
      ∙ told_nodes ns p2 k
          (record { deep = v.deep; some_depth = v.some_depth; at_leaf = v.at_leaf }) h.1
      ∙ ap (λ (c : Bytes). k (record p { chunk = c }))
          (append_assoc (p.chunk ++ n.before) (render_tag n.tag []) (render ns [])
            ∙ append_assoc p.chunk n.before (render_tag n.tag [] ++ render ns [])
            ∙ ap (λ (c : Bytes). p.chunk ++ (n.before ++ c))
                (render_tag-append n.tag [] (render ns [])))
