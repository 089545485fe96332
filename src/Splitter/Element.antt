-- ===== src/Splitter/Element.antt =====
-- A whole matched element: its text is handed over as one chunk, and the splitter is where it was.
use native.Mathlib.Numerals.{sub-one}
use skweltch.Xml.{Event}
use skweltch.Prelude.{
  suc, ◌-◌, ◌≡◌, refl, sym, ap, ◌∙◌, Bool, true, false, some, List, [], ◌∷◌, ◌++◌, Bytes, equal,
  equal_iff, ltb, if◌then◌else◌, length, get_elem?, arith, append_assoc,
}
use skweltch.Xml.Document.{
  opening, closing, Node, render_attrs, render_tag, render, tag_events, text_events, events,
}
use skweltch.Xml.RoundTrip.{tell_all-append, render-append, render_attrs-append}
use skweltch.Splitter.{Chunk, Splitter, is_at, on_start, on_match, on_end, splitter}
use skweltch.Splitter.Chunks.{AllInner, Inside, told, add, told_text, told_attrs, told_nodes}

-- An element: its attributes, the nodes inside of it, and the text before its end tag.
pub record Element : Type 0 where
  pub attrs : List Bytes
  pub inner : List Node
  pub rest : Bytes

abbrev pub last_node : Bytes → Element → List Node
last_node leaf e = record { before = e.rest; tag = closing leaf } ∷ []

-- The element `leaf`, behind the text `gap`.
abbrev pub element_nodes : Bytes → Bytes → Element → List Node
element_nodes leaf gap e =
    record { before = gap; tag = opening leaf e.attrs } ∷ (e.inner ++ last_node leaf e)

abbrev pub element_text : Bytes → Element → Bytes
element_text leaf e = render (element_nodes leaf [] e) []

pub events-append : (ns ms : List Node) → events (ns ++ ms) ≡ events ns ++ events ms
events-append [] ms = refl
events-append (n ∷ ns) ms = simp (append_assoc, events-append ns ms)

render-render :
    (ns ms : List Node) (rest : Bytes) → render (ns ++ ms) rest ≡ render ns (render ms rest)
render-render [] ms rest = refl
render-render (n ∷ ns) ms rest =
    ap (λ (c : Bytes). n.before ++ render_tag n.tag c) (render-render ns ms rest)

render-nodes : (ns ms : List Node) → render (ns ++ ms) [] ≡ render ns [] ++ render ms []
render-nodes ns ms = render-render ns ms [] ∙ sym (render-append ns [] (render ms []))

module _ {T : Type 0} (ch : Chunk T) (leaf : Bytes) where
  -- The splitter is one step above the end of its path, and `leaf` is that step.
  pub record Before (p : Splitter T) : Type 0 where
    pub depth : suc p.spos ≡ length p.stack
    pub at_leaf : get_elem? p.stack p.spos ≡ some leaf

  -- The chunk is handed over; if the receiver goes on, so does the splitter, one step up again.
  abbrev pub hand_over : Bytes → Splitter T → (Splitter T → Splitter T × Bool) → Splitter T × Bool
  hand_over text p k =
      let (t, more) = ch text p.out in
      let goes = k (record p { chunk = text; out = t }) in
      if more then goes else (record p { spos = suc p.spos; chunk = text; out = t }, false)

  equal_self : (s : Bytes) → equal s s ≡ true
  equal_self s = (equal_iff s s).1 refl

  on_start_match :
      (p : Splitter T)
      → Before p
      → on_start leaf p ≡ record p { spos = suc p.spos; chunk = b'<' ∷ leaf }
  unfolding on_start is_at
  on_start_match p v =
      let deep : ltb p.spos (length p.stack) ≡ true = ground arith in
      let here : is_at p.stack p.spos leaf ≡ true = rw (v.at_leaf, is_at) (equal_self leaf) in
      rw (deep, here) (ground arith)

  on_end_match :
      (p : Splitter T) (text : Bytes) (k : Splitter T → Splitter T × Bool)
      → Before p
      → told ch leaf (tag_events (closing leaf)) (record p { spos = suc p.spos; chunk = text }) k
        ≡ hand_over (text ++ (b'<' ∷ b'/' ∷ (leaf ++ b'>' ∷ []))) p k
  unfolding splitter on_end is_at on_match
  on_end_match p text k v =
      let here : is_at p.stack p.spos leaf ≡ true = rw (v.at_leaf, is_at) (equal_self leaf) in
      let back : suc p.spos - 1 ≡ p.spos = omega arith in rw (back, here) (ground arith)

  told_start :
      (attrs : List Bytes) (p : Splitter T) (k : Splitter T → Splitter T × Bool)
      → Before p
      → told ch leaf (tag_events (opening leaf attrs)) p k
        ≡ k (record p { spos = suc p.spos; chunk = (b'<' ∷ leaf) ++ render_attrs attrs [] })
  unfolding splitter
  told_start attrs p k v =
      rw (on_start_match p v)
        (told_attrs ch leaf attrs (record p { spos = suc p.spos; chunk = b'<' ∷ leaf }) k)

  -- What is in the chunk after the start tag, the inner nodes and the text before the end tag, and
  -- the end tag itself, is the text of the element.
  element_text-parts :
      (e : Element)
      → ((((b'<' ∷ leaf) ++ render_attrs e.attrs []) ++ render e.inner []) ++ e.rest)
          ++ (b'<' ∷ b'/' ∷ (leaf ++ b'>' ∷ []))
        ≡ element_text leaf e
  element_text-parts e =
      let attrs = render_attrs e.attrs [] in
      simp append_assoc (
        ap (λ (c : Bytes). b'<' ∷ (leaf ++ c))
          (ap (◌++◌ attrs) (sym (render-nodes e.inner (last_node leaf e)))
            ∙ render_attrs-append e.attrs [] (render (e.inner ++ last_node leaf e) [])))

  -- An element at the end of the path, with whatever inside of it, is handed over as its text, in one
  -- piece and without the text before it.
  pub told_element :
      (gap : Bytes) (e : Element) (p : Splitter T) (k : Splitter T → Splitter T × Bool)
      → Before p
      → AllInner leaf e.inner
      → told ch leaf (events (element_nodes leaf gap e)) p k ≡ hand_over (element_text leaf e) p k
  told_element gap e p k v h =
      let start = b'<' ∷ leaf in
      let opened = start ++ render_attrs e.attrs [] in
      let full = opened ++ render e.inner [] in
      let deeper =
        λ (c : Bytes). let q : Splitter T = record p { spos = suc p.spos; chunk = c } in q in
      let more = events (e.inner ++ last_node leaf e) in
      let inside : Inside ch leaf (deeper opened) = record {
        deep = v.depth;
        some_depth = omega arith;
        at_leaf = rw (sub-one (suc p.spos)) v.at_leaf;
      } in
      tell_all-append (splitter ch) (text_events gap) (tag_events (opening leaf e.attrs) ++ more) p
        k
      ∙ told_text ch leaf gap p (λ q. told ch leaf (tag_events (opening leaf e.attrs) ++ more) q k)
      ∙ tell_all-append (splitter ch) (tag_events (opening leaf e.attrs)) more (add ch leaf gap p) k
      ∙ told_start e.attrs (add ch leaf gap p) (λ q. told ch leaf more q k)
          (record { depth = v.depth; at_leaf = v.at_leaf })
      ∙ ap (λ (es : List Event). told ch leaf es (deeper opened) k)
          (events-append e.inner (last_node leaf e))
      ∙ tell_all-append (splitter ch) (events e.inner) (events (last_node leaf e)) (deeper opened) k
      ∙ told_nodes ch leaf e.inner (deeper opened)
          (λ q. told ch leaf (events (last_node leaf e)) q k) inside h
      ∙ tell_all-append (splitter ch) (text_events e.rest) (tag_events (closing leaf)) (deeper full)
          k
      ∙ told_text ch leaf e.rest (deeper full) (λ q. told ch leaf (tag_events (closing leaf)) q k)
      ∙ on_end_match p (full ++ e.rest) k v
      ∙ ap (λ (t : Bytes). hand_over t p k) (element_text-parts e)
