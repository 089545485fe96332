-- ===== src/Splitter/Whole.antt =====
-- A whole document through the splitter: the elements inside of those of the path.
use skweltch.Prelude.{
  ℕ, suc, ◌-◌, ◌<◌, ◌≡◌, refl, ap, ◌∙◌, Bool, true, false, some, List, [], ◌∷◌, ◌++◌, Bytes,
  equal_iff, ltb, ◌==◌, length, get_elem?, arith, All,
}
use skweltch.Xml.{Event, outside}
use skweltch.Xml.Document.{
  opening, closing, Node, render, render_attrs, tag_events, text_events, events, IsDocument,
  IsPlain,
}
use skweltch.Xml.RoundTrip.{tell_all-append, process-render}
use skweltch.Splitter.{
  Chunk, Splitter, initial, is_at, on_start, on_match, on_end, splitter, split_process,
}
use skweltch.Splitter.Chunks.{AllInner, told, add, told_text, told_attrs}
use skweltch.Splitter.Element.{events-append}
use skweltch.Splitter.Elements.{Placed, elements_nodes, deliver, texts, Passes, told_elements}

-- An element of the path but for its last: the text before it, its attributes, and the text before
-- its end tag.
pub record Parent : Type 0 where
  pub name : Bytes
  pub gap : Bytes
  pub attrs : List Bytes
  pub rest : Bytes

abbrev pub wrap : List Parent → List Node → List Node
wrap [] ns = ns
wrap (r ∷ rs) ns =
    record { before = r.gap; tag = opening r.name r.attrs }
    ∷ (wrap rs ns ++ record { before = r.rest; tag = closing r.name } ∷ [])

abbrev pub path_of : List Parent → Bytes → List Bytes
path_of [] leaf = leaf ∷ []
path_of (r ∷ rs) leaf = r.name ∷ path_of rs leaf

module _ (leaf : Bytes) where
  -- From place `i` on the path has the names of the parents and the leaf.
  abbrev Below : List Bytes → ℕ → List Parent → Type 0
  Below stack i [] = (suc i ≡ length stack) × (get_elem? stack i ≡ some leaf)
  Below stack i (r ∷ rs) = (get_elem? stack i ≡ some r.name) × Below stack (suc i) rs

  Below-lt : (rs : List Parent) (stack : List Bytes) (i : ℕ) → Below stack i rs → i < length stack
  Below-lt [] stack i h = omega (arith, h.0)
  Below-lt (r ∷ rs) stack i h = omega (arith, Below-lt rs stack (suc i) h.1)

  Below-cons :
      (rs : List Parent) (s : Bytes) (stack : List Bytes) (i : ℕ)
      → Below stack i rs
      → Below (s ∷ stack) (suc i) rs
  Below-cons [] s stack i h = (omega (arith, h.0), h.1)
  Below-cons (r ∷ rs) s stack i h = (h.0, Below-cons rs s stack (suc i) h.1)

  Below-path_of : (rs : List Parent) → Below (path_of rs leaf) 0 rs
  Below-path_of [] = (omega arith, refl)
  Below-path_of (r ∷ rs) = (refl, Below-cons rs r.name (path_of rs leaf) 0 (Below-path_of rs))

module _ {T : Type 0} (ch : Chunk T) (leaf : Bytes) where
  is_at-here :
      (r : Parent) (stack : List Bytes) (i : ℕ)
      → get_elem? stack i ≡ some r.name
      → is_at stack i r.name ≡ true
  unfolding is_at
  is_at-here r stack i here = rw (is_at, here) ((equal_iff r.name r.name).1 refl)

  on_start-here :
      (r : Parent) (p : Splitter T)
      → get_elem? p.stack p.spos ≡ some r.name
      → p.spos < length p.stack
      → on_start r.name p ≡ record p { spos = suc p.spos; chunk = b'<' ∷ r.name }
  unfolding on_start
  on_start-here r p here h =
      let deep : ltb p.spos (length p.stack) ≡ true = ground arith in
      rw (deep, is_at-here r p.stack p.spos here) (ground arith)

  -- The start tag of a parent.
  told_open :
      (r : Parent) (p : Splitter T) (k : Splitter T → Splitter T × Bool)
      → get_elem? p.stack p.spos ≡ some r.name
      → p.spos < length p.stack
      → told ch leaf (tag_events (opening r.name r.attrs)) p k
        ≡ k (record p { spos = suc p.spos; chunk = (b'<' ∷ r.name) ++ render_attrs r.attrs [] })
  unfolding splitter
  told_open r p k here h =
      rw (on_start-here r p here h)
        (told_attrs ch leaf r.attrs (record p { spos = suc p.spos; chunk = b'<' ∷ r.name }) k)

  -- Its end tag, one step below it.
  told_close :
      (r : Parent) (p : Splitter T) (k : Splitter T → Splitter T × Bool)
      → get_elem? p.stack p.spos ≡ some r.name
      → suc p.spos < length p.stack
      → told ch leaf (tag_events (closing r.name)) (record p { spos = suc p.spos }) k
        ≡ k (record p { chunk = p.chunk ++ (b'<' ∷ b'/' ∷ (r.name ++ b'>' ∷ [])) })
  unfolding splitter on_end on_match
  told_close r p k here h =
      let back : suc p.spos - 1 ≡ p.spos = omega arith in
      let inner : (suc p.spos == length p.stack) ≡ false = ground arith in
      rw (back, is_at-here r p.stack p.spos here, inner) (ground arith)

  -- The receiver's part of what the splitter ends with.
  abbrev EndsAs : Splitter T × Bool → T × Bool → Type 0
  EndsAs ended (t, more) = (ended.0.out ≡ t) × (ended.1 ≡ more)

  -- After a parent's end tag the splitter is where it was before its start tag.
  closes :
      (r : Parent) (p : Splitter T) (k : Splitter T → Splitter T × Bool)
      → get_elem? p.stack p.spos ≡ some r.name
      → suc p.spos < length p.stack
      → Passes ch leaf p k
      → Passes ch leaf
          (record p { spos = suc p.spos })
          (λ s. told ch leaf (events (record { before = r.rest; tag = closing r.name } ∷ [])) s k)
  closes r p k here deep pass c t =
      let s : Splitter T = record p { chunk = c; out = t } in
      let after : Splitter T = record s { chunk = c ++ r.rest } in
      let ended : told ch leaf (events (record { before = r.rest; tag = closing r.name } ∷ []))
            (record s { spos = suc s.spos }) k
          ≡ k (record after { chunk = after.chunk ++ (b'<' ∷ b'/' ∷ (r.name ++ b'>' ∷ [])) }) =
        tell_all-append (splitter ch) (text_events r.rest) (tag_events (closing r.name))
          (record s { spos = suc s.spos }) k
        ∙ told_text ch leaf r.rest (record s { spos = suc s.spos })
            (λ x. told ch leaf (tag_events (closing r.name)) x k)
        ∙ told_close r after k here deep in
      rw ended (pass (after.chunk ++ (b'<' ∷ b'/' ∷ (r.name ++ b'>' ∷ []))) t)

  told-wrap :
      (rs : List Parent) (es : List Placed) (p : Splitter T) (k : Splitter T → Splitter T × Bool)
      → Below leaf p.stack p.spos rs
      → All (λ e. AllInner leaf e.elem.inner) es
      → Passes ch leaf p k
      → EndsAs
          (told ch leaf (events (wrap rs (elements_nodes leaf es))) p k)
          (deliver ch (texts leaf es) p.out)
  told-wrap [] es p k below h pass =
      told_elements ch leaf es p k (record { depth = below.0; at_leaf = below.1 }) h pass
  told-wrap (r ∷ rs) es p k below h pass =
      let inner = wrap rs (elements_nodes leaf es) in
      let close : List Node = record { before = r.rest; tag = closing r.name } ∷ [] in
      let opened = (b'<' ∷ r.name) ++ render_attrs r.attrs [] in
      let q : Splitter T = record (add ch leaf r.gap p) { spos = suc p.spos; chunk = opened } in
      let deep = Below-lt leaf rs p.stack (suc p.spos) below.1 in
      let more = events (inner ++ close) in
      let begun : told ch leaf (events (wrap (r ∷ rs) (elements_nodes leaf es))) p k
          ≡ told ch leaf (events inner) q (λ s. told ch leaf (events close) s k) =
        tell_all-append (splitter ch) (text_events r.gap)
          (tag_events (opening r.name r.attrs) ++ more) p k
        ∙ told_text ch leaf r.gap p
            (λ s. told ch leaf (tag_events (opening r.name r.attrs) ++ more) s k)
        ∙ tell_all-append (splitter ch) (tag_events (opening r.name r.attrs)) more
            (add ch leaf r.gap p) k
        ∙ told_open r (add ch leaf r.gap p) (λ s. told ch leaf more s k) below.0
            (omega (arith, deep))
        ∙ ap (λ (x : List Event). told ch leaf x q k) (events-append inner close)
        ∙ tell_all-append (splitter ch) (events inner) (events close) q k in
      rw begun (
        told-wrap rs es q (λ s. told ch leaf (events close) s k) below.1 h
          (closes r p k below.0 deep pass))

  -- A document in which the elements of a path stand in one another, and inside of the last but one any
  -- number of elements of the path's last name: the receiver is given the text of each of these, in
  -- their order, up to the first at which it stops, and `process` returns whether it went on. The
  -- document is a simple one, and inside of such an element there is no processing instruction and no
  -- end tag of its own name.
  pub split_process-wrap :
      (split : Bytes → List Bytes) (xpath trailing : Bytes) (rs : List Parent) (es : List Placed)
      (out : T)
      → split xpath ≡ path_of rs leaf
      → IsDocument (wrap rs (elements_nodes leaf es))
      → IsPlain outside trailing
      → All (λ e. AllInner leaf e.elem.inner) es
      → ((split_process ch split xpath
            (render (wrap rs (elements_nodes leaf es)) trailing)
            out).0.out
          ≡ (deliver ch (texts leaf es) out).0)
        × ((split_process ch split xpath (render (wrap rs (elements_nodes leaf es)) trailing) out).1
            ≡ (deliver ch (texts leaf es) out).1)
  unfolding split_process
  split_process-wrap split xpath trailing rs es out parts document plain_end h =
      let p : Splitter T = initial (path_of rs leaf) out in
      rw
        (
          parts,
          process-render (splitter ch) (wrap rs (elements_nodes leaf es)) trailing p document
              plain_end,
        )
        (told-wrap rs es p (λ s. (s, true)) (Below-path_of leaf rs) h (λ c t. (refl, refl)))
