-- ===== src/Xml/RoundTrip.antt =====
-- The parser tells an element exactly the events of the document that it reads.
use mathlib.Core.Path.{fun_ext}
use skweltch.Prelude.{
  ℕ, ◌≡◌, refl, sym, ap, ◌∙◌, Bool, true, false, List, [], ◌∷◌, ◌++◌, Bytes, All, append-nil,
  append_assoc, arith,
}
use skweltch.Xml.{
  Event, pi, start_tag, attr, end_attr, end_tag, XmlElement, State, outside, in_pi, in_tag, in_attr,
  Parser, goes_on, initial, is_end, step, run, finish, process,
}
use skweltch.Xml.Document.{
  Tag, instruction, opening, closing, Node, render_attrs, render_tag, render, attr_events,
  tag_events, text_events, events, IsPlain, IsTag, IsDocument, is_plain, tell_all,
}

pub render_attrs-append :
    (more : List Bytes) (rest ys : Bytes)
    → render_attrs more rest ++ ys ≡ render_attrs more (rest ++ ys)
render_attrs-append [] rest ys = refl
render_attrs-append (a ∷ more) rest ys = simp (append_assoc, render_attrs-append more rest ys)

pub render_tag-append :
    (g : Tag) (rest ys : Bytes) → render_tag g rest ++ ys ≡ render_tag g (rest ++ ys)
render_tag-append (instruction s) rest ys = simp append_assoc
render_tag-append (opening name attrs) rest ys =
    simp (append_assoc, render_attrs-append attrs rest ys)
render_tag-append (closing name) rest ys = simp append_assoc

pub render-append :
    (ns : List Node) (rest ys : Bytes) → render ns rest ++ ys ≡ render ns (rest ++ ys)
render-append [] rest ys = refl
render-append (n ∷ ns) rest ys =
    append_assoc n.before (render_tag n.tag (render ns rest)) ys
    ∙ ap (◌++◌ n.before) (
        render_tag-append n.tag (render ns rest) ys
        ∙ ap (render_tag n.tag) (render-append ns rest ys))

module _ {S : Type 0} (tell : XmlElement S) where
  -- The rest of the input from a state of the parser.
  abbrev after : Bytes → Parser S → S × Bool
  after cs p = finish tell (run tell cs p)

  abbrev at : State → S → Parser S
  at st e = record { state = st; text = []; elem = e }

  step-plain :
      (st : State) (c : ℕ) (p : Parser S)
      → p.state ≡ st
      → is_plain st c ≡ true
      → step tell c p ≡ goes_on (record p { text = p.text ++ c ∷ [] })
  unfolding step
  step-plain outside c p e h = ground arith
  step-plain _ c p e h = ground arith

  run-cons :
      (c : ℕ) (cs : Bytes) (p q : Parser S)
      → step tell c p ≡ goes_on q
      → run tell (c ∷ cs) p ≡ run tell cs q
  unfolding run
  run-cons c cs p q e = rw (e, run)

  -- Plain characters are collected.
  run-plain :
      (st : State) (t rest : Bytes) (p : Parser S)
      → p.state ≡ st
      → IsPlain st t
      → run tell (t ++ rest) p ≡ run tell rest (record p { text = p.text ++ t })
  run-plain st [] rest p e h = rw append-nil
  run-plain st (c ∷ t) rest p e h =
      run-cons c (t ++ rest) p (record p { text = p.text ++ c ∷ [] }) (step-plain st c p e h.0)
      ∙ run-plain st t rest (record p { text = p.text ++ c ∷ [] }) e h.1
      ∙ rw append_assoc

  abbrev within : State → Bytes → S → Parser S
  within st t e = record { state = st; text = t; elem = e }

  -- What the parser does at each of the characters that mean something.
  after-open :
      (t rest : Bytes) (e : S)
      → after (b'<' ∷ rest) (within outside t e)
        ≡ tell_all tell (text_events t) e (λ s. after rest (at in_tag s))
  unfolding run step finish
  after-open [] rest e = refl
  after-open (c ∷ t) rest e = ground arith

  after-question :
      (rest : Bytes) (e : S) → after (b'?' ∷ rest) (at in_tag e) ≡ after rest (at in_pi e)
  unfolding run step finish
  after-question rest e = refl

  after-pi :
      (t rest : Bytes) (e : S)
      → after (b'>' ∷ rest) (within in_pi t e)
        ≡ tell_all tell (pi t ∷ []) e (λ s. after rest (at outside s))
  unfolding run step finish
  after-pi t rest e = ground arith

  after-end_tag :
      (t rest : Bytes) (e : S)
      → after (b'>' ∷ rest) (within in_tag (b'/' ∷ t) e)
        ≡ tell_all tell (end_tag t ∷ []) e (λ s. after rest (at outside s))
  unfolding run step finish
  after-end_tag t rest e = ground arith

  after-start_tag :
      (t rest : Bytes) (e : S)
      → is_end t ≡ false
      → after (b'>' ∷ rest) (within in_tag t e)
        ≡ tell_all tell (start_tag t ∷ end_attr ∷ []) e (λ s. after rest (at outside s))
  unfolding run step finish
  after-start_tag t rest e h = ground arith

  after-space :
      (t rest : Bytes) (e : S)
      → after (b' ' ∷ rest) (within in_tag t e)
        ≡ tell_all tell (start_tag t ∷ []) e (λ s. after rest (at in_attr s))
  unfolding run step finish
  after-space t rest e = ground arith

  after-attr :
      (t rest : Bytes) (e : S)
      → after (b' ' ∷ rest) (within in_attr t e)
        ≡ tell_all tell (attr t ∷ []) e (λ s. after rest (at in_attr s))
  unfolding run step finish
  after-attr t rest e = ground arith

  after-last_attr :
      (t rest : Bytes) (e : S)
      → after (b'>' ∷ rest) (within in_attr t e)
        ≡ tell_all tell (attr t ∷ end_attr ∷ []) e (λ s. after rest (at outside s))
  unfolding run step finish
  after-last_attr t rest e = ground arith

  pub tell_all-append :
      (es fs : List Event) (e : S) (k : S → S × Bool)
      → tell_all tell (es ++ fs) e k ≡ tell_all tell es e (λ s. tell_all tell fs s k)
  tell_all-append [] fs e k = refl
  tell_all-append (x ∷ es) fs e k = ground (arith, tell_all-append es fs (tell x e).0 k)

  after-plain :
      (st : State) (t rest : Bytes) (e : S)
      → IsPlain st t
      → after (t ++ rest) (at st e) ≡ after rest (within st t e)
  after-plain st t rest e h = ap (finish tell) (run-plain st t rest (at st e) refl h)

  -- To continue in two ways that agree.
  pub tell_all-cong :
      (es : List Event) (e : S) (k k' : S → S × Bool)
      → ((s : S) → k s ≡ k' s)
      → tell_all tell es e k ≡ tell_all tell es e k'
  tell_all-cong es e k k' h = ap (tell_all tell es e) (fun_ext h)

  after-attrs :
      (more : List Bytes) (a rest : Bytes) (e : S)
      → All (IsPlain in_attr) more
      → after (render_attrs more rest) (within in_attr a e)
        ≡ tell_all tell (attr a ∷ attr_events more) e (λ s. after rest (at outside s))
  after-attrs [] a rest e h = after-last_attr a rest e
  after-attrs (b ∷ more) a rest e h =
      after-attr a (b ++ render_attrs more rest) e
      ∙ tell_all-cong (attr a ∷ []) e _ _ (λ s.
        after-plain in_attr b (render_attrs more rest) s h.0 ∙ after-attrs more b rest s h.1)

  after-opening :
      (name : Bytes) (attrs : List Bytes) (rest : Bytes) (e : S)
      → is_end name ≡ false
      → All (IsPlain in_attr) attrs
      → after (render_attrs attrs rest) (within in_tag name e)
        ≡ tell_all tell (start_tag name ∷ attr_events attrs) e (λ s. after rest (at outside s))
  after-opening name [] rest e h k = after-start_tag name rest e h
  after-opening name (b ∷ more) rest e h k =
      after-space name (b ++ render_attrs more rest) e
      ∙ tell_all-cong (start_tag name ∷ []) e _ _ (λ s.
        after-plain in_attr b (render_attrs more rest) s k.0 ∙ after-attrs more b rest s k.1)

  -- One tag, read from behind its `<`.
  after-tag :
      (g : Tag) (t rest : Bytes) (e : S)
      → IsTag g
      → after (render_tag g rest) (within outside t e)
        ≡ tell_all tell
            (text_events t)
            e
            (λ s. tell_all tell (tag_events g) s (λ s'. after rest (at outside s')))
  after-tag (instruction i) t rest e h =
      after-open t (b'?' ∷ (i ++ (b'>' ∷ rest))) e
      ∙ tell_all-cong (text_events t) e _ _ (λ s.
        after-question (i ++ (b'>' ∷ rest)) s
        ∙ after-plain in_pi i (b'>' ∷ rest) s h
        ∙ after-pi i rest s)
  after-tag (opening name attrs) t rest e h =
      after-open t (name ++ render_attrs attrs rest) e
      ∙ tell_all-cong (text_events t) e _ _ (λ s.
        after-plain in_tag name (render_attrs attrs rest) s h.0
        ∙ after-opening name attrs rest s h.1 h.2)
  after-tag (closing name) t rest e h =
      after-open t (b'/' ∷ (name ++ (b'>' ∷ rest))) e
      ∙ tell_all-cong (text_events t) e _ _ (λ s.
        after-plain in_tag (b'/' ∷ name) (b'>' ∷ rest) s (refl, h) ∙ after-end_tag name rest s)

  after-render :
      (ns : List Node) (rest : Bytes) (e : S)
      → IsDocument ns
      → after (render ns rest) (at outside e)
        ≡ tell_all tell (events ns) e (λ s. after rest (at outside s))
  after-render [] rest e h = refl
  after-render (n ∷ ns) rest e h =
      after-plain outside n.before (render_tag n.tag (render ns rest)) e h.0.0
      ∙ after-tag n.tag n.before (render ns rest) e h.0.1
      ∙ tell_all-cong (text_events n.before) e _ _ (λ s.
        tell_all-cong (tag_events n.tag) s _ _ (λ s'. after-render ns rest s' h.1)
        ∙ sym (tell_all-append (tag_events n.tag) (events ns) s _))
      ∙ sym (tell_all-append (text_events n.before) (tag_events n.tag ++ events ns) e _)

  -- A simple document, written out, is read as its own events, in order, up to the first at which the
  -- element stops the parser, whatever the element does. Text behind the last tag is not told.
  pub process-render :
      (ns : List Node) (trailing : Bytes) (e : S)
      → IsDocument ns
      → IsPlain outside trailing
      → process tell (render ns trailing) e ≡ tell_all tell (events ns) e (λ s. (s, true))
  unfolding process
  process-render ns trailing e h k =
      ap (λ (cs : Bytes). after cs (initial e)) (render-append ns trailing (255 ∷ []))
      ∙ after-render ns (trailing ++ 255 ∷ []) e h
      ∙ tell_all-cong (events ns) e _ _
          (λ s. after-plain outside trailing (255 ∷ []) s k ∙ unfold run step finish in refl)
