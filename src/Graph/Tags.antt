-- ===== src/Graph/Tags.antt =====
-- The elements of a label in a dot file: a reader of tags, and what it makes of the texts drawn.
use skweltch.Prelude.{
  ℕ, ◌≡◌, refl, Bool, true, not, ◌&&◌, ◌||◌, ◌==◌, List, [], ◌∷◌, ◌++◌, Option, none, some, Bytes,
  equal, if◌then◌else◌, Option-cases, inl, inr, ◌∙◌, arith,
}
use skweltch.Result.{Result, Result-cases, ok, threw, undefined}
use skweltch.Stream.{Writing, ◌>>=◌}

-- Where a reader is, with the names of the open elements, the innermost first. The label itself,
-- between `<` and `>`, is one without a name.
pub data Reader : Type 0 where
  outside : List Bytes → Reader
  opened : List Bytes → Reader
  name : Bytes → List Bytes → Reader
  attributes : Bytes → List Bytes → Reader
  closing : Bytes → List Bytes → Reader

-- At a `>` behind a text, where only the label can end; outside of all labels it is a part of `->`.
abbrev pub end_label : List Bytes → Option Reader
end_label [] = some (outside [])
end_label ([] ∷ open_names) = some (outside open_names)
end_label ((c ∷ tag) ∷ open_names) = none

abbrev pub close_tag : Bytes → List Bytes → Option Reader
close_tag tag [] = none
close_tag tag (t ∷ open_names) = if equal tag t then some (outside open_names) else none

abbrev pub after_angle : List Bytes → ℕ → Option Reader
after_angle open_names c =
    if c == b'/'
    then some (closing [] open_names)
    else if c == b'\n'
    then some (outside ([] ∷ open_names))
    else some (name (c ∷ []) open_names)

unfoldable pub read_char : Reader → ℕ → Option Reader
unfolding equal
read_char (outside open_names) c =
    if c == b'<'
    then some (opened open_names)
    else if c == b'>'
    then end_label open_names
    else some (outside open_names)
read_char (opened open_names) c = after_angle open_names c
read_char (name tag open_names) c =
    if c == b'>'
    then some (outside (tag ∷ open_names))
    else if c == b' '
    then some (attributes tag open_names)
    else some (name (tag ++ c ∷ []) open_names)
read_char (attributes tag open_names) c =
    if c == b'>' then some (outside (tag ∷ open_names)) else some (attributes tag open_names)
read_char (closing tag open_names) c =
    if c == b'>' then close_tag tag open_names else some (closing (tag ++ c ∷ []) open_names)

-- Where the reader is behind a text; `none` at an end that fits no element.
unfoldable pub read_tags : Bytes → Reader → Option Reader
unfolding read_char
read_tags [] r = some r
read_tags (c ∷ s) r = elim (read_char r c) [ none ↦ none | some q ↦ read_tags s q ]

pub read_tags-append :
    (s t : Bytes) (q r : Reader) → read_tags s q ≡ some r → read_tags (s ++ t) q ≡ read_tags t r
unfolding read_tags
read_tags-append [] t q r h = cc
read_tags-append (c ∷ s) t q r h = elim (Option-cases (read_char q c)) [
  | inl e ↦ let k : ◌≡◌ {A = Option Reader} none (some r) = rw (e, read_tags) at h in cc
  | inr (p, e) ↦ rw (e, read_tags) (read_tags-append s t p r (rw (e, read_tags) at h))
]

-- A text in which no tag starts or ends.
abbrev pub is_plain : Bytes → Bool
is_plain [] = true
is_plain (c ∷ s) = not (c == b'<' || c == b'>') && is_plain s

pub read_tags-plain :
    (s : Bytes) (open_names : List Bytes)
    → is_plain s ≡ true
    → read_tags s (outside open_names) ≡ some (outside open_names)
unfolding read_tags read_char
read_tags-plain [] open_names h = refl
read_tags-plain (c ∷ s) open_names h = ground (arith, read_tags-plain s open_names)

pub skip-plain :
    (s t : Bytes) (open_names : List Bytes)
    → is_plain s ≡ true
    → read_tags (s ++ t) (outside open_names) ≡ read_tags t (outside open_names)
skip-plain s t open_names h =
    read_tags-append s t (outside open_names) (outside open_names) (read_tags-plain s open_names h)

-- Where a part of the drawing succeeds, it leaves the reader at `r`, and its value is as `P` says.
pub record Draws {A : Type 0} (P : A → Type 0) (q : Reader) (m : Writing A) (r : A → Reader)
    : Type 0 where
  pub ends : (a : A) → m.out ≡ ok a → (read_tags m.text q ≡ some (r a)) × P a

pub Draws-bind :
    {A B : Type 0} {P : A → Type 0} {Q : B → Type 0} {q : Reader} {r : A → Reader} {s : B → Reader}
    {m : Writing A} {next : A → Writing B}
    → Draws P q m r
    → ((a : A) → P a → Draws Q (r a) (next a) s)
    → Draws Q q (m >>= next) s
unfolding ◌>>=◌
Draws-bind {B = B} {q = q} {r = r} {m = m} {next = next} h k = record {
  ends = λ b e. elim (Result-cases m.out) [
    | inl (a, f) ↦
        let (d, p) = h.ends a f in
        let (d', p') = (k a p).ends b (rw f at e) in
        rw f (read_tags-append m.text (next a).text q (r a) d ∙ d', p')
    | inr (inl (x, f)) ↦ let w : threw x ≡ ok b = rw f at e in cc
    | inr (inr f) ↦ let w : ◌≡◌ {A = Result B} undefined (ok b) = rw f at e in cc
  ];
}
