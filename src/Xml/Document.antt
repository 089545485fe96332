-- ===== src/Xml/Document.antt =====
-- Simple documents: what the parser is meant to read, how they are written, and the events that an
-- element should be told.
use skweltch.Prelude.{
  ℕ, ◌≡◌, Bool, true, false, not, ◌&&◌, List, [], ◌∷◌, ◌++◌, Bytes, All, ◌==◌, if◌then◌else◌,
}
use skweltch.Xml.{
  Event, pi, start_tag, attr, end_attr, end_tag, content, XmlElement, State, outside, in_pi, in_tag,
  in_attr, is_end, is_empty,
}

pub data Tag : Type 0 where
  -- `<?…>`
  instruction : Bytes → Tag
  -- `<name attr attr>`
  opening : Bytes → List Bytes → Tag
  -- `</name>`
  closing : Bytes → Tag

-- A tag, and the text between it and the tag before it.
pub record Node : Type 0 where
  pub before : Bytes
  pub tag : Tag

abbrev pub render_attrs : List Bytes → Bytes → Bytes
render_attrs [] rest = b'>' ∷ rest
render_attrs (a ∷ as_more) rest = b' ' ∷ (a ++ render_attrs as_more rest)

-- A tag, in front of `rest`.
abbrev pub render_tag : Tag → Bytes → Bytes
render_tag (instruction s) rest = b'<' ∷ b'?' ∷ (s ++ (b'>' ∷ rest))
render_tag (opening name attrs) rest = b'<' ∷ (name ++ render_attrs attrs rest)
render_tag (closing name) rest = b'<' ∷ b'/' ∷ (name ++ (b'>' ∷ rest))

abbrev pub render : List Node → Bytes → Bytes
render [] rest = rest
render (n ∷ ns) rest = n.before ++ render_tag n.tag (render ns rest)

abbrev pub attr_events : List Bytes → List Event
attr_events [] = end_attr ∷ []
attr_events (a ∷ as_more) = attr a ∷ attr_events as_more

abbrev pub tag_events : Tag → List Event
tag_events (instruction s) = pi s ∷ []
tag_events (opening name attrs) = start_tag name ∷ attr_events attrs
tag_events (closing name) = end_tag name ∷ []

abbrev pub text_events : Bytes → List Event
text_events t = if is_empty t then [] else content t ∷ []

abbrev pub events : List Node → List Event
events [] = []
events (n ∷ ns) = text_events n.before ++ (tag_events n.tag ++ events ns)

-- The characters that are only collected in a state.
abbrev pub is_plain : State → ℕ → Bool
is_plain in_tag c = not (c == b'<') && (not (c == b'>') && (not (c == b' ') && not (c == b'?')))
is_plain in_attr c = not (c == b'<') && (not (c == b'>') && not (c == b' '))
is_plain outside c = not (c == b'<') && not (c == b'>')
is_plain in_pi c = not (c == b'<') && not (c == b'>')

abbrev pub IsPlain : State → Bytes → Type 0
IsPlain s = All (λ c. is_plain s c ≡ true)

abbrev pub IsTag : Tag → Type 0
IsTag (instruction s) = IsPlain in_pi s
IsTag (opening name attrs) =
    IsPlain in_tag name × (is_end name ≡ false) × All (IsPlain in_attr) attrs
IsTag (closing name) = IsPlain in_tag name

abbrev pub IsDocument : List Node → Type 0
IsDocument = All (λ n. IsPlain outside n.before × IsTag n.tag)

-- An element told a list of events, up to the first for which it returns false.
abbrev pub tell_all : {S : Type 0} → XmlElement S → List Event → S → (S → S × Bool) → S × Bool
tell_all tell [] s k = k s
tell_all tell (e ∷ es) s k =
    let (t, more) = tell e s in
    let later = tell_all tell es t k in if more then later else (t, false)
