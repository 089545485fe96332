-- ===== src/Xml.antt =====
-- vent/XmlParser.cpp: the stream parser of the XML vent, which tells an `IXmlElement` what it meets.
-- A `char` is a number below 256. Logging is left out.
pub mod Document
pub mod RoundTrip
pub mod Invariant
use skweltch.Prelude.{ℕ, Bool, true, false, List, [], ◌∷◌, ◌++◌, Bytes, ◌==◌, if◌then◌else◌}

-- The calls of an `IXmlElement`. An element is a function of these, which returns its next state and
-- whether to go on.
pub data Event : Type 0 where
  pi : Bytes → Event
  start_tag : Bytes → Event
  attr : Bytes → Event
  end_attr : Event
  end_tag : Bytes → Event
  content : Bytes → Event

abbrev pub XmlElement : Type 0 → Type 0
XmlElement S = Event → S → S × Bool

pub data State : Type 0 where
  outside in_pi in_tag in_attr : State

-- The locals of `process`, `state` and `s`, and the element's own state.
pub record Parser (S : Type 0) : Type 0 where
  pub state : State
  pub text : Bytes
  pub elem : S

-- `stopped` where `process` returns false, with the element as it then is.
pub data Outcome (S : Type 0) : Type 0 where
  goes_on : Parser S → Outcome S
  stopped : S → Outcome S

-- `START`
abbrev pub initial : {S : Type 0} → S → Parser S
initial e = record { state = outside; text = []; elem = e }

-- `s[0] == '/'`. Past the end a string reads as the character 0.
unfoldable pub is_end : Bytes → Bool
is_end [] = false
is_end (c ∷ cs) = c == b'/'

-- `s.substr(1)`
abbrev pub tail : Bytes → Bytes
tail [] = []
tail (c ∷ cs) = cs

abbrev pub is_empty : Bytes → Bool
is_empty [] = true
is_empty (c ∷ cs) = false

module _ {S : Type 0} (tell : XmlElement S) where
  -- `if (!elem->…) return false;`, and what comes after it.
  pub then_go : Event → Parser S → (Parser S → Outcome S) → Outcome S
  then_go e p rest =
      let (t, more) = tell e p.elem in if more then rest (record p { elem = t }) else stopped t

  abbrev push : ℕ → Parser S → Outcome S
  push c p = goes_on (record p { text = p.text ++ c ∷ [] })

  abbrev enter : State → Parser S → Outcome S
  enter s p = goes_on (record p { state = s; text = [] })

  -- `case '<'`
  pub open_angle : State → Parser S → Outcome S
  unfolding then_go
  open_angle outside p =
      if is_empty p.text then enter in_tag p else then_go (content p.text) p (enter in_tag)
  open_angle in_pi p = goes_on p
  open_angle in_attr p = goes_on p
  open_angle in_tag p = goes_on p

  -- `case '?'`
  pub question : State → Parser S → Outcome S
  question in_tag p = goes_on (record p { state = in_pi })
  question outside p = push b'?' p
  question in_pi p = push b'?' p
  question in_attr p = push b'?' p

  -- `case ' '`
  pub space : State → Parser S → Outcome S
  unfolding then_go
  space outside p = push b' ' p
  space in_attr p = then_go (attr p.text) p (enter in_attr)
  space in_tag p = then_go (start_tag p.text) (record p { state = in_attr }) (enter in_attr)
  space in_pi p = push b' ' p

  -- `case '>'`
  pub close_angle : State → Parser S → Outcome S
  unfolding then_go is_end
  close_angle outside p = stopped p.elem
  close_angle in_attr p = then_go (attr p.text) p λ q. then_go end_attr q (enter outside)
  close_angle in_tag p =
      if is_end p.text
      then then_go (end_tag (tail p.text)) p (enter outside)
      else then_go (start_tag p.text) p (λ q. then_go end_attr q (enter outside))
  close_angle in_pi p = then_go (pi p.text) p (enter outside)

  pub step : ℕ → Parser S → Outcome S
  unfolding open_angle question space close_angle
  step c p =
      if c == b'<'
      then open_angle p.state p
      else if c == b'?'
      then question p.state p
      else if c == b' '
      then space p.state p
      else if c == b'>'
      then close_angle p.state p
      else push c p

  pub run : Bytes → Parser S → Outcome S
  unfolding step
  run [] p = goes_on p
  run (c ∷ cs) p = elim (step c p) [ goes_on q ↦ run cs q | stopped e ↦ stopped e ]

  pub finish : Outcome S → S × Bool
  finish (goes_on p) = (p.elem, true)
  finish (stopped e) = (e, false)

  -- `process`. `eof` holds only after a read has failed, so the loop also takes the `EOF` of the last
  -- `get`, as the character 255.
  pub process : Bytes → S → S × Bool
  unfolding run finish
  process input e = finish (run (input ++ 255 ∷ []) (initial e))
