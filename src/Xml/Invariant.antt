-- ===== src/Xml/Invariant.antt =====
-- What every call of an element keeps, a whole run of the parser keeps.
use skweltch.Prelude.{ℕ, [], ◌∷◌, ◌++◌, Bytes, ◌==◌, Bool-cases, inl, inr}
use skweltch.Xml.{
  Event, pi, start_tag, attr, end_attr, end_tag, content, XmlElement, State, outside, in_pi, in_tag,
  in_attr, Parser, Outcome, goes_on, stopped, initial, is_end, is_empty, tail, then_go, enter,
  open_angle, question, space, close_angle, step, run, finish, process,
}

module _ {ℓ} {S : Type 0} (tell : XmlElement S) (P : S → Type ℓ)
    (keep : (e : Event) (s : S) → P s → P (tell e s).0) where
  abbrev Holds : Outcome S → Type ℓ
  Holds (goes_on p) = P p.elem
  Holds (stopped s) = P s

  then_go-Holds :
      (e : Event) (p : Parser S) (k : Parser S → Outcome S)
      → P p.elem
      → ((q : Parser S) → P q.elem → Holds (k q))
      → Holds (then_go tell e p k)
  unfolding then_go
  then_go-Holds e p k h rest = elim (Bool-cases (tell e p.elem).1) [
    | inl more ↦ rw (more, then_go) (rest (record p { elem = (tell e p.elem).0 }) (keep e p.elem h))
    | inr over ↦ rw (over, then_go) (keep e p.elem h)
  ]

  entered :
      (e : Event) (st : State) (p : Parser S) → P p.elem → Holds (then_go tell e p (enter tell st))
  entered e st p h = then_go-Holds e p (enter tell st) h (λ q hq. hq)

  -- A tag's last event and `endAttr`.
  ended :
      (e : Event) (p : Parser S)
      → P p.elem
      → Holds (then_go tell e p (λ q. then_go tell end_attr q (enter tell outside)))
  ended e p h =
      then_go-Holds e p (λ q. then_go tell end_attr q (enter tell outside)) h
        (λ q. entered end_attr outside q)

  open_angle-Holds : (st : State) (p : Parser S) → P p.elem → Holds (open_angle tell st p)
  unfolding open_angle
  open_angle-Holds outside p h = elim (Bool-cases (is_empty p.text)) [
    | inl none_before ↦ rw none_before h
    | inr some_before ↦ rw some_before (entered (content p.text) in_tag p h)
  ]
  open_angle-Holds _ p h = h

  question-Holds : (st : State) (p : Parser S) → P p.elem → Holds (question tell st p)
  unfolding question
  question-Holds in_tag p h = h
  question-Holds _ p h = h

  space-Holds : (st : State) (p : Parser S) → P p.elem → Holds (space tell st p)
  unfolding space
  space-Holds in_attr p h = entered (attr p.text) in_attr p h
  space-Holds in_tag p h = entered (start_tag p.text) in_attr (record p { state = in_attr }) h
  space-Holds _ p h = h

  close_angle-Holds : (st : State) (p : Parser S) → P p.elem → Holds (close_angle tell st p)
  unfolding close_angle
  close_angle-Holds outside p h = h
  close_angle-Holds in_attr p h = ended (attr p.text) p h
  close_angle-Holds in_pi p h = entered (pi p.text) outside p h
  close_angle-Holds in_tag p h = elim (Bool-cases (is_end p.text)) [
    | inl closing ↦ rw closing (entered (end_tag (tail p.text)) outside p h)
    | inr begun ↦ rw begun (ended (start_tag p.text) p h)
  ]

  step-Holds : (c : ℕ) (p : Parser S) → P p.elem → Holds (step tell c p)
  unfolding step
  step-Holds c p h = elim (Bool-cases (c == b'<')) [
    | inl e ↦ rw e (open_angle-Holds p.state p h)
    | inr e ↦ rw e (elim (Bool-cases (c == b'?')) [
      | inl e ↦ rw e (question-Holds p.state p h)
      | inr e ↦ rw e (elim (Bool-cases (c == b' ')) [
        | inl e ↦ rw e (space-Holds p.state p h)
        | inr e ↦ rw e (elim (Bool-cases (c == b'>')) [
          | inl e ↦ rw e (close_angle-Holds p.state p h)
          | inr e ↦ rw e h
        ])
      ])
    ])
  ]

  run-Holds : (cs : Bytes) (p : Parser S) → P p.elem → Holds (run tell cs p)
  unfolding run
  run-Holds [] p h = h
  run-Holds (c ∷ cs) p h = carry (step tell c p) (step-Holds c p h) (run-Holds cs)
    where
      carry :
          (o : Outcome S)
          → Holds o
          → ((q : Parser S) → P q.elem → Holds (run tell cs q))
          → Holds (elim o [ goes_on q ↦ run tell cs q | stopped e ↦ stopped e ])
      carry (goes_on q) h rest = rest q h
      carry (stopped e) h rest = h

  pub process-keeps : (input : Bytes) (e : S) → P e → P (process tell input e).0
  unfolding process
  process-keeps input e h =
      finished (run tell (input ++ 255 ∷ []) (initial e))
        (run-Holds (input ++ 255 ∷ []) (initial e) h)
    where
      finished : (o : Outcome S) → Holds o → P (finish tell o).0
      finished (goes_on p) h = h
      finished (stopped s) h = h
