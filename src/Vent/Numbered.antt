-- ===== src/Vent/Numbered.antt =====
-- The messages of a vent are numbered as its sink is told.
use skweltch.Prelude.{
  ℕ, zero, suc, ◌+◌, ◌%◌, ◌≡◌, ◌≢◌, inl, inr, refl, ap, ◌∙◌, Bool, true, false, Option, none, some,
  List, [], ◌∷◌, ◌++◌, Bytes, Bool-cases, Option-cases, ℤ, pos, ◌-ℤ◌, ◌==◌, if◌then◌else◌, arith,
}
use skweltch.Msg.{SinkMsg, empty_msg, first_msg, last_msg}
use skweltch.Splitter.{Splitter, split_process}
use skweltch.Splitter.Keeps.{split_process-keeps}
use skweltch.Vent.{
  StringMsg, Vent, is_positive, magnitude, slept, send_one, SendChunk, chunk, last_id, send_all,
  process_vent,
}

abbrev pub sent_ids : List StringMsg → List ℕ
sent_ids [] = []
sent_ids (m ∷ ms) = m.id ∷ sent_ids ms

-- 0 to `n - 1`
abbrev pub upto : ℕ → List ℕ
upto zero = []
upto (suc n) = upto n ++ n ∷ []

abbrev pub new_vent : Vent
new_vent = record { count = 0; sent = []; told_sink = [] }

pub sent_ids-append :
    (ms : List StringMsg) (m : StringMsg) → sent_ids (ms ++ m ∷ []) ≡ sent_ids ms ++ m.id ∷ []
sent_ids-append [] m = refl
sent_ids-append (x ∷ ms) m = ap (◌∷◌ x.id) (sent_ids-append ms m)

pub slept-some : (a b : ℤ) (n : ℕ) → magnitude b ≢ 0 → (k : ℕ) × (slept a b n ≡ some k)
unfolding slept
slept-some a b n h =
    let nonzero : (magnitude b == 0) ≡ false = ground arith in
    elim (Bool-cases (is_positive a)) [
      | inl yes_sleep ↦ (n % magnitude b, rw (yes_sleep, nonzero) refl)
      | inr no_sleep ↦ (0, rw no_sleep refl)
    ]

module _ (interrupted : List StringMsg → Bool) (clock : List StringMsg → ℤ)
    (sleeptime sleepevery : ℤ) (told : List SinkMsg) where
  abbrev Chunks : Type 0
  Chunks = Option (SendChunk interrupted clock sleeptime sleepevery)

  -- The ids of the messages so far, and what the sink was told before.
  abbrev Numbered : Chunks → Type 0
  Numbered none = ⊥
  Numbered (some w) = (sent_ids w.vent.sent ≡ upto w.id) × (w.vent.told_sink ≡ told)

  send_one-sent :
      (m : StringMsg) (v : Vent)
      → magnitude sleepevery ≢ 0
      → (w : Vent) × (more : Bool) × (send_one interrupted clock sleeptime sleepevery m v
          ≡ some (w, more))
        × (w.sent ≡ v.sent ++ m ∷ [])
        × (w.told_sink ≡ v.told_sink)
  unfolding send_one
  send_one-sent m v h =
      let (k, e) = slept-some sleeptime sleepevery (v.count + 1) h in
      elim (Bool-cases (interrupted (v.sent ++ m ∷ []))) [
        | inl quit ↦ (record v { sent = v.sent ++ m ∷ [] }, false, rw quit refl, refl, refl)
        | inr goes ↦ (
          record v { sent = v.sent ++ m ∷ []; count = v.count + 1 },
          true,
          rw (goes, e) refl,
          refl,
          refl,
        )
      ]

  chunk-Numbered :
      (s : Bytes) (o : Chunks)
      → magnitude sleepevery ≢ 0
      → Numbered o
      → Numbered (chunk interrupted clock sleeptime sleepevery s o).0
  unfolding chunk
  chunk-Numbered s none h v = v
  chunk-Numbered s (some w) h (numbers, same) =
      let m : StringMsg = record { id = w.id; time = clock w.vent.sent; payload = s } in
      let next : suc w.id ≡ w.id + 1 = omega arith in
      let (u, more, e, grown, kept) = send_one-sent m w.vent h in
      rw (Numbered, e)
        (
          ap sent_ids grown
              ∙ sent_ids-append w.vent.sent m
              ∙ ap (λ (ns : List ℕ). ns ++ w.id ∷ []) numbers
              ∙ ap upto next,
          kept ∙ same,
        )

  -- What the splitter leaves of a vent that has sent nothing.
  abbrev ran : (Bytes → List Bytes) → Bytes → Bytes → Vent → Splitter Chunks × Bool
  ran split xpath input v =
      split_process (chunk interrupted clock sleeptime sleepevery) split xpath input
        (some (record { id = 0; vent = v }))

  send_all-Numbered :
      (split : Bytes → List Bytes) (xpath input : Bytes) (v : Vent)
      → magnitude sleepevery ≢ 0
      → v.sent ≡ []
      → v.told_sink ≡ told
      → (w : Vent) × (n : ℕ) × (send_all interrupted clock sleeptime sleepevery split xpath input v
          ≡ some (w, if (ran split xpath input v).1 then pos n -ℤ pos 1 else pos 0))
        × (sent_ids w.sent ≡ upto n)
        × (w.told_sink ≡ told)
  unfolding send_all last_id
  send_all-Numbered split xpath input v h fresh same =
      let kept =
        split_process-keeps (chunk interrupted clock sleeptime sleepevery) Numbered
          (λ s o. chunk-Numbered s o h) split xpath input (some (record { id = 0; vent = v }))
          (rw fresh refl, same) in
      elim (Option-cases (ran split xpath input v).0.out) [
        | inl nothing ↦ absurd (rw nothing at kept)
        | inr (u, there) ↦
            let (numbers, told_same) : Numbered (some u) = rw there at kept in
            (u.vent, u.id, rw there refl, numbers, told_same)
      ]

-- The two messages of a vent for the sink.
abbrev pub first_told : List SinkMsg
first_told = first_msg (pos 0) empty_msg ∷ []

abbrev pub begun_vent : Vent
begun_vent = record new_vent { told_sink = first_told }

-- For every document, whenever the interrupt comes, the messages of a new vent whose sink takes its
-- messages have the ids 0 to n - 1 in their order, and the sink is told 0 as the first id and as the
-- last one n - 1, or 0 if the parser was stopped before the end of the input. The number of
-- messages between two sleeps is not 0.
pub process_vent-numbered :
    (interrupted : List StringMsg → Bool) (clock : List StringMsg → ℤ) (sleeptime sleepevery : ℤ)
    (accepts : SinkMsg → Bool) (split : Bytes → List Bytes) (xpath input : Bytes)
    → magnitude sleepevery ≢ 0
    → ((m : SinkMsg) → accepts m ≡ true)
    → (w : Vent) × (n : ℕ) × (process_vent accepts
          (send_all interrupted clock sleeptime sleepevery split xpath input)
          new_vent
        ≡ some (w, true))
      × (sent_ids w.sent ≡ upto n)
      × (w.told_sink
          ≡ first_told
            ++ last_msg
                (if (split_process
                    (chunk interrupted clock sleeptime sleepevery)
                    split
                    xpath
                    input
                    (some (record { id = 0; vent = begun_vent }))).1
                  then pos n -ℤ pos 1
                  else pos 0)
                empty_msg
              ∷ [])
unfolding process_vent
process_vent-numbered interrupted clock sleeptime sleepevery accepts split xpath input h takes =
    let (u, n, e, numbers, told) =
      send_all-Numbered interrupted clock sleeptime sleepevery first_told split xpath input
        begun_vent h refl refl in
    let l =
      if (split_process (chunk interrupted clock sleeptime sleepevery) split xpath input
        (some (record { id = 0; vent = begun_vent }))).1
      then pos n -ℤ pos 1
      else pos 0 in
    let m = last_msg l empty_msg in
    (
      record u { told_sink = u.told_sink ++ m ∷ [] },
      n,
      rw (process_vent, takes (first_msg (pos 0) empty_msg), e, takes m) refl,
      numbers,
      ap (λ (ms : List SinkMsg). ms ++ m ∷ []) told,
    )
