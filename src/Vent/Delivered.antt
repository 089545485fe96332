-- ===== src/Vent/Delivered.antt =====
-- The messages of the vent of vent/ventxml.cpp for a document.
use skweltch.Prelude.{
  ℕ, suc, ◌+◌, ◌≡◌, ◌≢◌, inl, inr, refl, ap, ◌∙◌, Bool, true, false, Option, some, List, [], ◌∷◌,
  ◌++◌, Bytes, Bool-cases, ℤ, pos, ◌-ℤ◌, if◌then◌else◌, length, arith, All,
}
use skweltch.Msg.{SinkMsg, empty_msg, first_msg, last_msg}
use skweltch.Xml.{outside}
use skweltch.Xml.Document.{render, IsDocument, IsPlain}
use skweltch.Splitter.{split_process}
use skweltch.Splitter.Chunks.{AllInner}
use skweltch.Splitter.Elements.{Placed, elements_nodes, deliver, texts}
use skweltch.Splitter.Whole.{Parent, wrap, path_of, split_process-wrap}
use skweltch.Vent.{
  StringMsg, Vent, magnitude, send_one, SendChunk, chunk, last_id, send_all, process_vent,
}
use skweltch.Vent.Numbered.{new_vent, slept-some, first_told, begun_vent}

module _ (interrupted : List StringMsg → Bool) (clock : List StringMsg → ℤ) where
  abbrev pub message_of : ℕ → List StringMsg → Bytes → StringMsg
  message_of i before text = record { id = i; time = clock before; payload = text }

  -- A message for each text, with the ids from `i` on, up to the first behind which the interrupt is
  -- seen; and whether there is none.
  abbrev pub sent_from : ℕ → List StringMsg → List Bytes → List StringMsg × Bool
  sent_from i before [] = (before, true)
  sent_from i before (text ∷ later) =
      let now = before ++ (message_of i before text ∷ []) in
      let rest = sent_from (i + 1) now later in if interrupted now then (now, false) else rest

  module _ (sleeptime sleepevery : ℤ) where
    -- What is left of the receiver: its messages, what the sink has been told, and the next id.
    abbrev Left : ℕ → Vent → List Bytes → Type 0
    Left i v later =
        let ended =
          deliver (chunk interrupted clock sleeptime sleepevery) later
            (some (record { id = i; vent = v })) in
        let sending = sent_from i v.sent later in
        (w : SendChunk interrupted clock sleeptime sleepevery) × (ended.0 ≡ some w)
        × (ended.1 ≡ sending.1)
        × (w.vent.sent ≡ sending.0)
        × (w.vent.told_sink ≡ v.told_sink)
        × (sending.1 ≡ true → w.id ≡ i + length later)

    deliver-sent :
        (later : List Bytes) (i : ℕ) (v : Vent) → magnitude sleepevery ≢ 0 → Left i v later
    unfolding chunk send_one
    deliver-sent [] i v h =
        (record { id = i; vent = v }, refl, refl, refl, refl, λ all. omega arith)
    deliver-sent (text ∷ later) i v h =
        let now = v.sent ++ (message_of i v.sent text ∷ []) in
        let (k, slept_some) = slept-some sleeptime sleepevery (v.count + 1) h in
        let ch = chunk interrupted clock sleeptime sleepevery in
        elim (Bool-cases (interrupted now)) [
          | inl quit ↦
              let w : SendChunk interrupted clock sleeptime sleepevery = record {
                id = i + 1;
                vent = record v { sent = now };
              } in
              let stops : ch text (some (record { id = i; vent = v })) ≡ (some w, false) =
                rw (chunk, send_one, quit) refl in
              (
                w,
                rw (deliver, stops) refl,
                rw (deliver, stops, quit) refl,
                rw quit refl,
                refl,
                λ all. absurd (cc (rw quit at all)),
              )
          | inr goes ↦
              let u = record v { sent = now; count = v.count + 1 } in
              let went : ch text (some (record { id = i; vent = v }))
                  ≡ (some (record { id = i + 1; vent = u }), true) =
                rw (chunk, send_one, goes, slept_some) refl in
              let (w, left, ended, messages, told, next) = deliver-sent later (i + 1) u h in
              (
                w,
                rw (deliver, went) left,
                rw (deliver, went, goes) ended,
                rw goes messages,
                told,
                λ all. next (rw goes at all) ∙ omega arith,
              )
        ]

length-texts : (leaf : Bytes) (es : List Placed) → length (texts leaf es) ≡ length es
length-texts leaf [] = refl
length-texts leaf (e ∷ es) = ap suc (length-texts leaf es)

-- A new vent whose sink takes its messages, with a number of messages between two sleeps that is not 0,
-- on a document in which the elements of the path stand in one another, with any number of elements of
-- the path's last name inside: it sends the text of each of these, in their order and under the ids 0,
-- 1 and so on, up to the first message behind which the interrupt is seen. The sink is told 0 as the
-- first id, and as the last one the number of these elements less 1, or 0 after an interrupt. The
-- document is a simple one, and inside of such an element there is no processing instruction and no end
-- tag of its own name.
pub process_vent-wrap :
    (interrupted : List StringMsg → Bool) (clock : List StringMsg → ℤ) (sleeptime sleepevery : ℤ)
    (accepts : SinkMsg → Bool) (split : Bytes → List Bytes) (leaf xpath trailing : Bytes)
    (rs : List Parent) (es : List Placed)
    → magnitude sleepevery ≢ 0
    → ((m : SinkMsg) → accepts m ≡ true)
    → split xpath ≡ path_of rs leaf
    → IsDocument (wrap rs (elements_nodes leaf es))
    → IsPlain outside trailing
    → All (λ e. AllInner leaf e.elem.inner) es
    → (w : Vent) × (process_vent accepts
          (send_all interrupted clock sleeptime sleepevery split xpath
            (render (wrap rs (elements_nodes leaf es)) trailing))
          new_vent
        ≡ some (w, true))
      × (w.sent ≡ (sent_from interrupted clock 0 [] (texts leaf es)).0)
      × (w.told_sink
          ≡ first_told
            ++ last_msg
                (if (sent_from interrupted clock 0 [] (texts leaf es)).1
                  then pos (length es) -ℤ pos 1
                  else pos 0)
                empty_msg
              ∷ [])
unfolding process_vent send_all last_id
process_vent-wrap interrupted clock sleeptime sleepevery accepts split leaf xpath trailing rs es h
      takes parts document plain_end inner =
    let ch = chunk interrupted clock sleeptime sleepevery in
    let begun : Option (SendChunk interrupted clock sleeptime sleepevery) =
      some (record { id = 0; vent = begun_vent }) in
    let (out, done) =
      split_process-wrap ch leaf split xpath trailing rs es begun parts document plain_end inner in
    let (w, left, ended, messages, told, next) =
      deliver-sent interrupted clock sleeptime sleepevery (texts leaf es) 0 begun_vent h in
    let all = (sent_from interrupted clock 0 [] (texts leaf es)).1 in
    let l = if all then pos (length es) -ℤ pos 1 else pos 0 in
    let m = last_msg l empty_msg in
    let counted : 0 + length (texts leaf es) ≡ length es = omega (arith, length-texts leaf es) in
    let last : (if all then pos w.id -ℤ pos 1 else pos 0) ≡ l = elim (Bool-cases all) [
      | inl whole ↦ rw whole (ap (λ (n : ℕ). pos n -ℤ pos 1) (next whole ∙ counted))
      | inr part ↦ rw part refl
    ] in
    let worked : send_all interrupted clock sleeptime sleepevery split xpath
          (render (wrap rs (elements_nodes leaf es)) trailing) begun_vent
        ≡ some (w.vent, l) =
      ap
        (λ o.
          last_id interrupted clock sleeptime sleepevery o
            (split_process ch split xpath (render (wrap rs (elements_nodes leaf es)) trailing)
              begun).1)
        (out ∙ left)
      ∙ ap (last_id interrupted clock sleeptime sleepevery (some w)) (done ∙ ended)
      ∙ ap (λ (n : ℤ). some (w.vent, n)) last in
    (
      record w.vent { told_sink = w.vent.told_sink ++ m ∷ [] },
      rw (process_vent, takes (first_msg (pos 0) empty_msg), worked, takes m) refl,
      messages,
      ap (λ (ms : List SinkMsg). ms ++ m ∷ []) told,
    )
