-- ===== src/Vent/Randoms.antt =====
-- vent/VentRandomNum.cpp: a vent of random numbers. The i-th number that `random` gives, RAND_MAX, the
-- operations of `float` and `double`, and what msgpack makes of an `int` are arguments.
use skweltch.Prelude.{
  ℕ, zero, suc, ◌+◌, ltb, leb, int_limit, if◌then◌else◌, inl, inr, Option-cases, ◌≡◌, refl, ap, sym,
  ◌∙◌, Bool, true, false, Option, none, some, List, [], ◌∷◌, ◌++◌, map, Bytes, ℤ, pos, negsuc, ◌+ℤ◌,
  ◌-ℤ◌, append_assoc, append-nil, arith,
}
use skweltch.Msg.{SinkMsg}
use skweltch.Vent.{StringMsg, Vent, send_one}
use skweltch.Vent.Numbered.{slept-some}
use skweltch.Words.Sent.{messages, last_id}

-- `VWorker`, its settings.
pub record VentRandom : Type 0 where
  pub count : ℤ
  pub low : ℤ
  pub high : ℤ
  pub sleeptime : ℤ

-- The rounds of a loop from 0 up to an `int`.
abbrev pub rounds : ℤ → ℕ
rounds (pos n) = n
rounds (negsuc n) = 0

-- The operations on floating point numbers that the program uses.
pub record Floats (Float Double : Type 0) : Type 0 where
  pub of_int : ℤ → Float
  pub of_long : ℕ → Float
  pub times : Float → Float → Float
  pub widen : Float → Double
  pub double_of : ℕ → Double
  pub plus : Double → Double → Double
  pub over : Double → Double → Double
  -- `(int)`, `none` out of its range
  pub truncate : Double → Option ℤ

-- The value of a sum of two `int`, `none` where it overflows.
abbrev pub checked : ℤ → Option ℤ
checked (pos n) = if ltb n int_limit then some (pos n) else none
checked (negsuc n) = if ltb n int_limit then some (negsuc n) else none

-- An `int` has 32 bits, one of them for the sign.
abbrev pub in_int : ℤ → Option ℤ
in_int (pos n) = if leb n 2147483647 then some (pos n) else none
in_int (negsuc n) = if leb (n + 1) 2147483648 then some (negsuc n) else none

checked-in_int : (z : ℤ) → checked z ≡ in_int z
checked-in_int (pos n) = ground arith
checked-in_int (negsuc n) = ground arith

module _ {Float Double : Type 0} (floats : Floats Float Double) (rand_max : ℕ) (random : ℕ → ℕ)
    (interrupted : List StringMsg → Bool) (clock : List StringMsg → ℤ) (pack : ℤ → Bytes)
    (w : VentRandom) where
  -- The macro, for the i-th number: `(float) num * random ()` is one of `float`, and the rest of
  -- `double`.
  abbrev pub within : ℤ → ℕ → Option ℤ
  within num i = floats.truncate (
      floats.over (floats.widen (floats.times (floats.of_int num) (floats.of_long (random i))))
        (floats.plus (floats.double_of rand_max) (floats.double_of 1)))

  -- `within(high) + low`
  abbrev pub random_number : ℕ → Option ℤ
  random_number i = elim (within w.high i) [ none ↦ none | some z ↦ checked (z +ℤ w.low) ]

  -- The loop, with what is left of it, and the number that is drawn next; `none` where a number is
  -- undefined.
  unfoldable pub send_randoms : ℕ → ℕ → Vent → Option (Vent × ℤ)
  send_randoms zero id v = some (v, pos id -ℤ pos 1)
  send_randoms (suc n) id v = elim (random_number id) [
    | none ↦ none
    | some num ↦
        elim (send_one interrupted clock w.sleeptime (pos 1)
          (record { id = id; time = clock v.sent; payload = pack num }) v) [
            | none ↦ none
            | some (u, true) ↦ send_randoms n (id + 1) u
            | some (u, false) ↦ some (u, pos 0)
          ]
  ]

  -- `sendAll`
  unfoldable pub send_all_randoms : Vent → Option (Vent × ℤ)
  unfolding send_randoms
  send_all_randoms v = send_randoms (rounds w.count) 0 v

  -- The i-th number from 0 up to `high`, and `low` more, by the words of the macro: a quotient of
  -- `double` over RAND_MAX + 1.0, cut off.
  abbrev pub number_at : ℕ → Option ℤ
  number_at i =
      let product = floats.times (floats.of_int w.high) (floats.of_long (random i)) in
      let range = floats.plus (floats.double_of rand_max) (floats.double_of 1) in
      elim (floats.truncate (floats.over (floats.widen product) range)) [
        | none ↦ none
        | some z ↦ in_int (z +ℤ w.low)
      ]

  random_number-at : (i : ℕ) → random_number i ≡ number_at i
  random_number-at i = elim (Option-cases (within w.high i)) [
    | inl e ↦ rw (random_number, number_at, e) refl
    | inr (z, e) ↦ rw (random_number, number_at, e) (checked-in_int (z +ℤ w.low))
  ]

  -- The numbers from the i-th on, where each is defined.
  abbrev pub numbers_from : ℕ → ℕ → Option (List ℤ)
  numbers_from i zero = some []
  numbers_from i (suc n) =
      let more = numbers_from (i + 1) n in
      elim (number_at i) [
        | none ↦ none
        | some z ↦ elim more [ none ↦ none | some zs ↦ some (z ∷ zs) ]
      ]

  module _ (runs : (ms : List StringMsg) → interrupted ms ≡ false) where
    abbrev pub sent_more : ℕ → List StringMsg → Vent → Vent
    sent_more n ms v = record v { count = v.count + n; sent = v.sent ++ ms }

    send_one-runs :
        (m : StringMsg) (v : Vent)
        → send_one interrupted clock w.sleeptime (pos 1) m v ≡ some (sent_more 1 (m ∷ []) v, true)
    unfolding send_one
    send_one-runs m v =
        let (k, e) = slept-some w.sleeptime (pos 1) (v.count + 1) (λ e. cc) in
        rw (send_one, runs (v.sent ++ m ∷ []), e) refl

    same_end :
        (c c' i i' : ℕ) (sent sent' : List StringMsg) (told : List SinkMsg)
        → c ≡ c'
        → sent ≡ sent'
        → i ≡ i'
        → ◌≡◌ {A = Option (Vent × ℤ)}
            (some (record { count = c; sent = sent; told_sink = told }, pos i -ℤ pos 1))
            (some (record { count = c'; sent = sent'; told_sink = told }, pos i' -ℤ pos 1))
    same_end c c' i i' sent sent' told e f g = rw (e, f, g) refl

    -- The messages for the numbers, and the last id, if there are numbers.
    abbrev pub sent_for : ℕ → ℕ → Vent → Option (List ℤ) → Option (Vent × ℤ)
    sent_for i n v none = none
    sent_for i n v (some zs) = some (
      sent_more n (messages interrupted clock runs i v.sent (map pack zs)) v,
      pos (i + n) -ℤ pos 1,
    )

    send_randoms-runs :
        (n i : ℕ) (v : Vent) → send_randoms n i v ≡ sent_for i n v (numbers_from i n)
    unfolding send_randoms
    send_randoms-runs zero i v =
        same_end _ _ _ _ _ _ _ (omega arith) (sym (append-nil v.sent)) (omega arith)
    send_randoms-runs (suc n) i v = elim (Option-cases (number_at i)) [
      | inl bad ↦ rw (send_randoms, random_number-at i, numbers_from, bad) refl
      | inr (z, good) ↦
          let m : StringMsg = record { id = i; time = clock v.sent; payload = pack z } in
          let u = sent_more 1 (m ∷ []) v in
          let rest = send_randoms-runs n (i + 1) u in
          elim (Option-cases (numbers_from (i + 1) n)) [
            | inl e ↦
                rw (send_randoms, random_number-at i, numbers_from, good, send_one-runs m v, e)
                  (rw e at rest)
            | inr (zs, e) ↦
                rw (send_randoms, random_number-at i, numbers_from, good, send_one-runs m v, e)
                  ((rw e at rest)
                    ∙ same_end _ _ _ _ _ _ _ (omega arith)
                        (append_assoc v.sent (m ∷ []) (
                          messages interrupted clock runs (i + 1) (v.sent ++ m ∷ []) (map pack zs)))
                        (omega arith))
          ]
    ]

    -- Without an interrupt, a vent of `suc n` random numbers sends a message for each number that the
    -- macro gives, plus `low`, in their order, with the ids from 0 on, and gives `n` as the last id. It
    -- is undefined where one of the numbers is: out of the range of an `int`, before or behind the
    -- addition of `low`.
    pub send_all_randoms-sent :
        (n : ℕ) (v : Vent)
        → w.count ≡ pos (suc n)
        → send_all_randoms v ≡ elim (numbers_from 0 (suc n)) [
          | none ↦ none
          | some zs ↦
              some (
                sent_more (suc n) (messages interrupted clock runs 0 v.sent (map pack zs)) v,
                pos n,
              )
        ]
    unfolding send_all_randoms
    send_all_randoms-sent n v c =
        let ran = ap (λ (z : ℤ). send_randoms (rounds z) 0 v) c ∙ send_randoms-runs (suc n) 0 v in
        elim (Option-cases (numbers_from 0 (suc n))) [
          | inl bad ↦ rw bad (rw bad at ran)
          | inr (zs, good) ↦ rw good (
              (rw good at ran)
              ∙ ap
                  (λ (z : ℤ). some (
                    sent_more (suc n) (messages interrupted clock runs 0 v.sent (map pack zs)) v,
                    z,
                  ))
                  (last_id n))
        ]
