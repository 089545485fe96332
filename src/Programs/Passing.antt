-- ===== src/Programs/Passing.antt =====
-- The loops of src/pipe/pipecount.cpp and pipedump.cpp, over the messages that come. The number of
-- messages stays below 2^31. What is logged is the number of a message, or the message.
use skweltch.Prelude.{
  ℕ, zero, suc, ◌*◌, ◌<◌, ◌≤◌, ◌∙◌, ◌-◌, ◌+◌, ◌%◌, ◌≡◌, refl, ap, Bool, true, false, not, ◌&&◌, All,
  Option, none, some, List, [], ◌∷◌, ◌==◌, Bytes, ℤ, if◌then◌else◌, arith,
}
use native.Mathlib.Nat.{add-mul-mod_self_right, mod-eq_of_lt}
use skweltch.Vent.{magnitude}

-- `(n % count) == 0`, which is undefined for a count of 0.
unfoldable pub is_due : ℤ → ℕ → Option Bool
is_due count n = if magnitude count == 0 then none else some ((n % magnitude count) == 0)

-- What has been handed to `sender`, and logged, and whether an exception has ended the program.
pub record Passed (A : Type 0) : Type 0 where
  pub sent : List Bytes
  pub logged : List A
  pub threw : Bool

abbrev pub log_if : {A : Type 0} → Bool → A → List A → List A
log_if due a logged = if due then a ∷ logged else logged

-- pipecount.cpp: the rounds from the n-th on. The log is written behind the sending.
unfoldable pub pass_count : ℤ → ℕ → List Bytes → Option (Passed ℕ)
unfolding is_due
pass_count count n [] = some (record { sent = []; logged = []; threw = false })
pass_count count n (m ∷ ms) = elim (is_due count n) [
  | none ↦ none
  | some due ↦ elim (pass_count count (n + 1) ms) [
    | none ↦ none
    | some p ↦ some (record { sent = m ∷ p.sent; logged = log_if due n p.logged; threw = p.threw })
  ]
]

-- pipedump.cpp, which looks first and sends then: where `msgpack::unpack` throws, nothing catches it.
-- Whether a message comes unpacked is an argument.
unfoldable pub pass_dump : (Bytes → Bool) → ℤ → ℕ → List Bytes → Option (Passed Bytes)
unfolding is_due
pass_dump unpacks count n [] = some (record { sent = []; logged = []; threw = false })
pass_dump unpacks count n (m ∷ ms) =
    let rest = pass_dump unpacks count (n + 1) ms in
    elim (is_due count n) [
      | none ↦ none
      | some due ↦
          if due && not (unpacks m)
          then some (record { sent = []; logged = []; threw = true })
          else elim rest [
            | none ↦ none
            | some p ↦
                some (record { sent = m ∷ p.sent; logged = log_if due m p.logged; threw = p.threw })
          ]
    ]

-- Every (c + 1)-th message with its number, when `wait` messages come before the next of them.
abbrev pub every_nth : ℕ → ℕ → ℕ → List Bytes → List (ℕ × Bytes)
every_nth c wait n [] = []
every_nth c zero n (m ∷ ms) = (n, m) ∷ every_nth c c (n + 1) ms
every_nth c (suc wait) n (m ∷ ms) = every_nth c wait (n + 1) ms

abbrev pub texts : List (ℕ × Bytes) → List Bytes
texts [] = []
texts ((n, m) ∷ l) = m ∷ texts l

abbrev pub numbers : List (ℕ × Bytes) → List ℕ
numbers [] = []
numbers ((n, m) ∷ l) = n ∷ numbers l

module _ (c : ℕ) (count : ℤ) (size : magnitude count ≡ suc c) where
  is_due-rest : (n r k : ℕ) → n ≡ r + k * suc c → r < suc c → is_due count n ≡ some (r == 0)
  unfolding is_due
  is_due-rest n r k h l =
      let rest : n % suc c ≡ r =
        ap (λ (m : ℕ). m % suc c) h ∙ (add-mul-mod_self_right r k (suc c) ∙ mod-eq_of_lt l) in
      rw (is_due, size, rest) (ground arith)

  -- At the n-th message, with `wait` more before one that is due.
  is_due-wait : (n wait k : ℕ) → n + wait ≡ k * suc c → wait ≤ c → is_due count n ≡ some (wait == 0)
  is_due-wait n zero k h l = is_due-rest n 0 k (omega (arith, h)) (omega arith)
  is_due-wait n (suc wait) zero h l = absurd (omega (arith, h))
  is_due-wait n (suc wait) (suc k) h l =
      is_due-rest n (c - wait) k (omega (arith, h)) (omega arith) ∙ ap some (ground arith)

  -- Both programs send on each message that comes, in order, where the setting `every`, of one sign
  -- or the other, is `c + 1` in size. From the n-th message on, for a `wait` of at most `c` with which
  -- `n` comes to a multiple of `c + 1`, the first that is due comes after `wait` others, and then every
  -- (c + 1)-th: pipecount logs their numbers and pipedump the messages. For pipedump, msgpack can unpack
  -- each message that is due.
  pub pass_count-sent :
      (unpacks : Bytes → Bool) (ms : List Bytes) (n wait k : ℕ)
      → n + wait ≡ k * suc c
      → wait ≤ c
      → All (λ (m : Bytes). unpacks m ≡ true) (texts (every_nth c wait n ms))
      → (pass_count count n ms
          ≡ some (record { sent = ms; logged = numbers (every_nth c wait n ms); threw = false }))
        × (pass_dump unpacks count n ms
            ≡ some (record { sent = ms; logged = texts (every_nth c wait n ms); threw = false }))
  unfolding pass_count pass_dump
  pass_count-sent unpacks [] n wait k h l good = (refl, refl)
  pass_count-sent unpacks (m ∷ ms) n zero k h l (unpacked, good) =
      let (a, b) =
        pass_count-sent unpacks ms (n + 1) c (suc k) (omega (arith, h)) (omega arith) good in
      let due = is_due-wait n 0 k h l in
      (rw (pass_count, due, a) refl, rw (pass_dump, due, unpacked, b) refl)
  pass_count-sent unpacks (m ∷ ms) n (suc wait) k h l good =
      let (a, b) =
        pass_count-sent unpacks ms (n + 1) wait k (omega (arith, h)) (omega arith) good in
      let due : is_due count n ≡ some false =
        is_due-wait n (suc wait) k h l ∙ ap some (ground arith) in
      (rw (pass_count, due, a) refl, rw (pass_dump, due, b) refl)

  -- pipedump ends with the exception of msgpack at the first message, where it is due and does not come
  -- unpacked: it is not sent on.
  pass_dump-threw :
      (unpacks : Bytes → Bool) (m : Bytes) (ms : List Bytes) (n k : ℕ)
      → n ≡ k * suc c
      → unpacks m ≡ false
      → pass_dump unpacks count n (m ∷ ms) ≡ some (record { sent = []; logged = []; threw = true })
  unfolding pass_dump
  pass_dump-threw unpacks m ms n k h bad =
      rw (pass_dump, is_due-wait n 0 k (omega (arith, h)) (omega arith), bad) refl
