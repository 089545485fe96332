-- ===== src/Runner/Times.antt =====
-- The numbers of runs that failed and of runs that took a time.
use skweltch.Prelude.{
  ℕ, ◌+◌, ◌<◌, ◌≡◌, refl, Bool, true, false, ◌&&◌, Option, none, some, ltb, if◌then◌else◌, List, [],
  ◌∷◌, ℤ, pos, ◌+ℤ◌, int_limit, arith,
}
use skweltch.Result.{ok}
use skweltch.Pipes.{minus_one}
use skweltch.Runner.{Stats, Judgement, failed, passed, gather, fits, less}

-- Runs: `none` for one that failed, and the time of one that passed.
abbrev pub judgement_of : Option ℕ → Judgement
judgement_of none = failed
judgement_of (some e) = passed (pos e)

abbrev pub failure : Option ℕ → ℕ
failure none = 1
failure (some e) = 0

abbrev pub time : Option ℕ → ℕ
time none = 0
time (some e) = e

abbrev pub failures : List (Option ℕ) → ℕ
failures [] = 0
failures (r ∷ rs) = failure r + failures rs

abbrev pub total_time : List (Option ℕ) → ℕ
total_time [] = 0
total_time (r ∷ rs) = time r + total_time rs

-- The least and the greatest time, if there is one.
abbrev pub least_of : Option ℕ → Option ℕ → Option ℕ
least_of none b = b
least_of (some a) none = some a
least_of (some a) (some b) = some (if ltb b a then b else a)

abbrev pub greatest_of : Option ℕ → Option ℕ → Option ℕ
greatest_of none b = b
greatest_of (some a) none = some a
greatest_of (some a) (some b) = some (if ltb a b then b else a)

abbrev pub least : List (Option ℕ) → Option ℕ
least [] = none
least (r ∷ rs) = least_of r (least rs)

abbrev pub greatest : List (Option ℕ) → Option ℕ
greatest [] = none
greatest (r ∷ rs) = greatest_of r (greatest rs)

abbrev pub as_int : Option ℕ → ℤ
as_int none = minus_one
as_int (some e) = pos e

abbrev pub stats : ℕ → Option ℕ → Option ℕ → ℕ → Stats
stats f lo hi sum = record { fail = f; low = as_int lo; high = as_int hi; sum = pos sum }

-- The numbers of all the runs.
abbrev pub stats_of : List (Option ℕ) → Stats
stats_of rs = stats (failures rs) (least rs) (greatest rs) (total_time rs)

pub same_stats :
    (f g : ℕ) (lo lo' hi hi' : Option ℕ) (sum sum' : ℕ)
    → f ≡ g
    → lo ≡ lo'
    → hi ≡ hi'
    → sum ≡ sum'
    → stats f lo hi sum ≡ stats g lo' hi' sum'
same_stats f g lo lo' hi hi' sum sum' a b c d = rw (a, b, c, d) refl

pub and_false : (b : Bool) → (b && false) ≡ false
and_false true = refl
and_false false = refl

next_low :
    (lo : Option ℕ) (e : ℕ)
    → (if less (as_int lo) (pos 0)
        then pos e
        else if less (pos e) (as_int lo)
        then pos e
        else as_int lo)
      ≡ as_int (least_of lo (some e))
next_low none e = refl
next_low (some a) e = ground arith

next_high :
    (hi : Option ℕ) (e : ℕ)
    → (if less (as_int hi) (pos 0)
        then pos e
        else if less (as_int hi) (pos e)
        then pos e
        else as_int hi)
      ≡ as_int (greatest_of hi (some e))
next_high none e = refl
next_high (some a) e = ground arith

pub gather-passed :
    (f : ℕ) (lo hi : Option ℕ) (sum e : ℕ)
    → sum + e < int_limit
    → gather (passed (pos e)) (stats f lo hi sum)
      ≡ ok (stats f (least_of lo (some e)) (greatest_of hi (some e)) (sum + e))
unfolding gather
gather-passed f lo hi sum e small =
    let fits_int : fits (pos sum +ℤ pos e) ≡ true = ground arith in
    let sum_eq : pos sum +ℤ pos e ≡ pos (sum + e) = ground arith in
    rw (gather, fits_int, next_low lo e, next_high hi e, sum_eq) refl

pub least_of_assoc : (a b c : Option ℕ) → least_of (least_of a b) c ≡ least_of a (least_of b c)
least_of_assoc none b c = refl
least_of_assoc (some a) none c = refl
least_of_assoc (some a) (some b) none = refl
least_of_assoc (some a) (some b) (some c) = ground arith

pub greatest_of_assoc :
    (a b c : Option ℕ) → greatest_of (greatest_of a b) c ≡ greatest_of a (greatest_of b c)
greatest_of_assoc none b c = refl
greatest_of_assoc (some a) none c = refl
greatest_of_assoc (some a) (some b) none = refl
greatest_of_assoc (some a) (some b) (some c) = ground arith

pub least_of-none : (a : Option ℕ) → least_of a none ≡ a
least_of-none none = refl
least_of-none (some a) = refl

pub greatest_of-none : (a : Option ℕ) → greatest_of a none ≡ a
greatest_of-none none = refl
greatest_of-none (some a) = refl
