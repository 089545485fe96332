-- ===== src/Runner.antt =====
-- machine/MachineRunner.cpp: a machine is run a number of times, and the results of the runs are
-- compared with the success condition and gathered. What a run reads from outside is a `Pass`; the
-- test of two `double` for a difference above 0.005 is the argument `differs`. Waiting for processes
-- and writing their ids to a file are left out.
pub mod Times
pub mod Gathered
pub mod Reported
use skweltch.Prelude.{
  ℕ, zero, suc, ◌+◌, Bool, true, false, not, ◌&&◌, Option, none, some, Bytes, codes, equal, ltb,
  leb, ◌==◌, if◌then◌else◌, List, [], ◌∷◌, ℤ, pos, negsuc, ◌+ℤ◌, pos_part, int_limit,
}
use skweltch.Result.{Result, ok, threw, undefined, other_error, ◌>>=◌}
use skweltch.Json.{Value, real, Object, end_object, pair, LexicalCast}
use skweltch.Json.JsonObject.{get_obj, get_int, get_double, get_as_string, value_text, is_null}
use skweltch.Pipes.{minus_one}
use skweltch.Tasks.{Started, copies, start, do_vent}

-- The interrupt at the head of the loop and behind the receive, and the value that is received.
pub record Pass (Real : Type 0) : Type 0 where
  pub interrupted_before : Bool
  pub interrupted_after : Bool
  pub results : Value Real

-- The numbers that are gathered.
pub record Stats : Type 0 where
  pub fail : ℕ
  pub low : ℤ
  pub high : ℤ
  pub sum : ℤ

abbrev pub no_stats : Stats
no_stats = record { fail = 0; low = minus_one; high = minus_one; sum = pos 0 }

-- What the results of a run are found to be.
pub data Judgement : Type 0 where
  failed : Judgement
  passed : ℤ → Judgement

abbrev pub less : ℤ → ℤ → Bool
less (pos a) (pos b) = ltb a b
less (pos a) (negsuc b) = false
less (negsuc a) (pos b) = true
less (negsuc a) (negsuc b) = ltb b a

-- `int` addition, not defined where the sum does not fit.
abbrev pub fits : ℤ → Bool
fits (pos n) = ltb n int_limit
fits (negsuc n) = ltb n int_limit

abbrev pub add_int : ℤ → ℤ → Result ℤ
add_int a b = if fits (a +ℤ b) then ok (a +ℤ b) else undefined

-- `fail`, `low`, `high` and `sum` after a run.
unfoldable pub gather : Judgement → Stats → Result Stats
gather failed s = ok (record { fail = suc s.fail; low = s.low; high = s.high; sum = s.sum })
gather (passed elapsed) s = do
  sum ← add_int s.sum elapsed
  ok (record {
    fail = s.fail;
    low = if less s.low (pos 0) then elapsed else if less elapsed s.low then elapsed else s.low;
    high = if less s.high (pos 0) then elapsed else if less s.high elapsed then elapsed else s.high;
    sum = sum;
  })

abbrev pub is_bad : Judgement → Bool
is_bad failed = true
is_bad (passed elapsed) = false

module _ {Real : Type 0} (cast : LexicalCast Real) (of_int : ℤ → Real)
    (differs : Real → Real → Bool) where
  -- Whether a value of the success condition is not met.
  unfoldable pub is_missed : Value Real → Bytes → Value Real → Result Bool
  is_missed results k (real v) = do rv ← get_double of_int results k; ok (differs v rv)
  is_missed results k v = do
    rv ← get_as_string cast results k
    ok (not (equal (value_text cast v) rv))

  unfoldable pub is_any_missed : Value Real → Object Real → Result Bool
  unfolding is_missed
  is_any_missed results end_object = ok false
  is_any_missed results (pair k v o) = do
    bad ← is_missed results k v
    elim bad [ true ↦ ok true | false ↦ is_any_missed results o ]

  -- The results of a run against the success condition.
  unfoldable pub judge : Value Real → Value Real → Result Judgement
  unfolding is_any_missed
  judge success results =
      if is_null results
      then ok failed
      else ((if is_null success
            then ok false
            else (get_obj success >>= λ o. is_any_missed results o))
          >>= λ bad.
              if bad
              then ok failed
              else (get_int results (codes "elapsed") minus_one >>= λ elapsed. ok (passed elapsed)))

  -- A run that is judged: whether it is bad, and the numbers after it.
  unfoldable pub judge_run : Value Real → Value Real → Stats → Result (Bool × Stats)
  unfolding judge gather
  judge_run success results s = do j ← judge success results; t ← gather j s; ok (is_bad j, t)

  module _ (fail_on_error : Bool) (success : Value Real)
      (vent : List Bytes → List Bytes × Result Bool) where
    -- The loop over `n` more runs, from the commands that have been run; `vent` is `mon.doVent`. `none`
    -- waits for ever, and no numbers are a `return false`.
    unfoldable pub run_passes :
        ℕ → List (Pass Real) → List Bytes → Stats → Option (List Bytes × Result (Option Stats))
    unfolding judge_run
    run_passes zero ps commands s = some (commands, ok (some s))
    run_passes (suc n) [] commands s = none
    run_passes (suc n) (p ∷ ps) commands s =
        let (after, r) = vent commands in
        if p.interrupted_before then some (commands, ok (some s)) else elim r [
          | ok false ↦ some (after, ok none)
          | threw e ↦ some (after, threw e)
          | undefined ↦ some (after, undefined)
          | ok true ↦
              if p.interrupted_after
              then some (after, ok (some s))
              else elim (judge_run success p.results s) [
                | threw e ↦ some (after, threw e)
                | undefined ↦ some (after, undefined)
                | ok (bad, t) ↦
                    if bad && fail_on_error
                    then some (after, ok (some t))
                    else run_passes n ps after t
              ]
        ]

-- What is written to the table of results.
pub record Report : Type 0 where
  pub group : ℤ
  pub iter : ℤ
  pub vars : Bytes
  pub iterations : ℤ
  pub stats : Stats

-- Behind the loop: the kill message, which is sent or not, the report, and what `runOne` returns.
abbrev pub close : Bool → ℤ → ℤ → Bytes → ℤ → Result (Option Stats) → Result (Bool × Option Report)
close sent group iter vars iterations (ok none) = ok (false, none)
close sent group iter vars iterations (ok (some s)) =
    if sent
    then ok (
      s.fail == 0,
      some (record { group = group; iter = iter; vars = vars; iterations = iterations; stats = s }),
    )
    else ok (false, none)
close sent group iter vars iterations (threw e) = threw e
close sent group iter vars iterations undefined = undefined

abbrev pub closed :
    Bool
    → ℤ
    → ℤ
    → Bytes
    → ℤ
    → Option (List Bytes × Result (Option Stats))
    → Option (List Bytes × Result (Bool × Option Report))
closed sent group iter vars iterations none = none
closed sent group iter vars iterations (some (commands, r)) =
    some (commands, close sent group iter vars iterations r)

abbrev pub vent_of : (Started → Started × Result Bool) → List Bytes → List Bytes × Result Bool
vent_of do_it commands =
    let (t, r) = do_it (record { commands = commands; pids = some [] }) in (t.commands, r)

module _ {Real : Type 0} (writer : Value Real → Bytes) (cast : LexicalCast Real)
    (split : Bytes → List Bytes) (control : ℤ) (decimal : ℤ → Bytes)
    (spawn : List Bytes → Bytes → ℕ) (of_int : ℤ → Real) (differs : Real → Real → Bool) where
  -- The machine has been started, or not.
  abbrev pub after_start :
      Value Real
      → Bool
      → Value Real
      → ℤ
      → List (Pass Real)
      → Started × Result Bool
      → Option (List Bytes × Result (Option Stats))
  after_start root fail_on_error success iterations passes (t, ok true) =
      run_passes cast of_int differs fail_on_error success
        (vent_of (do_vent writer cast split control decimal spawn root)) (copies iterations) passes
        t.commands no_stats
  after_start root fail_on_error success iterations passes (t, ok false) =
      some (t.commands, threw other_error)
  after_start root fail_on_error success iterations passes (t, threw e) = some (t.commands, threw e)
  after_start root fail_on_error success iterations passes (t, undefined) =
      some (t.commands, undefined)

  -- `runOne`, of the machine that is read, `none` where it is not JSON, and of whether the control
  -- socket is bound and takes the kill message.
  unfoldable pub run_one :
      Option (Value Real)
      → Bool
      → Bool
      → Bool
      → Value Real
      → ℤ
      → List (Pass Real)
      → ℤ
      → ℤ
      → Bytes
      → Option (List Bytes × Result (Bool × Option Report))
  unfolding run_passes
  run_one none bound sent fail_on_error success iterations passes group iter vars =
      some ([], ok (false, none))
  run_one (some root) bound sent fail_on_error success iterations passes group iter vars =
      if bound
      then closed sent group iter vars iterations (
          after_start root fail_on_error success iterations passes (
            start writer cast split control decimal spawn root
              (record { commands = []; pids = some [] })))
      else some ([], ok (false, none))
