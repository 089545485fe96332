-- ===== src/Table.antt =====
-- The loops of machine/tune.cpp and machine/soak.cpp, which run a machine again and again and write a
-- table of results. What a run reads from outside is a `Ran`, with what is read back from a file that a
-- configuration has been written to. The command line is left out.
pub mod Lines
pub mod Aligned
pub mod Rows
pub mod Tuned
use skweltch.Prelude.{
  ℕ, zero, suc, ◌+◌, Bool, true, false, Option, none, some, Bytes, codes, ltb, if◌then◌else◌, List,
  [], ◌∷◌, ◌++◌, ℤ, pos, ◌+ℤ◌, ◌-ℤ◌,
}
use skweltch.Result.{Result, ok, threw, undefined, Exception, runtime_error, other_error, ◌>>=◌}
use skweltch.Json.{Value, null, LexicalCast}
use skweltch.Json.JsonObject.{get_int, get_child}
use skweltch.Pipes.{minus_one}
use skweltch.Tasks.{copies}
use skweltch.Tuner.{Double, Tuning, is_negative, tune, var_count}
use skweltch.Table.Lines.{Line, header, soak_header, row, with_report}
use skweltch.Runner.{Pass, Report, run_one}

-- The interrupt at the head of the loop and behind the run, what a configuration that is written is
-- read back as, and what `runOne` reads from outside.
pub record Ran (Real : Type 0) : Type 0 where
  pub interrupted : Bool
  pub reread : Value Real → Option (Value Real)
  pub bound : Bool
  pub sent : Bool
  pub passes : List (Pass Real)
  pub interrupted_after : Bool

-- A group: the interrupt before it, and its runs.
pub record Group (Real : Type 0) : Type 0 where
  pub interrupted : Bool
  pub runs : List (Ran Real)

-- What tune changes: the configuration, the generator and `failonerror` of the tuner, and the table,
-- the last line first.
pub record Tune (Real Gen : Type 0) : Type 0 where
  pub config : Value Real
  pub gen : Gen
  pub fail_on_error : Bool
  pub table : List Line

-- A loop goes on, or `break` leaves it; the program logs an exception and returns, or is ended by one;
-- or it waits for ever.
pub data Flow (S : Type 0) : Type 0 where
  goes_on leaves logged dies waits : S → Flow S

abbrev pub on_exception : {S : Type 0} → Exception → S → Flow S
on_exception runtime_error s = logged s
on_exception other_error s = dies s

abbrev pub state : {S : Type 0} → Flow S → S
state (goes_on s) = s
state (leaves s) = s
state (logged s) = s
state (dies s) = s
state (waits s) = s

-- What comes behind a loop, where no exception has ended it.
abbrev pub after_loop : {S : Type 0} → Flow S → (S → Flow S) → Flow S
after_loop (goes_on s) next = next s
after_loop (leaves s) next = next s
after_loop (logged s) next = logged s
after_loop (dies s) next = dies s
after_loop (waits s) next = waits s

abbrev pub in_loop : {S : Type 0} → Flow S → (S → Flow S) → Flow S
in_loop (goes_on s) next = next s
in_loop (leaves s) next = goes_on s
in_loop (logged s) next = logged s
in_loop (dies s) next = dies s
in_loop (waits s) next = waits s

abbrev pub text_of : Option Bytes → Bytes
text_of none = []
text_of (some s) = s

module _ {Real : Type 0} (writer : Value Real → Bytes) (cast : LexicalCast Real)
    (split : Bytes → List Bytes) (control : ℤ) (decimal : ℤ → Bytes)
    (spawn : List Bytes → Bytes → ℕ) (double : Double Real) (differs : Real → Real → Bool) where
  -- What is made of `runOne`: whether it has passed, and the table.
  abbrev pub run_flow :
      {S : Type 0}
      → Option (List Bytes × Result (Bool × Option Report))
      → S
      → (Bool → Option Report → Flow S)
      → Flow S
  run_flow none s next = waits s
  run_flow (some (commands, ok (good, report))) s next = next good report
  run_flow (some (commands, threw e)) s next = on_exception e s
  run_flow (some (commands, undefined)) s next = dies s

  abbrev pub after_soak : Ran Real → List Line → Bool → Option Report → Flow (List Line)
  after_soak r ls good report =
      if good
      then if r.interrupted_after
        then leaves (with_report report ls)
        else goes_on (with_report report ls)
      else leaves (with_report report ls)

  -- The body of the loop of soak, of a file that is the same in each run; an exception returns 1.
  unfoldable pub soak_once : ℤ → Ran Real → Value Real → List Line → Flow (List Line)
  soak_once iterations r config ls =
      run_flow
        (run_one writer cast split control decimal spawn double.of_int differs (r.reread config)
          r.bound r.sent true null iterations r.passes (pos 0) (pos 0) [])
        ls (after_soak r ls)

  unfoldable pub soak_runs : ℤ → ℕ → List (Ran Real) → Value Real → List Line → Flow (List Line)
  unfolding soak_once
  soak_runs iterations zero rs config ls = goes_on ls
  soak_runs iterations (suc n) [] config ls = waits ls
  soak_runs iterations (suc n) (r ∷ rs) config ls =
      in_loop (soak_once iterations r config ls) (λ ms. soak_runs iterations n rs config ms)

  -- `main` of soak behind its command line.
  abbrev pub soak_main : ℤ → ℕ → List (Ran Real) → Value Real → Flow (List Line)
  soak_main iterations count rs config = soak_runs iterations count rs config (soak_header ∷ [])

  module _ {Gen : Type 0} (draw : ℤ → ℤ → Gen → Result (ℤ × Gen)) (tuner success : Value Real)
      (iterations : ℤ) where
    abbrev pub tuned : Tuning Real Gen → List Line → Tune Real Gen
    tuned t ls = record {
      config = t.config;
      gen = t.gen;
      fail_on_error = t.fail_on_error;
      table = ls;
    }

    abbrev pub after_tuned :
        Tuning Real Gen → List Line → Bool → Option Report → Flow (Tune Real Gen)
    after_tuned t ls good report =
        let u = tuned t (with_report report ls) in
        if good then goes_on u else if t.fail_on_error then leaves u else goes_on u

    -- A run with the configuration that has been tuned.
    unfoldable pub run_tuned : ℤ → ℤ → Ran Real → Tuning Real Gen → List Line → Flow (Tune Real Gen)
    run_tuned i j r t ls =
        run_flow
          (run_one writer cast split control decimal spawn double.of_int differs (r.reread t.config)
            r.bound r.sent t.fail_on_error success iterations r.passes i j (text_of t.varstring))
          (tuned t ls) (after_tuned t ls)

    -- The body of the inner loop.
    unfoldable pub tune_once : ℤ → ℤ → Ran Real → Tune Real Gen → Flow (Tune Real Gen)
    unfolding run_tuned
    tune_once i j r s =
        elim (tune cast split double draw tuner i j s.config s.gen s.fail_on_error (some [])) [
          | ok (t, more) ↦ if more then run_tuned i j r t s.table else leaves (tuned t s.table)
          | threw e ↦ on_exception e s
          | undefined ↦ dies s
        ]

    -- The inner loop, over the mutations from `j` on.
    unfoldable pub tune_runs : ℤ → ℕ → ℕ → List (Ran Real) → Tune Real Gen → Flow (Tune Real Gen)
    unfolding tune_once
    tune_runs i j zero rs s = goes_on s
    tune_runs i j (suc n) [] s = waits s
    tune_runs i j (suc n) (r ∷ rs) s =
        if r.interrupted
        then leaves s
        else in_loop (tune_once i (pos j) r s) (λ t. tune_runs i (suc j) n rs t)

    abbrev pub with_header : ℕ → Tune Real Gen → Tune Real Gen
    with_header n s = if ltb 0 n then record s { table = header n ∷ s.table } else s

    -- The body of the outer loop.
    unfoldable pub tune_group : ℤ → ℕ → List (Ran Real) → Tune Real Gen → Flow (Tune Real Gen)
    unfolding tune_runs
    tune_group i mutations rs s =
        let reset = record s { fail_on_error = true } in
        elim (var_count tuner i) [
          | ok n ↦ tune_runs i 0 mutations rs (with_header n reset)
          | threw e ↦ on_exception e reset
          | undefined ↦ dies reset
        ]

    -- The outer loop, over the groups from `i` on.
    unfoldable pub tune_groups :
        ℕ → ℕ → ℕ → List (Group Real) → Tune Real Gen → Flow (Tune Real Gen)
    unfolding tune_group
    tune_groups i mutations zero gs s = goes_on s
    tune_groups i mutations (suc n) [] s = waits s
    tune_groups i mutations (suc n) (g ∷ gs) s =
        if g.interrupted
        then leaves s
        else after_loop (tune_group (pos i) mutations g.runs s)
            (λ t. tune_groups (suc i) mutations n gs t)

  -- `main` of tune behind its command line, with the configurations that have been read; `none` is the
  -- `return 1` of a number that is missing.
  unfoldable pub tune_main :
      {Gen : Type 0}
      → (ℤ → ℤ → Gen → Result (ℤ × Gen))
      → Gen
      → Value Real
      → Value Real
      → List (Group Real)
      → Result (Option (Flow (Tune Real Gen)))
  unfolding tune_groups
  tune_main draw gen config tuner gs = do
    iterations ← get_int tuner (codes "iterations") minus_one
    if is_negative iterations then ok none else (do
      mutations ← get_int tuner (codes "mutations") minus_one
      if is_negative mutations then ok none else (do
        groups ← get_int tuner (codes "groups") minus_one
        if is_negative groups then ok none else (do
          success ← get_child tuner (codes "success")
          ok (
              some (
                tune_groups draw tuner success iterations 1 (copies mutations) (copies groups) gs
                  (record { config = config; gen = gen; fail_on_error = true; table = [] }))))))
