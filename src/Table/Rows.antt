-- ===== src/Table/Rows.antt =====
-- A report keeps a table aligned, and the table that soak writes.
use skweltch.Prelude.{
  ℕ, zero, suc, ◌+◌, ◌≡◌, refl, ap, sym, ◌∙◌, Bool, true, Option, none, some, Bytes, List, [], ◌∷◌,
  ℤ, pos,
}
use skweltch.Result.{Result, ok, threw, undefined}
use skweltch.Json.{Value, null, LexicalCast}
use skweltch.Tuner.{Double}
use skweltch.Tuner.Variables.{tabs}
use skweltch.Runner.{Report}
use skweltch.Runner.Reported.{OfVars, Tells, run_one-Tells}
use skweltch.Table.{
  Ran, Flow, goes_on, leaves, state, run_flow, soak_runs, soak_main, soak_once, after_soak,
}
use skweltch.Table.Lines.{Line, soak_header, show_line, with_report}
use skweltch.Table.Aligned.{width, Aligned, tabs-row, on_exception-state, in_loop-state, if-state}

module _ {Real : Type 0} (writer : Value Real → Bytes) (cast : LexicalCast Real)
    (split : Bytes → List Bytes) (control : ℤ) (decimal : ℤ → Bytes)
    (spawn : List Bytes → Bytes → ℕ) (double : Double Real) (differs : Real → Real → Bool)
    (show_real : Real → Bytes) (plus : Real → Real → Real) (plain : (n : ℤ) → tabs (decimal n) ≡ 0)
    (plain_real : (x : Real) → tabs (show_real x) ≡ 0) where
  abbrev pub Fits : ℕ → List Line → Type 0
  Fits tabs_above ls =
      Aligned decimal show_real double plus ls
      × (width decimal show_real double plus ls ≡ tabs_above)

  pub with_report-Fits :
      (n : ℕ) (vars : Bytes) (report : Option Report) (ls : List Line)
      → Fits n ls
      → tabs vars + 8 ≡ n
      → OfVars vars report
      → Fits n (with_report report ls)
  with_report-Fits n vars none ls h e of_vars = h
  with_report-Fits n vars (some r) ls (h, k) e of_vars = (
    (
      tabs-row decimal show_real double plus plain plain_real r
          ∙ ap (λ (t : Bytes). tabs t + 8) of_vars
          ∙ e
          ∙ sym k,
      h,
    ),
    k,
  )

  pub run_flow-state :
      {S : Type 0} (Q : S → Type 0) (vars : Bytes)
      (x : Option (List Bytes × Result (Bool × Option Report))) (s : S)
      (next : Bool → Option Report → Flow S)
      → Tells vars x
      → Q s
      → ((good : Bool) (report : Option Report) → OfVars vars report → Q (state (next good report)))
      → Q (state (run_flow writer cast split control decimal spawn double differs x s next))
  run_flow-state Q vars none s next tells h k = h
  run_flow-state Q vars (some (commands, ok (good, report))) s next tells h k = k good report tells
  run_flow-state Q vars (some (commands, threw e)) s next tells h k = on_exception-state Q e s h
  run_flow-state Q vars (some (commands, undefined)) s next tells h k = h

  soak_once-Fits :
      (iterations : ℤ) (r : Ran Real) (config : Value Real) (ls : List Line)
      → Fits 8 ls
      → Fits 8 (
          state (
            soak_once writer cast split control decimal spawn double differs iterations r config
              ls))
  unfolding soak_once
  soak_once-Fits iterations r config ls h =
      run_flow-state (Fits 8) [] _ ls
        (after_soak writer cast split control decimal spawn double differs r ls)
        (run_one-Tells writer cast split control decimal spawn double.of_int differs
          (r.reread config) r.bound r.sent true null iterations r.passes (pos 0) (pos 0) [])
        h
        (λ good report of_vars.
          let k : Fits 8 (with_report report ls) = with_report-Fits 8 [] report ls h refl of_vars in
          if-state (Fits 8) good _ (leaves (with_report report ls))
            (if-state (Fits 8) r.interrupted_after (leaves (with_report report ls))
              (goes_on (with_report report ls)) k k)
            k)

  pub soak_runs-Fits :
      (iterations : ℤ) (n : ℕ) (rs : List (Ran Real)) (config : Value Real) (ls : List Line)
      → Fits 8 ls
      → Fits 8 (
          state (
            soak_runs writer cast split control decimal spawn double differs iterations n rs config
              ls))
  unfolding soak_runs
  soak_runs-Fits iterations zero rs config ls h = h
  soak_runs-Fits iterations (suc n) [] config ls h = h
  soak_runs-Fits iterations (suc n) (r ∷ rs) config ls h =
      in_loop-state (Fits 8)
        (soak_once writer cast split control decimal spawn double differs iterations r config ls) _
        (soak_once-Fits iterations r config ls h)
        (λ ms k. soak_runs-Fits iterations n rs config ms k)

  pub soak_main-Fits :
      (iterations : ℤ) (count : ℕ) (rs : List (Ran Real)) (config : Value Real)
      → Fits 8 (
          state (
            soak_main writer cast split control decimal spawn double differs iterations count rs
              config))
  unfolding show_line
  soak_main-Fits iterations count rs config =
      soak_runs-Fits iterations count rs config (soak_header ∷ []) (tt, refl)
