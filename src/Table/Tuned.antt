-- ===== src/Table/Tuned.antt =====
-- The table that tune writes.
use skweltch.Prelude.{
  ℕ, zero, suc, ◌+◌, ◌≡◌, ◌≢◌, sym, ◌∙◌, inl, inr, Bool, true, false, Option, none, some, Bytes,
  codes, ltb, if◌then◌else◌, List, [], ◌∷◌, ℤ, pos, Bool-cases, arith,
}
use skweltch.Result.{Result, ok, >>=-ok, same_ok, Result-cases}
use skweltch.Json.{Value, LexicalCast}
use skweltch.Json.JsonObject.{get_int, get_child}
use skweltch.Pipes.{minus_one}
use skweltch.Tasks.{copies}
use skweltch.Tuner.{Double, Tuning, is_negative, tune, var_count}
use skweltch.Tuner.Variables.{tabs, fields, tune-var_count}
use skweltch.Runner.Reported.{run_one-Tells}
use skweltch.Table.{
  Ran, Group, Tune, Flow, leaves, state, text_of, with_header, tuned, run_tuned, tune_once,
  tune_runs, tune_group, tune_groups, tune_main, soak_main, after_tuned,
}
use skweltch.Table.Lines.{with_report}
use skweltch.Table.Aligned.{
  width, Aligned, tabs-header, on_exception-state, in_loop-state, after_loop-state, if-state,
}
use skweltch.Table.Rows.{with_report-Fits, run_flow-state, soak_main-Fits}

module _ {Real : Type 0} (writer : Value Real → Bytes) (cast : LexicalCast Real)
    (split : Bytes → List Bytes) (control : ℤ) (decimal : ℤ → Bytes)
    (spawn : List Bytes → Bytes → ℕ) (double : Double Real) (differs : Real → Real → Bool)
    (show_real : Real → Bytes) (plus : Real → Real → Real) (plain : (n : ℤ) → tabs (decimal n) ≡ 0)
    (plain_real : (x : Real) → tabs (show_real x) ≡ 0)
    (plain_cast : (n : ℤ) → tabs (cast.of_int n) ≡ 0) (full : (n : ℤ) → cast.of_int n ≢ []) where
  module _ {Gen : Type 0} (draw : ℤ → ℤ → Gen → Result (ℤ × Gen)) (tuner success : Value Real)
      (iterations : ℤ) where
    -- In a group of `n` variables, a table with its header or, if there are none, any.
    abbrev Ready : ℕ → Tune Real Gen → Type 0
    Ready n s =
        Aligned decimal show_real double plus s.table
        × (ltb 0 n ≡ true → width decimal show_real double plus s.table ≡ n + 7)

    tabs-fields : (vars : Bytes) (n : ℕ) → fields vars ≡ n → ltb 0 n ≡ true → tabs vars + 8 ≡ n + 7
    tabs-fields [] n e h = ground arith
    tabs-fields (c ∷ cs) n e h = omega (arith, e)

    run_tuned-Ready :
        (i j : ℤ) (r : Ran Real) (t : Tuning Real Gen) (s : Tune Real Gen)
        → fields (text_of t.varstring) ≡ t.vars
        → ltb 0 t.vars ≡ true
        → Ready t.vars s
        → Ready t.vars (
            state (
              run_tuned writer cast split control decimal spawn double differs draw tuner success
                iterations i j r t s.table))
    unfolding run_tuned
    run_tuned-Ready i j r t s row_fits some_vars (h, k) =
        let wide = k some_vars in
        run_flow-state writer cast split control decimal spawn double differs show_real plus plain
          plain_real (Ready t.vars) (text_of t.varstring) _
          (tuned writer cast split control decimal spawn double differs draw tuner success
            iterations t s.table)
          (after_tuned writer cast split control decimal spawn double differs draw tuner success
            iterations t s.table)
          (run_one-Tells writer cast split control decimal spawn double.of_int differs
            (r.reread t.config) r.bound r.sent t.fail_on_error success iterations r.passes i j
            (text_of t.varstring))
          (h, k)
          (λ good report of_vars.
            let (a, w) =
              with_report-Fits writer cast split control decimal spawn double differs show_real plus
                plain plain_real (t.vars + 7) (text_of t.varstring) report s.table (h, wide)
                (tabs-fields (text_of t.varstring) t.vars row_fits some_vars) of_vars in
            let ready : Ready t.vars (
                tuned writer cast split control decimal spawn double differs draw tuner success
                  iterations t (with_report report s.table)) =
              (a, λ some_there. w) in
            if-state (Ready t.vars) good _ _ ready
              (if-state (Ready t.vars) t.fail_on_error _ _ ready ready))

    abbrev once : ℤ → ℤ → Ran Real → Tune Real Gen → Flow (Tune Real Gen)
    once =
        tune_once writer cast split control decimal spawn double differs draw tuner success
          iterations

    tune_once-Ready :
        (n : ℕ) (i j : ℤ) (r : Ran Real) (s : Tune Real Gen)
        → var_count tuner i ≡ ok n
        → Ready n s
        → Ready n (state (once i j r s))
    unfolding tune_once
    tune_once-Ready n i j r s counted ready =
        elim (Result-cases
          (tune cast split double draw tuner i j s.config s.gen s.fail_on_error (some []))) [
            | inl ((t, more), e) ↦ rw (tune_once, e) (tuned_well t more e)
            | inr (inl (x, e)) ↦ rw (tune_once, e) (on_exception-state (Ready n) x s ready)
            | inr (inr e) ↦ rw (tune_once, e) ready
          ]
      where
        tuned_well :
            (t : Tuning Real Gen) (more : Bool)
            → tune cast split double draw tuner i j s.config s.gen s.fail_on_error (some [])
              ≡ ok (t, more)
            → Ready n (
                state (
                  if more
                  then run_tuned writer cast split control decimal spawn double differs draw tuner
                      success iterations i j r t s.table
                  else leaves (
                      tuned writer cast split control decimal spawn double differs draw tuner
                        success iterations t s.table)))
        tuned_well t more e =
            let (count, done, (vars, text, fit)) =
              tune-var_count cast split double draw plain_cast full tuner i j s.config s.gen
                s.fail_on_error more t e in
            let same : n ≡ t.vars = same_ok (sym counted ∙ count) in
            elim more
                as (λ b.
                  (b ≡ ltb 0 t.vars)
                  → Ready n (
                      state (
                        if b
                        then run_tuned writer cast split control decimal spawn double differs draw
                            tuner success iterations i j r t s.table
                        else leaves (
                            tuned writer cast split control decimal spawn double differs draw tuner
                              success iterations t s.table)))) [
                                | true ↦ λ some_vars. rw same (
                                    run_tuned-Ready i j r t s (rw text fit) (sym some_vars)
                                      (rw same at ready))
                                | false ↦ λ no_vars. ready
                              ]
              done

    tune_runs-Ready :
        (n : ℕ) (i : ℤ) (j m : ℕ) (rs : List (Ran Real)) (s : Tune Real Gen)
        → var_count tuner i ≡ ok n
        → Ready n s
        → Ready n (
            state (
              tune_runs writer cast split control decimal spawn double differs draw tuner success
                iterations i j m rs s))
    unfolding tune_runs
    tune_runs-Ready n i j zero rs s counted ready = ready
    tune_runs-Ready n i j (suc m) [] s counted ready = ready
    tune_runs-Ready n i j (suc m) (r ∷ rs) s counted ready =
        if-state (Ready n) r.interrupted (leaves s) _ ready (
          in_loop-state (Ready n) (once i (pos j) r s) _
            (tune_once-Ready n i (pos j) r s counted ready)
            (λ t k. tune_runs-Ready n i (suc j) m rs t counted k))

    abbrev Good : Tune Real Gen → Type 0
    Good s = Aligned decimal show_real double plus s.table

    abbrev headed : ℕ → Tune Real Gen → Tune Real Gen
    headed =
        with_header writer cast split control decimal spawn double differs draw tuner success
          iterations

    headed-Ready : (n : ℕ) (s : Tune Real Gen) → Good s → Ready n (headed n s)
    headed-Ready n s good = elim (Bool-cases (ltb 0 n)) [
      | inl some_vars ↦
          rw some_vars (good, λ there. tabs-header decimal show_real double plus plain plain_real n)
      | inr no_vars ↦ rw no_vars (good, λ there. absurd (cc there))
    ]

    tune_group-Good :
        (i : ℤ) (m : ℕ) (rs : List (Ran Real)) (s : Tune Real Gen)
        → Good s
        → Good (
            state (
              tune_group writer cast split control decimal spawn double differs draw tuner success
                iterations i m rs s))
    unfolding tune_group
    tune_group-Good i m rs s good = elim (Result-cases (var_count tuner i)) [
      | inl (n, counted) ↦
          rw (tune_group, counted)
            (tune_runs-Ready n i 0 m rs (headed n (record s { fail_on_error = true })) counted
              (headed-Ready n (record s { fail_on_error = true }) good)).0
      | inr (inl (x, e)) ↦
          rw (tune_group, e) (on_exception-state Good x (record s { fail_on_error = true }) good)
      | inr (inr e) ↦ rw (tune_group, e) good
    ]

    tune_groups-Good :
        (i m n : ℕ) (gs : List (Group Real)) (s : Tune Real Gen)
        → Good s
        → Good (
            state (
              tune_groups writer cast split control decimal spawn double differs draw tuner success
                iterations i m n gs s))
    unfolding tune_groups
    tune_groups-Good i m zero gs s good = good
    tune_groups-Good i m (suc n) [] s good = good
    tune_groups-Good i m (suc n) (g ∷ gs) s good = if-state Good g.interrupted (leaves s) _ good (
        after_loop-state Good
          (tune_group writer cast split control decimal spawn double differs draw tuner success
            iterations (pos i) m g.runs s)
          _ (tune_group-Good (pos i) m g.runs s good) (λ t k. tune_groups-Good (suc i) m n gs t k))

  -- A number of the tuner's configuration that `main` tests.
  is_negative-ok :
      {A : Type 0} (n : ℤ) (next : Result (Option A)) (a : A)
      → (if is_negative n then ok none else next) ≡ ok (some a)
      → next ≡ ok (some a)
  is_negative-ok n next a e = elim (Bool-cases (is_negative n)) [
    | inl below ↦ absurd (cc (rw below at e))
    | inr there ↦ rw there at e
  ]

  -- In the tables that tune and soak write, up to wherever they end, each row has as many tabs as the
  -- header above it, if numbers are written without tabs and an `int` not as an empty text.
  pub tune_main-Aligned :
      {Gen : Type 0} (draw : ℤ → ℤ → Gen → Result (ℤ × Gen)) (gen : Gen) (config tuner : Value Real)
      (gs : List (Group Real)) (end_state : Flow (Tune Real Gen)) (iterations : ℤ) (count : ℕ)
      (rs : List (Ran Real)) (soaked : Value Real)
      → tune_main writer cast split control decimal spawn double differs draw gen config tuner gs
        ≡ ok (some end_state)
      → Aligned decimal show_real double plus (state end_state).table
        × Aligned decimal show_real double plus (
            state (
              soak_main writer cast split control decimal spawn double differs iterations count rs
                soaked))
  unfolding tune_main
  tune_main-Aligned draw gen config tuner gs end_state iterations count rs soaked e =
      let (runs, there, e1) = >>=-ok (get_int tuner (codes "iterations") minus_one) _ e in
      let (mutations, there', e2) =
        >>=-ok (get_int tuner (codes "mutations") minus_one) _
          (is_negative-ok runs _ end_state e1) in
      let (groups, there'', e3) =
        >>=-ok (get_int tuner (codes "groups") minus_one) _
          (is_negative-ok mutations _ end_state e2) in
      let (success, found, e4) =
        >>=-ok (get_child tuner (codes "success")) _ (is_negative-ok groups _ end_state e3) in
      (
        reached
            (tune_groups writer cast split control decimal spawn double differs draw tuner success
              runs 1 (copies mutations) (copies groups) gs
              (record { config = config; gen = gen; fail_on_error = true; table = [] }))
            e4
            (tune_groups-Good draw tuner success runs 1 (copies mutations) (copies groups) gs
              (record { config = config; gen = gen; fail_on_error = true; table = [] }) tt),
        (soak_main-Fits writer cast split control decimal spawn double differs show_real plus plain
            plain_real iterations count rs soaked).0,
      )
    where
      reached :
          (x : Flow (Tune Real _))
          → ok (some x) ≡ ok (some end_state)
          → Aligned decimal show_real double plus (state x).table
          → Aligned decimal show_real double plus (state end_state).table
      reached x h good = let same : x ≡ end_state = cc h in rw same at good
