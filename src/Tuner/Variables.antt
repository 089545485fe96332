-- ===== src/Tuner/Variables.antt =====
-- How many variables a tuning sets, and the row of values that it makes for the table of results.
use skweltch.Prelude.{
  ℕ, suc, ◌+◌, ◌≡◌, ◌≢◌, refl, ap, sym, ◌∙◌, inl, inr, Bool, Option, none, some, ◌++◌, Bytes, codes,
  equal, ◌==◌, ltb, if◌then◌else◌, List, [], ◌∷◌, ℤ, Bool-cases, arith,
}
use skweltch.Result.{Result, ok, threw, >>=-ok, same_ok, other_error}
use skweltch.Json.{Value, Object, end_object, pair, LexicalCast}
use skweltch.Json.JsonObject.{get_obj, get_string, get_int, get_bool}
use skweltch.Json.JsonPath.{get_path, set_path_int}
use skweltch.Pipes.{ended, minus_one}
use skweltch.Tuner.{
  Double, Tuning, is_negative, is_variable, count_variables, var_count, bound, select_value,
  add_value, show_value, tune_int, tune_variable, tune_variables, tune,
}

-- The fields of a row, which are divided by tabs.
abbrev pub tabs : Bytes → ℕ
tabs [] = 0
tabs (c ∷ cs) = if c == 9 then suc (tabs cs) else tabs cs

abbrev pub fields : Bytes → ℕ
fields [] = 0
fields (c ∷ cs) = suc (tabs (c ∷ cs))

abbrev pub fields_of : Option Bytes → ℕ
fields_of none = 0
fields_of (some s) = fields s

pub tabs-append : (a b : Bytes) → tabs (a ++ b) ≡ tabs a + tabs b
tabs-append [] b = omega arith
tabs-append (c ∷ a) b = ground (arith, tabs-append a b)

pub fields-full : (s : Bytes) → s ≢ [] → fields s ≡ suc (tabs s)
fields-full [] full = absurd (full refl)
fields-full (c ∷ s) full = refl

module _ {Real Gen : Type 0} (cast : LexicalCast Real) (split : Bytes → List Bytes)
    (double : Double Real) (draw : ℤ → ℤ → Gen → Result (ℤ × Gen)) where
  abbrev Counts : Tuning Real Gen → Tuning Real Gen → Type 0
  Counts t u =
      (val : ℤ) × (u.vars ≡ suc t.vars)
      × (u.varstring ≡ show_value cast split double draw val t.varstring)

  -- What a variable changes.
  tune_int-Counts :
      (mutations mutation : ℤ) (key : Bytes) (target : Value Real) (fail : Bool)
      (t u : Tuning Real Gen)
      → tune_int cast split double draw mutations mutation key target fail t ≡ ok u
      → Counts t u
  unfolding tune_int
  tune_int-Counts mutations mutation key target fail t u e =
      let (low, _, e3) = >>=-ok (bound target (codes "low")) _ e in
      let (high, _, e4) = >>=-ok (bound target (codes "high")) _ e3 in
      let (var, _, e5) = >>=-ok (get_string target (codes "var")) _ e4 in
      let (select, _, e6) = >>=-ok (get_string target (codes "select")) _ e5 in
      let (o, _, e7) = >>=-ok (ended (get_path cast split t.config key)) _ e6 in
      let ((val, gen), _, e8) =
        >>=-ok (select_value cast split double draw select low high mutations mutation t.gen) _
          e7 in
      let (config, _, e9) = >>=-ok (ended (set_path_int cast split t.config key var val)) _ e8 in
      (
        val,
        ap (λ (x : Tuning Real Gen). x.vars) (sym (same_ok e9)),
        ap (λ (x : Tuning Real Gen). x.varstring) (sym (same_ok e9)),
      )

  tune_variable-Counts :
      (mutations mutation : ℤ) (key : Bytes) (target : Value Real) (t u : Tuning Real Gen)
      → tune_variable cast split double draw mutations mutation key target t ≡ ok u
      → Counts t u
  unfolding tune_variable
  tune_variable-Counts mutations mutation key target t u e =
      let (type, _, e1) = >>=-ok (get_string target (codes "type")) _ e in
      let (fail, _, e2) = >>=-ok (get_bool target (codes "fail")) _ e1 in known type fail e2
    where
      known :
          (type : Bytes) (fail : Bool)
          → (if equal type (codes "int")
              then tune_int cast split double draw mutations mutation key target fail t
              else threw other_error)
            ≡ ok u
          → Counts t u
      known type fail e2 = elim (Bool-cases (equal type (codes "int"))) [
        | inl int_type ↦ tune_int-Counts mutations mutation key target fail t u (rw int_type at e2)
        | inr other ↦ absurd (cc (rw other at e2))
      ]

  -- A row gets as many fields as there are variables.
  module _ (plain : (n : ℤ) → tabs (cast.of_int n) ≡ 0) (full : (n : ℤ) → cast.of_int n ≢ []) where
    fields-add_value :
        (n : ℤ) (s : Bytes) → fields (add_value cast split double draw n s) ≡ suc (fields s)
    fields-add_value n [] = fields-full (cast.of_int n) (full n) ∙ ap suc (plain n)
    fields-add_value n (c ∷ s) =
        let split_there = tabs-append (c ∷ s) (9 ∷ cast.of_int n) in
        omega (arith, split_there, plain n)

    tune_variables-count :
        (group mutations mutation : ℤ) (o : Object Real) (t u : Tuning Real Gen) (s : Bytes)
        → tune_variables cast split double draw group mutations mutation o t ≡ ok u
        → t.varstring ≡ some s
        → fields s ≡ t.vars
        → (count_variables group o t.vars ≡ ok u.vars)
          × ((r : Bytes) × (u.varstring ≡ some r) × (fields r ≡ u.vars))
    unfolding tune_variables count_variables
    tune_variables-count group mutations mutation end_object t u s e row here =
        let same : t ≡ u = same_ok e in
        (ap (λ (x : Tuning Real Gen). ok x.vars) same, (s, rw (← same) row, rw (← same) here))
    tune_variables-count group mutations mutation (pair key target o) t u s e row here =
        let (counts, seen, e1) = >>=-ok (is_variable group key target) _ e in
        elim (Bool-cases counts) [
          | inl yes_counts ↦
              let (w, tuned, e2) =
                >>=-ok (tune_variable cast split double draw mutations mutation key target t) _
                  (rw yes_counts at e1) in
              let (val, vars, varstring) =
                tune_variable-Counts mutations mutation key target t w tuned in
              let row' : w.varstring ≡ some (add_value cast split double draw val s) =
                varstring ∙ ap (show_value cast split double draw val) row in
              let here' : fields (add_value cast split double draw val s) ≡ w.vars =
                fields-add_value val s ∙ ap suc here ∙ sym vars in
              let (counted, more) =
                tune_variables-count group mutations mutation o w u _ e2 row' here' in
              (rw (seen, yes_counts, ← vars) counted, more)
          | inr no_counts ↦
              let (counted, more) =
                tune_variables-count group mutations mutation o t u s (rw no_counts at e1) row
                  here in
              (rw (seen, no_counts) counted, more)
        ]

    -- Where `tune` succeeds, the variables that it sets are as many as `varCount` says for the same
    -- group, it returns true if there is one, and the row that it makes of an empty string has as many
    -- fields; an `int` is written without a tab, and not as an empty string.
    pub tune-var_count :
        (tuner : Value Real) (group mutation : ℤ) (config : Value Real) (gen : Gen)
        (fail done : Bool) (t : Tuning Real Gen)
        → tune cast split double draw tuner group mutation config gen fail (some []) ≡ ok (t, done)
        → (var_count tuner group ≡ ok t.vars)
          × (done ≡ ltb 0 t.vars)
          × ((row : Bytes) × (t.varstring ≡ some row) × (fields row ≡ t.vars))
    unfolding tune var_count
    tune-var_count tuner group mutation config gen fail done t e =
        let (mutations, _, e1) = >>=-ok (get_int tuner (codes "mutations") minus_one) _ e in
        elim (Bool-cases (is_negative mutations)) [
          | inl below ↦ absurd (cc (rw below at e1))
          | inr there ↦
              let (o, is_there, e2) = >>=-ok (get_obj tuner) _ (rw there at e1) in
              let (u, tuned, e3) =
                >>=-ok (tune_variables cast split double draw group mutations mutation o _) _ e2 in
              let same : u ≡ t = ap (λ (p : Tuning Real Gen × Bool). p.0) (same_ok e3) in
              let (counted, row) =
                tune_variables-count group mutations mutation o _ u [] tuned refl refl in
              (
                rw is_there (counted ∙ ap (λ (x : Tuning Real Gen). ok x.vars) same),
                sym (ap (λ (p : Tuning Real Gen × Bool). p.1) (same_ok e3))
                    ∙ ap (λ (x : Tuning Real Gen). ltb 0 x.vars) same,
                rw (← same) row,
              )
        ]
