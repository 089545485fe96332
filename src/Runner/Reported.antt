-- ===== src/Runner/Reported.antt =====
-- What a report of a run repeats of its arguments.
use skweltch.Prelude.{ℕ, ◌≡◌, refl, Bool, true, false, Option, none, some, Bytes, List, ℤ}
use skweltch.Result.{Result, ok, threw, undefined}
use skweltch.Json.{Value, LexicalCast}
use skweltch.Runner.{Pass, Stats, Report, closed, run_one}

-- A report there may be is of these variables.
abbrev pub OfVars : Bytes → Option Report → Type 0
OfVars vars none = Unit
OfVars vars (some r) = r.vars ≡ vars

-- And that of a result.
abbrev pub Tells : Bytes → Option (List Bytes × Result (Bool × Option Report)) → Type 0
Tells vars none = Unit
Tells vars (some (commands, ok (good, report))) = OfVars vars report
Tells vars (some (commands, threw e)) = Unit
Tells vars (some (commands, undefined)) = Unit

closed-Tells :
    (sent : Bool) (group iter : ℤ) (vars : Bytes) (iterations : ℤ)
    (x : Option (List Bytes × Result (Option Stats)))
    → Tells vars (closed sent group iter vars iterations x)
closed-Tells sent group iter vars iterations none = tt
closed-Tells true group iter vars iterations (some (commands, ok (some s))) = refl
closed-Tells false group iter vars iterations (some (commands, ok (some s))) = tt
closed-Tells sent group iter vars iterations (some (commands, ok none)) = tt
closed-Tells sent group iter vars iterations (some (commands, threw e)) = tt
closed-Tells sent group iter vars iterations (some (commands, undefined)) = tt

module _ {Real : Type 0} (writer : Value Real → Bytes) (cast : LexicalCast Real)
    (split : Bytes → List Bytes) (control : ℤ) (decimal : ℤ → Bytes)
    (spawn : List Bytes → Bytes → ℕ) (of_int : ℤ → Real) (differs : Real → Real → Bool) where
  pub run_one-Tells :
      (root : Option (Value Real)) (bound sent fail : Bool) (success : Value Real) (iterations : ℤ)
      (passes : List (Pass Real)) (group iter : ℤ) (vars : Bytes)
      → Tells vars (
          run_one writer cast split control decimal spawn of_int differs root bound sent fail
            success iterations passes group iter vars)
  unfolding run_one
  run_one-Tells none bound sent fail success iterations passes group iter vars = tt
  run_one-Tells (some root) true sent fail success iterations passes group iter vars =
      closed-Tells sent group iter vars iterations _
  run_one-Tells (some root) false sent fail success iterations passes group iter vars = tt
