-- ===== src/Tasks/Pids.antt =====
-- The pids that the caller of machine/TaskMonitor.cpp's `start` is given.
use mathlib.Core.Option
use skweltch.Prelude.{
  ℕ, ◌≡◌, ap, sym, ◌∙◌, inl, inr, refl, Bool, true, false, Option, none, some, ◌++◌, Bytes, ◌==◌,
  List, [], ◌∷◌, ℤ, Bool-cases, All, append_assoc, append-nil,
}
use skweltch.Result.{Result, ok}
use skweltch.Json.{Value, LexicalCast}
use skweltch.Tasks.{Started, start}
use skweltch.Tasks.Plan.{plan, run_all, start-plan}

module _ {Real : Type 0} (writer : Value Real → Bytes) (cast : LexicalCast Real)
    (split : Bytes → List Bytes) (control : ℤ) (decimal : ℤ → Bytes)
    (spawn : List Bytes → Bytes → ℕ) where
  abbrev pub pids_of : List Bytes → List Bytes → List ℕ
  pids_of before [] = []
  pids_of before (cmd ∷ cmds) = spawn before cmd ∷ pids_of (before ++ (cmd ∷ [])) cmds

  -- The pids, behind those that the caller has.
  abbrev pub added : List ℕ → Option (List ℕ) → Option (List ℕ)
  added more pids = Option.map (λ (ps : List ℕ). ps ++ more) pids

  added-added :
      (xs ys : List ℕ) (pids : Option (List ℕ)) → added ys (added xs pids) ≡ added (xs ++ ys) pids
  added-added xs ys none = refl
  added-added xs ys (some ps) = ap some (append_assoc ps xs ys)

  added_nothing : (pids : Option (List ℕ)) → pids ≡ added [] pids
  added_nothing none = refl
  added_nothing (some ps) = ap some (sym (append-nil ps))

  run_all-true :
      (cmds : List Bytes) (end : Result Bool) (s t : Started)
      → run_all writer cast split control decimal spawn cmds end s ≡ (t, ok true)
      → (end ≡ ok true)
        × (t.commands ≡ s.commands ++ cmds)
        × (t.pids ≡ added (pids_of s.commands cmds) s.pids)
        × All (λ (pid : ℕ). (pid == 0) ≡ false) (pids_of s.commands cmds)
  run_all-true [] end s t e =
      let same : s ≡ t = ap (λ (p : Started × Result Bool). p.0) e in
      (
        ap (λ (p : Started × Result Bool). p.1) e,
        rw (← same) (sym (append-nil s.commands)),
        rw (← same) (added_nothing s.pids),
        tt,
      )
  run_all-true (cmd ∷ cmds) end s t e = elim (Bool-cases (spawn s.commands cmd == 0)) [
    | inl failed ↦ absurd (cc (rw failed at e))
    | inr went ↦
        let (ends, ran, given, full) = run_all-true cmds end _ t (rw went at e) in
        (
          ends,
          ran ∙ append_assoc s.commands (cmd ∷ []) cmds,
          given
              ∙ added-added (spawn s.commands cmd ∷ []) (pids_of (s.commands ++ (cmd ∷ [])) cmds)
                  s.pids,
          (went, full),
        )
  ]

  -- Where `start` returns true, no block has thrown, all commands of the machine have been run, each
  -- with a pid that is not 0, and the caller has been given the pids in the order of the commands.
  pub start-true :
      (root : Value Real) (s t : Started)
      → start writer cast split control decimal spawn root s ≡ (t, ok true)
      → ((plan writer cast split control decimal spawn root).1 ≡ ok true)
        × (t.commands ≡ s.commands ++ (plan writer cast split control decimal spawn root).0)
        × (t.pids
            ≡ added
                (pids_of s.commands (plan writer cast split control decimal spawn root).0)
                s.pids)
        × All
            (λ (pid : ℕ). (pid == 0) ≡ false)
            (pids_of s.commands (plan writer cast split control decimal spawn root).0)
  start-true root s t e =
      run_all-true (plan writer cast split control decimal spawn root).0
        (plan writer cast split control decimal spawn root).1 s t
        (sym (start-plan writer cast split control decimal spawn root s) ∙ e)
