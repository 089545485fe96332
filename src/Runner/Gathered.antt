-- ===== src/Runner/Gathered.antt =====
-- What is gathered over the runs of a machine.
use skweltch.Prelude.{
  ℕ, zero, suc, ◌+◌, ◌<◌, ◌==◌, ◌≡◌, refl, ap, sym, ◌∙◌, Bool, true, false, Option, none, some,
  Bytes, List, [], ◌∷◌, map, length, ℤ, pos, int_limit, All, arith,
}
use skweltch.Result.{Result, ok}
use skweltch.Json.{Value, LexicalCast}
use skweltch.Runner.{
  Pass, Stats, no_stats, is_bad, judge, judge_run, run_passes, vent_of, run_one, closed,
  after_start,
}
use skweltch.Tasks.{Started, start, do_vent}
use skweltch.Runner.Times.{
  judgement_of, failure, time, failures, total_time, least_of, greatest_of, least, greatest, stats,
  stats_of, same_stats, and_false, gather-passed, least_of_assoc, greatest_of_assoc, least_of-none,
  greatest_of-none,
}

module _ {Real : Type 0} (cast : LexicalCast Real) (of_int : ℤ → Real)
    (differs : Real → Real → Bool) (success : Value Real)
    (vent : List Bytes → List Bytes × Result Bool) where
  -- A run without an interrupt whose results are judged as is said.
  abbrev pub IsRun : Pass Real × Option ℕ → Type 0
  IsRun (p, r) =
      (p.interrupted_before ≡ false)
      × (p.interrupted_after ≡ false)
      × (judge cast of_int differs success p.results ≡ ok (judgement_of r))

  -- The commands of the vents.
  abbrev pub vented : ℕ → List Bytes → List Bytes
  vented zero commands = commands
  vented (suc n) commands = vented n (vent commands).0

  abbrev pub outcomes : List (Pass Real × Option ℕ) → List (Option ℕ)
  outcomes runs = map (λ (x : Pass Real × Option ℕ). x.1) runs

  abbrev pub passes_of : List (Pass Real × Option ℕ) → List (Pass Real)
  passes_of runs = map (λ (x : Pass Real × Option ℕ). x.0) runs

  judge_run-stats :
      (p : Pass Real) (r : Option ℕ) (f : ℕ) (lo hi : Option ℕ) (sum : ℕ)
      → judge cast of_int differs success p.results ≡ ok (judgement_of r)
      → sum + time r < int_limit
      → judge_run cast of_int differs success p.results (stats f lo hi sum)
        ≡ ok (
          is_bad (judgement_of r),
          stats (f + failure r) (least_of lo r) (greatest_of hi r) (sum + time r),
        )
  unfolding judge_run
  judge_run-stats p none f lo hi sum judged small =
      rw (judge_run, judged)
        (ap (λ (t : Stats). ok (true, t))
          (same_stats _ _ _ _ _ _ _ _ (omega arith) (sym (least_of-none lo))
            (sym (greatest_of-none hi)) (omega arith)))
  judge_run-stats p (some e) f lo hi sum judged small =
      rw (judge_run, judged, gather-passed f lo hi sum e small)
        (ap (λ (t : Stats). ok (false, t))
          (same_stats _ _ _ _ _ _ _ _ (omega arith) refl refl refl))

  run_passes-from :
      (runs : List (Pass Real × Option ℕ)) (commands : List Bytes) (f : ℕ) (lo hi : Option ℕ)
      (sum : ℕ)
      → ((before : List Bytes) → (vent before).1 ≡ ok true)
      → All IsRun runs
      → sum + total_time (outcomes runs) < int_limit
      → run_passes cast of_int differs false success vent
          (length runs)
          (passes_of runs)
          commands
          (stats f lo hi sum)
        ≡ some (
          vented (length runs) commands,
          ok (
              some (
                stats
                  (f + failures (outcomes runs))
                  (least_of lo (least (outcomes runs)))
                  (greatest_of hi (greatest (outcomes runs)))
                  (sum + total_time (outcomes runs)))),
        )
  unfolding run_passes
  run_passes-from [] commands f lo hi sum goes fine small =
      ap (λ (t : Stats). some (commands, ok (some t)))
        (same_stats f (f + 0) lo (least_of lo none) hi (greatest_of hi none) sum (sum + 0)
          (omega arith) (sym (least_of-none lo)) (sym (greatest_of-none hi)) (omega arith))
  run_passes-from ((p, r) ∷ runs) commands f lo hi sum goes ((before, after, judged), fine) small =
      rw
        (
          run_passes,
          before,
          goes commands,
          after,
          judge_run-stats p r f lo hi sum judged (omega (arith, small)),
          and_false (is_bad (judgement_of r)),
        )
        (run_passes-from runs (vent commands).0 (f + failure r) (least_of lo r) (greatest_of hi r)
            (sum + time r) goes fine (omega (arith, small))
          ∙ ap (λ (t : Stats). some (vented (length runs) (vent commands).0, ok (some t)))
              (same_stats _ _ _ _ _ _ _ _ (omega arith)
                (least_of_assoc lo r (least (outcomes runs)))
                (greatest_of_assoc hi r (greatest (outcomes runs))) (omega arith)))

  -- The loop, from its start.
  pub run_passes-stats :
      (runs : List (Pass Real × Option ℕ)) (commands : List Bytes)
      → ((before : List Bytes) → (vent before).1 ≡ ok true)
      → All IsRun runs
      → total_time (outcomes runs) < int_limit
      → run_passes cast of_int differs false success vent
          (length runs)
          (passes_of runs)
          commands
          no_stats
        ≡ some (vented (length runs) commands, ok (some (stats_of (outcomes runs))))
  run_passes-stats runs commands goes fine small =
      run_passes-from runs commands 0 none none 0 goes fine (omega (arith, small))
      ∙ ap (λ (t : Stats). some (vented (length runs) commands, ok (some t)))
          (same_stats _ _ _ _ _ _ _ _ (omega arith) refl refl (omega arith))

module _ {Real : Type 0} (writer : Value Real → Bytes) (cast : LexicalCast Real)
    (split : Bytes → List Bytes) (control : ℤ) (decimal : ℤ → Bytes)
    (spawn : List Bytes → Bytes → ℕ) (of_int : ℤ → Real) (differs : Real → Real → Bool)
    (root success : Value Real) where
  abbrev pub vents : List Bytes → List Bytes × Result Bool
  vents = vent_of (do_vent writer cast split control decimal spawn root)

  -- A machine that starts is run as often as is asked, without an interrupt, each time with its vent
  -- done, and is not stopped at a run that fails; the control socket works. `runOne` returns whether
  -- no run has failed, and reports the number of those that have, and of those that passed the least,
  -- the greatest and the sum of the times, which is below 2^31; least and greatest are -1 if there is
  -- none.
  pub run_one-stats :
      (t : Started) (runs : List (Pass Real × Option ℕ)) (group iter : ℤ) (vars : Bytes)
      → start writer cast split control decimal spawn root
          (record { commands = []; pids = some [] })
        ≡ (t, ok true)
      → ((before : List Bytes) → (vents before).1 ≡ ok true)
      → All (IsRun cast of_int differs success vents) runs
      → total_time (outcomes cast of_int differs success vents runs) < int_limit
      → run_one writer cast split control decimal spawn of_int differs
          (some root)
          true
          true
          false
          success
          (pos (length runs))
          (passes_of cast of_int differs success vents runs)
          group
          iter
          vars
        ≡ some (
          vented cast of_int differs success vents (length runs) t.commands,
          ok (
            failures (outcomes cast of_int differs success vents runs) == 0,
            some (record {
              group = group;
              iter = iter;
              vars = vars;
              iterations = pos (length runs);
              stats = stats_of (outcomes cast of_int differs success vents runs);
            }),
          ),
        )
  unfolding run_one
  run_one-stats t runs group iter vars started goes fine small =
      let passes = passes_of cast of_int differs success vents runs in
      ap
        (λ (st : Started × Result Bool). closed true group iter vars (pos (length runs)) (
          after_start writer cast split control decimal spawn of_int differs root false success
            (pos (length runs)) passes st))
        started
      ∙ ap (closed true group iter vars (pos (length runs)))
          (run_passes-stats cast of_int differs success vents runs t.commands goes fine small)
