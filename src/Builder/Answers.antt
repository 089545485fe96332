-- ===== src/Builder/Answers.antt =====
-- Which of the messages are answered by a build.
use skweltch.Prelude.{
  ℕ, ◌+◌, ◌≡◌, ap, sym, ◌∙◌, Bool, Option, none, some, Bytes, List, [], ◌∷◌, ◌++◌, ℤ, pos, negsuc,
  length, append_assoc, append-nil, arith,
}
use skweltch.Msg.{Codec}
use skweltch.Build.{Pattern}
use skweltch.Work.{
  WorkCall, process_msg, timeout, Pass, returns, works, passes, kill_pass, run_work, all_calls,
  run_work-kill_pass, returned_of,
}
use skweltch.Builder.{BuildMsg, BuildWorker, new_worker, result_of, build_timeout, build_work}

-- A message of an id, or a poll in which nothing comes.
abbrev pub answered : List (Option ℕ) → List ℕ
answered [] = []
answered (none ∷ es) = answered es
answered (some i ∷ es) =
    let rest = answered es in
    elim es [ [] ↦ rest | e ∷ more ↦ elim e [ none ↦ i ∷ rest | some j ↦ rest ] ]

-- The message that waits for a build in the end.
abbrev pub waiting : Option ℕ → List (Option ℕ) → Option ℕ
waiting w [] = w
waiting w (none ∷ es) = waiting none es
waiting w (some i ∷ es) = waiting (some i) es

abbrev pub id_of : Option ℕ → ℤ
id_of none = negsuc 0
id_of (some i) = pos i

module _ {Message : Type 0} (matches : Pattern → Bytes → Bool) (log_lines : ℕ → List Bytes)
    (codec : Codec Message BuildMsg) (kills : Codec Message ℤ) where
  abbrev pub message_of : ℕ → Message
  message_of i = codec.pack (record { id = pos i; time = pos 0; payload = [] })

  abbrev pub calls_of : List (Option ℕ) → List (WorkCall Message)
  calls_of [] = []
  calls_of (none ∷ es) = timeout ∷ calls_of es
  calls_of (some i ∷ es) = process_msg (message_of i) ∷ calls_of es

  -- The results for messages, from a number of runs on.
  abbrev pub results_from : ℕ → List ℕ → List BuildMsg
  results_from runs [] = []
  results_from runs (i ∷ is) =
      result_of matches log_lines (pos i) (runs + 1) ∷ results_from (runs + 1) is

  abbrev pub worker : Option ℕ → ℕ → List BuildMsg → BuildWorker
  worker w runs sent = record { msgid = id_of w; runs = runs; sent = sent }

  -- With a message that waits before what comes.
  abbrev pending : Option ℕ → List (Option ℕ) → List (Option ℕ)
  pending none es = es
  pending (some i) es = some i ∷ es

  works_ap :
      (w : Option ℕ) {n m : ℕ} {ms ns : List BuildMsg}
      → n ≡ m
      → ms ≡ ns
      → works (worker w n ms) ≡ works (worker w m ns)
  works_ap w e h i = works (worker w (e i) (h i))

  results_from-append :
      (sent : List BuildMsg) (runs i : ℕ) (is : List ℕ)
      → (sent ++ (result_of matches log_lines (pos i) (runs + 1) ∷ []))
          ++ results_from (runs + 1) is
        ≡ sent ++ results_from runs (i ∷ is)
  results_from-append sent runs i is =
      append_assoc sent (result_of matches log_lines (pos i) (runs + 1) ∷ [])
        (results_from (runs + 1) is)

  all_calls-answered :
      (es : List (Option ℕ)) (w : Option ℕ) (runs : ℕ) (sent : List BuildMsg)
      → all_calls (build_work matches log_lines codec) kills (calls_of es) (worker w runs sent)
        ≡ works (
            worker
              (waiting w es)
              (runs + length (answered (pending w es)))
              (sent ++ results_from runs (answered (pending w es))))
  unfolding all_calls build_work build_timeout
  all_calls-answered [] none runs sent = works_ap none (omega arith) (sym (append-nil sent))
  all_calls-answered [] (some i) runs sent = works_ap (some i) (omega arith) (sym (append-nil sent))
  all_calls-answered (none ∷ es) none runs sent = all_calls-answered es none runs sent
  all_calls-answered (none ∷ es) (some i) runs sent =
      all_calls-answered es none (runs + 1)
        (sent ++ (result_of matches log_lines (pos i) (runs + 1) ∷ []))
      ∙ works_ap (waiting none es) (omega arith) (results_from-append sent runs i (answered es))
  all_calls-answered (some j ∷ es) none runs sent =
      rw (all_calls, codec.unpack-pack (record { id = pos j; time = pos 0; payload = [] }))
        (all_calls-answered es (some j) runs sent)
  all_calls-answered (some j ∷ es) (some i) runs sent =
      rw (all_calls, codec.unpack-pack (record { id = pos j; time = pos 0; payload = [] }))
        (all_calls-answered es (some j) runs sent)

  -- The worker builds when a poll brings nothing after messages, and sends a result for the last of
  -- these only, in their order, for the n-th run of the command what its log says; at a kill message
  -- the loop returns, and what waits then is not built.
  pub run_work-answered :
      (es : List (Option ℕ)) (quit : Bool) (later : List (Pass Message))
      → run_work
          (build_work matches log_lines codec)
          kills
          (passes
            (build_work matches log_lines codec)
            kills
            (calls_of es)
            (kill_pass (build_work matches log_lines codec) kills quit ∷ later))
          new_worker
        ≡ returns (worker (waiting none es) (length (answered es)) (results_from 0 (answered es)))
  run_work-answered es quit later =
      run_work-kill_pass (build_work matches log_lines codec) kills (calls_of es) quit later
        new_worker
      ∙ ap (returned_of (build_work matches log_lines codec) kills)
          (all_calls-answered es none 0 [])
      ∙ ap (λ (n : ℕ). returns (worker (waiting none es) n (results_from 0 (answered es))))
          (omega arith)
