-- ===== src/Sink/Collect.antt =====
-- `Sink::process` over a whole batch: the worker hears of each message in the order of its coming,
-- and of the results once, at the message that makes the batch whole.
use mathlib.Core.Path.{ap₂}
use skweltch.Prelude.{
  ℕ, ◌+◌, ◌≤◌, ◌<◌, ◌≡◌, ◌↔◌, ◌⊎◌, inl, inr, refl, sym, ap, ◌∙◌, false, ◌||◌, some, List, [], ◌∷◌,
  ◌++◌, map, append-nil, ℤ, pos, int_limit, arith, Bool-cases, All,
}
use skweltch.Elapsed.{Timeval, get_total}
use skweltch.Msg.{Codec, SinkMsg, empty_msg, first_msg}
use skweltch.Sink.{first, results, SinkWorker, Round, Sink, goes_on, call, check, handle, step, run}
use skweltch.Sink.Batch.{
  Item, data_of, ends, to_msg, to_call, ids, HasLast, Whole, delivers, calls, calls-cons,
  calls-append, calls-nil, feed,
}
use skweltch.Sink.Phase.{ItemWithin, Phase, Phase-complete, item_open, item-Whole}
use skweltch.Tracker.{fresh, set_first, complete}
use skweltch.Tracker.Batch.{contains}
use skweltch.Tracker.Closed.{complete_before_last, start-Inv}

-- A message with the time at which it comes.
abbrev pub Timed : Type 0
Timed = Timeval × Item

abbrev pub items : List Timed → List Item
items = map λ t. t.1

abbrev onto : List Item → List Item → List Item
onto [] past = past
onto (i ∷ is) past = onto is (i ∷ past)

contains-onto :
    (n : ℕ) (is past : List Item)
    → contains n (ids (onto is past)) ≡ contains n (ids is) || contains n (ids past)
contains-onto n [] past = refl
contains-onto n (data_of m d ∷ is) past = ground (arith, contains-onto n is (data_of m d ∷ past))
contains-onto n (ends ∷ is) past = ground (arith, contains-onto n is (ends ∷ past))

HasLast-onto : (is past : List Item) → HasLast (onto is past) ↔ (HasLast is ⊎ HasLast past)
HasLast-onto [] past = (inr, λ h. elim h [ inl e ↦ absurd e | inr p ↦ p ])
HasLast-onto (data_of m d ∷ is) past = HasLast-onto is (data_of m d ∷ past)
HasLast-onto (ends ∷ is) past = (λ _. inl tt, λ _. (HasLast-onto is (ends ∷ past)).1 (inr tt))

-- What has come stays.
Whole-onto : (f l : ℕ) (is past : List Item) → Whole f l past → Whole f l (onto is past)
Whole-onto f l is past w = (
  (HasLast-onto is past).1 (inr w.0),
  λ n lo hi. ground (arith, contains-onto n is past, w.1 n lo hi),
)

-- The order does not count.
Whole-onto_iff : (f l : ℕ) (is : List Item) → Whole f l (onto is []) ↔ Whole f l is
Whole-onto_iff f l is = (
  λ w. (
    elim ((HasLast-onto is []).0 w.0) [ inl h ↦ h | inr e ↦ absurd e ],
    λ n lo hi. ground (arith, contains-onto n is [], w.1 n lo hi),
  ),
  λ w. (
    (HasLast-onto is []).1 (inl w.0),
    λ n lo hi. ground (arith, contains-onto n is [], w.1 n lo hi),
  ),
)

onto-append : (is past : List Item) (i : Item) → onto (is ++ i ∷ []) past ≡ i ∷ onto is past
onto-append [] past i = refl
onto-append (j ∷ is) past i = onto-append is (j ∷ past) i

module _ {Message W : Type 0} (size : ℕ) (work : SinkWorker W) (sinks : Codec Message SinkMsg)
    (kills : Codec Message ℤ) where
  step-delivers :
      (now : Timeval) (m : SinkMsg) (s : Sink W)
      → step size work sinks kills (delivers sinks now m) s
        ≡ handle size work now m (record s { retries = 0 })
  unfolding step
  step-delivers now m s = rw (sinks.unpack-pack m)

  run-delivers :
      (now : Timeval) (m : SinkMsg) (rs : List (Round Message)) (s t : Sink W)
      → handle size work now m (record s { retries = 0 }) ≡ goes_on t
      → run size work sinks kills (delivers sinks now m ∷ rs) s ≡ run size work sinks kills rs t
  unfolding run
  run-delivers now m rs s t e = rw (step-delivers now m s ∙ e)

  handle-first :
      (f : ℕ) (t0 : Timeval) (s : Sink W) (w : W)
      → s.tracker ≡ fresh
      → work (first (pos f)) s.worker ≡ some w
      → handle size work t0 (first_msg (pos f) empty_msg) s
        ≡ goes_on (record s { tracker = set_first (pos f) fresh; started = t0; worker = w })
  unfolding handle set_first
  handle-first f t0 s w idle e =
      let partial = complete_before_last size f (set_first (pos f) fresh) refl refl in
      rw (e, call, idle) (unfold check in rw partial)

  module _ (f l : ℕ) (positive : 0 < size) (bound : l + 1 < int_limit) (ordered : f ≤ l) where
    run_open :
        (is : List Timed) (past : List Item) (rs : List (Round Message)) (s : Sink W) (w : W)
        → All (ItemWithin f l) (items is)
        → Phase size f l past s.tracker
        → ¬ Whole f l (onto (items is) past)
        → s.retries ≡ 0
        → calls work (map (to_call l) (items is)) s.worker ≡ some w
        → (t : Sink W) × (run size work sinks kills (feed sinks l is ++ rs) s
            ≡ run size work sinks kills rs t)
          × Phase size f l (onto (items is) past) t.tracker
          × (t.worker ≡ w)
          × (t.started ≡ s.started)
          × (t.retries ≡ 0)
    run_open [] past rs s w h v n z e = (s, refl, v, calls-nil work s.worker w e, refl, z)
    run_open ((now, i) ∷ is) past rs s w h v n z e =
        let (w1, done, later) =
          calls-cons work (to_call l i) (map (to_call l) (items is)) s.worker w e in
        let s0 = record s { retries = 0 } in
        let (u, handled, v') =
          item_open size f l positive bound ordered work past i s0 now w1 h.0 v
            (λ whole. n (Whole-onto f l (items is) (i ∷ past) whole)) done in
        let s1 = record s0 { tracker = u; worker = w1 } in
        let (t, ran, v2, working, started, zero) =
          run_open is (i ∷ past) rs s1 w h.1 v' n refl later in
        (
          t,
          run-delivers now (to_msg l i) (feed sinks l is ++ rs) s s1 handled ∙ ran,
          v2,
          working,
          started,
          zero,
        )

    -- The sink after the first message of a batch, at time `t0`, when it was idle before.
    abbrev begun : Timeval → W → Sink W
    begun t0 w = record { tracker = set_first (pos f) fresh; retries = 0; started = t0; worker = w }

    begun-Phase : (t0 : Timeval) (w : W) → Phase size f l [] (begun t0 w).tracker
    unfolding set_first
    begun-Phase t0 w = inl ((λ h. h), start-Inv size f l positive bound, refl)

    run_first :
        (t0 : Timeval) (rs : List (Round Message)) (s : Sink W) (w : W)
        → s.tracker ≡ fresh
        → work (first (pos f)) s.worker ≡ some w
        → run size work sinks kills (delivers sinks t0 (first_msg (pos f) empty_msg) ∷ rs) s
          ≡ run size work sinks kills rs (begun t0 w)
    run_first t0 rs s w idle e =
        run-delivers t0 (first_msg (pos f) empty_msg) rs s (begun t0 w)
          (handle-first f t0 (record s { retries = 0 }) w idle e)

    -- While the batch is not whole, the worker has been called for each message, in their order, and
    -- for nothing else: no results are reported. The sink was idle before, and `work` throws nothing.
    pub run-not-Whole :
        (t0 : Timeval) (is : List Timed) (s : Sink W) (w : W)
        → s.tracker ≡ fresh
        → All (ItemWithin f l) (items is)
        → ¬ Whole f l (items is)
        → calls work (first (pos f) ∷ map (to_call l) (items is)) s.worker ≡ some w
        → (t : Sink W) × (run size work sinks kills
              (delivers sinks t0 (first_msg (pos f) empty_msg) ∷ feed sinks l is)
              s
            ≡ goes_on t)
          × (t.worker ≡ w)
          × (complete size t.tracker ≡ false)
    unfolding run
    run-not-Whole t0 is s w idle h n e =
        let (w1, done, later) =
          calls-cons work (first (pos f)) (map (to_call l) (items is)) s.worker w e in
        let n' =
          λ (whole : Whole f l (onto (items is) [])). n ((Whole-onto_iff f l (items is)).0 whole) in
        let (t, ran, v, working, _, _) =
          run_open is [] [] (begun t0 w1) w h (begun-Phase t0 w1) n' refl later in
        (
          t,
          run_first t0 (feed sinks l is) s w1 idle done
              ∙ ap (λ rs. run size work sinks kills rs (begun t0 w1))
                  (sym (append-nil (feed sinks l is)))
              ∙ ran,
          working,
          elim (Bool-cases (complete size t.tracker)) [
            | inl c ↦ absurd (
                n' (
                  (Phase-complete size f l positive bound ordered (onto (items is) []) t.tracker
                      v).0
                    c))
            | inr c ↦ c
          ],
        )

    -- The message that makes the batch whole makes the sink report the results, once, with the time
    -- since the first message, and leaves it idle. The sink was idle before, and `work` throws nothing.
    pub run-Whole :
        (t0 now : Timeval) (is : List Timed) (i : Item) (s : Sink W) (w : W)
        → s.tracker ≡ fresh
        → All (ItemWithin f l) (items is)
        → ItemWithin f l i
        → ¬ Whole f l (items is)
        → Whole f l (items is ++ i ∷ [])
        → calls work
            (first (pos f)
              ∷ (map (to_call l) (items is) ++ (to_call l i ∷ results (get_total t0 now) ∷ [])))
            s.worker
          ≡ some w
        → run size work sinks kills
            (delivers sinks t0 (first_msg (pos f) empty_msg)
              ∷ (feed sinks l is ++ (delivers sinks now (to_msg l i) ∷ [])))
            s
          ≡ goes_on (record { tracker = fresh; retries = 0; started = t0; worker = w })
    unfolding run
    run-Whole t0 now is i s w idle h hi n whole e =
        let c = to_call l i in
        let reported = results (get_total t0 now) in
        let (w1, done, later) =
          calls-cons work (first (pos f)) (map (to_call l) (items is) ++ (c ∷ reported ∷ []))
            s.worker w e in
        let (w2, mid, tail) =
          calls-append work (map (to_call l) (items is)) (c ∷ reported ∷ []) w1 w later in
        let (w3, handed, rest) = calls-cons work c (reported ∷ []) w2 w tail in
        let (w4, told, over) = calls-cons work reported [] w3 w rest in
        let n' = λ (x : Whole f l (onto (items is) [])). n ((Whole-onto_iff f l (items is)).0 x) in
        let final = delivers sinks now (to_msg l i) ∷ [] in
        let (t, ran, v, working, started, _) =
          run_open is [] final (begun t0 w1) w2 h (begun-Phase t0 w1) n' refl mid in
        let t' = record t { retries = 0 } in
        let whole' =
          rw (onto-append (items is) [] i) at ((Whole-onto_iff f l (items is ++ i ∷ [])).1 whole) in
        let handled =
          item-Whole size f l positive bound ordered work (onto (items is) []) i t' now w3 w4 hi v
            whole' (ap (work c) working ∙ handed)
            (ap (λ (x : Timeval). work (results (get_total x now)) w3) started ∙ told) in
        run_first t0 (feed sinks l is ++ final) s w1 idle done
        ∙ ran
        ∙ run-delivers now (to_msg l i) [] t (record t' { tracker = fresh; worker = w4 }) handled
        ∙ ap₂
            (λ (x : Timeval) (y : W).
              goes_on (record { tracker = fresh; retries = 0; started = x; worker = y }))
            started (calls-nil work w4 w over)
