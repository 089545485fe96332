-- ===== src/Sink/Waiting.antt =====
-- What the sink does when nothing comes, when it is told to stop, and when a result comes too early.
use skweltch.Prelude.{
  ℕ, suc, ◌+◌, ◌≤◌, ◌<◌, ◌≡◌, ◌≢◌, ◌⊎◌, inl, inr, refl, ap, Bool, true, false, Option, none, some,
  Option-cases, List, [], ◌∷◌, map, ℤ, pos, Bytes, int_limit, arith, Bool-cases, length,
}
use skweltch.Elapsed.{Timeval, get_total}
use skweltch.Msg.{Codec, SinkMsg, empty_msg, data_msg}
use skweltch.Sink.{
  Call, first, process, last, results, SinkWorker, Polled, message, control, none_ready, Round,
  Sink, Outcome, goes_on, returned, undefined, max_retries, call, finish, check, handle_first,
  handle_data, handle_last, handle, receive, dispatch, idle, step, run,
}
use skweltch.Sink.Batch.{calls, calls-cons, calls-nil}
use skweltch.Tracker.Early.{track_early}
use skweltch.Tracker.{MsgTracker, fresh, set_first, set_last, track, complete}

-- A pass in which the poll finds nothing in time.
abbrev pub quiet : {Message : Type 0} → Timeval → Round Message
quiet now = record { should_quit = false; polled = none_ready; interrupted = false; now = now }

module _ {Message W : Type 0} (size : ℕ) (work : SinkWorker W) (sinks : Codec Message SinkMsg)
    (kills : Codec Message ℤ) where
  -- Up to six passes in which nothing comes are only counted.
  run_counts :
      (ts : List Timeval) (s : Sink W)
      → s.retries + length ts ≤ suc max_retries
      → run size work sinks kills (map quiet ts) s
        ≡ goes_on (record s { retries = s.retries + length ts })
  unfolding run step dispatch idle
  run_counts [] s h = ground arith
  run_counts (t ∷ ts) s h = ground (arith, run_counts ts (record s { retries = s.retries + 1 }))

  run_tired :
      (ts : List Timeval) (s : Sink W) (w : W)
      → s.tracker ≡ fresh
      → max_retries < s.retries
      → calls work (map (λ t. results (get_total s.started t)) ts) s.worker ≡ some w
      → run size work sinks kills (map quiet ts) s ≡ goes_on (record s { worker = w })
  unfolding run step dispatch idle finish call
  run_tired [] s w z h e = ground (arith, calls-nil work s.worker w e)
  run_tired (t ∷ ts) s w z h e =
      let (v, told, later) =
        calls-cons work (results (get_total s.started t))
          (map (λ t. results (get_total s.started t)) ts) s.worker w e in
      ground (arith, told, run_tired ts (record s { tracker = fresh; worker = v }) w)

  -- From the last message on, six passes with nothing to read are let go by without a call of the
  -- worker; each one after them reports results and forgets the batch, whether or not one is under
  -- way, for as long as nothing comes.
  pub run-quiet :
      (ts us : List Timeval) (u : Timeval) (s : Sink W) (w : W)
      → s.retries ≡ 0
      → length ts ≡ suc max_retries
      → calls work (map (λ t. results (get_total s.started t)) (u ∷ us)) s.worker ≡ some w
      → (run size work sinks kills (map quiet ts) s
          ≡ goes_on (record s { retries = suc max_retries }))
        × (run size work sinks kills (map quiet (u ∷ us)) (record s { retries = suc max_retries })
            ≡ goes_on (record s { tracker = fresh; retries = suc max_retries; worker = w }))
  unfolding run step dispatch idle finish call
  run-quiet ts us u s w z n e =
      let (v, told, later) =
        calls-cons work (results (get_total s.started u))
          (map (λ t. results (get_total s.started t)) us) s.worker w e in
      let next = record s { tracker = fresh; retries = suc max_retries; worker = v } in
      (
        ground (arith, run_counts ts s (omega arith)),
        ground (arith, told, run_tired us next w refl (omega arith) later),
      )

-- Why a pass over what was polled may end the loop with `true` or `false`.
abbrev pub Stops :
    {Message : Type 0}
    → Codec Message SinkMsg
    → Codec Message ℤ
    → Bool
    → Polled Message
    → Bool
    → Type 0
Stops sinks kills interrupted (message m) true = interrupted ≡ true
Stops sinks kills interrupted (message m) false =
    (d : SinkMsg) × (sinks.unpack m ≡ some d)
    × (d.code ≢ pos 1)
    × (d.code ≢ pos 2)
    × (d.code ≢ pos 3)
Stops sinks kills interrupted (control none) b = ⊥
Stops sinks kills interrupted (control (some m)) b = (b ≡ true) × (kills.unpack m ≡ some (pos 0))
Stops sinks kills interrupted none_ready b = ⊥

module _ {W : Type 0} (size : ℕ) (work : SinkWorker W) where
  finish-returned :
      (now : Timeval) (s : Sink W) (b : Bool) (t : Sink W) → finish size work now s ≢ returned b t
  unfolding finish call
  finish-returned now s b t e = ground arith

  check-returned :
      (now : Timeval) (s : Sink W) (b : Bool) (t : Sink W) → check size work now s ≢ returned b t
  unfolding check
  check-returned now s b t e = elim (Bool-cases (complete size s.tracker)) [
    | inl c ↦ finish-returned now s b t (rw (c, check) at e)
    | inr c ↦ cc (rw (c, check) at e)
  ]

  idle-returned :
      (now : Timeval) (s : Sink W) (b : Bool) (t : Sink W) → idle size work now s ≢ returned b t
  unfolding idle finish call
  idle-returned now s b t e = ground arith

  call-returned :
      (c : Call) (s : Sink W) (rest : Sink W → Outcome W) (b : Bool) (t : Sink W)
      → ((u : Sink W) → rest u ≢ returned b t)
      → call size work c s rest ≢ returned b t
  unfolding call
  call-returned c s rest b t h e = elim (Option-cases (work c s.worker)) [
    | inl threw_is ↦ cc (rw (threw_is, call) at e)
    | inr (w, some_is) ↦ h (record s { worker = w }) (rw (some_is, call) at e)
  ]

  handle_first-returned :
      (now : Timeval) (m : SinkMsg) (s : Sink W) (b : Bool) (t : Sink W)
      → handle_first size work now m s ≢ returned b t
  unfolding handle_first
  handle_first-returned now m s b t =
      call-returned (first m.id) s _ b t
        λ u. check-returned now (record u { tracker = set_first m.id u.tracker; started = now }) b t

  handle_last-returned :
      (now : Timeval) (m : SinkMsg) (s : Sink W) (b : Bool) (t : Sink W)
      → handle_last size work now m s ≢ returned b t
  unfolding handle_last
  handle_last-returned now m s b t =
      call-returned (last m.id) s _ b t
        λ u. check-returned now (record u { tracker = set_last size m.id u.tracker }) b t

  track-returned :
      (now : Timeval) (o : Option MsgTracker) (s : Sink W) (b : Bool) (t : Sink W)
      → let checked : Outcome W = elim o [
        | none ↦ undefined
        | some u ↦ check size work now (record s { tracker = u })
      ] in
        checked ≢ returned b t
  track-returned now none s b t e = cc e
  track-returned now (some u) s b t e = check-returned now (record s { tracker = u }) b t e

  handle_data-returned :
      (now : Timeval) (m : SinkMsg) (s : Sink W) (b : Bool) (t : Sink W)
      → handle_data size work now m s ≢ returned b t
  unfolding handle_data
  handle_data-returned now m s b t =
      call-returned (process m.id m.payload) s _ b t
        (λ u. track-returned now (track size m.id u.tracker) u b t)

  handle-returned :
      (now : Timeval) (m : SinkMsg) (s : Sink W) (b : Bool) (t : Sink W)
      → handle size work now m s ≡ returned b t
      → (b ≡ false) × (t ≡ s) × (m.code ≢ pos 1) × (m.code ≢ pos 2) × (m.code ≢ pos 3)
  unfolding handle
  handle-returned now m s b t e = ground (
    arith,
    handle_first-returned now m s b t,
    handle_data-returned now m s b t,
    handle_last-returned now m s b t,
  )

  module _ {Message : Type 0} (sinks : Codec Message SinkMsg) (kills : Codec Message ℤ) where
    receive-returned :
        (r : Round Message) (m : Message) (s : Sink W) (b : Bool) (t : Sink W)
        → receive size work sinks kills r m s ≡ returned b t
        → Stops sinks kills r.interrupted (message m) b
          × (t.tracker ≡ s.tracker)
          × (t.worker ≡ s.worker)
    unfolding receive
    receive-returned r m s b t e = elim (Bool-cases r.interrupted) [
      | inl quit ↦
          let ended : returned true s ≡ returned b t = rw (quit, receive) at e in
          let says : b ≡ true = ground arith in (rw says quit, ground arith, ground arith)
      | inr running ↦ elim (Option-cases (sinks.unpack m)) [
        | inl bad ↦ cc (rw (running, bad, receive) at e)
        | inr (d, read) ↦
            let (says, same, odd1, odd2, odd3) =
              handle-returned r.now d s b t (rw (running, read, receive) at e) in
            (rw says (d, read, odd1, odd2, odd3), rw same, rw same)
      ]
    ]

    dispatch-returned :
        (r : Round Message) (p : Polled Message) (s : Sink W) (b : Bool) (t : Sink W)
        → dispatch size work sinks kills r p s ≡ returned b t
        → Stops sinks kills r.interrupted p b × (t.tracker ≡ s.tracker) × (t.worker ≡ s.worker)
    unfolding dispatch
    dispatch-returned r (message m) s b t e = receive-returned r m (record s { retries = 0 }) b t e
    dispatch-returned r (control none) s b t e = ground arith
    dispatch-returned r (control (some m)) s b t e = ground arith
    dispatch-returned r none_ready s b t e = absurd (idle-returned r.now s b t e)

    -- Only the interrupt, the kill message and a message of an unknown kind end the loop (with
    -- `true`, `true` and `false`), and then they leave the tracker and the worker as they were.
    pub step-returned :
        (r : Round Message) (s : Sink W) (b : Bool) (t : Sink W)
        → step size work sinks kills r s ≡ returned b t
        → (((r.should_quit ≡ true) × (b ≡ true)) ⊎ Stops sinks kills r.interrupted r.polled b)
          × (t.tracker ≡ s.tracker)
          × (t.worker ≡ s.worker)
    unfolding step
    step-returned r s b t e = elim (Bool-cases r.should_quit) [
      | inl quit ↦ ground arith
      | inr running ↦
          let (stops, same, kept) = dispatch-returned r r.polled s b t (rw (running, step) at e) in
          (inr stops, same, kept)
    ]

-- A result that comes while no batch is under way is reported at once as if it were a whole batch,
-- and forgotten: the sink is idle again, and its id will be missing from the batch that follows.
pub handle-data_too_early :
    {W : Type 0} (size : ℕ) (work : SinkWorker W) (now : Timeval) (n : ℕ) (d : List Bytes)
    (s : Sink W) (w : W)
    → n + 2 < int_limit
    → s.tracker ≡ fresh
    → calls work (process (pos n) d ∷ results (get_total s.started now) ∷ []) s.worker ≡ some w
    → handle size work now (data_msg (pos n) d empty_msg) s
      ≡ goes_on (record s { tracker = fresh; worker = w })
unfolding handle
handle-data_too_early size work now n d s w h idle e =
    let c = results (get_total s.started now) in
    let (v, handed, later) = calls-cons work (process (pos n) d) (c ∷ []) s.worker w e in
    let (w', told, over) = calls-cons work c [] v w later in
    let (u, tracked, full) = track_early size n h in
    let same = calls-nil work w' w over in
    rw (handed, call, idle, tracked)
      (unfold check in
        rw full (
          unfold finish in
          rw (told, call)
            (ap (λ (x : _). goes_on (record s { tracker = fresh; worker = x })) same)))
