-- ===== src/Sink.antt =====
-- core/Sink.cpp: `Sink::process`, the loop that collects the results of a batch of work.
-- One pass of the loop is `step`; what it reads from outside (the poll, the sockets, the clock, the
-- interrupt flag) is a `Round`. Logging is left out, and `tracker.dump()`, which only logs.
pub mod Batch
pub mod Phase
pub mod Collect
pub mod Waiting
use skweltch.Prelude.{
  ℕ, ◌+◌, Bool, true, false, Option, none, some, List, [], ◌∷◌, Bytes, ltb, if◌then◌else◌, ℤ, pos,
  ◌==ℤ◌,
}
use skweltch.Elapsed.{Timeval, get_total}
use skweltch.Msg.{Codec, SinkMsg}
use skweltch.Tracker.{MsgTracker, fresh, reset, set_first, set_last, track, complete}

-- The calls that `process` makes of its `ISinkWorker`. A worker is a function of these; `none` is an
-- exception, which leaves `process`.
pub data Call : Type 0 where
  first : ℤ → Call
  process : ℤ → List Bytes → Call
  last : ℤ → Call
  results : ℕ → Call

abbrev pub SinkWorker : Type 0 → Type 0
SinkWorker W = Call → W → Option W

-- What `poller->poll` returns, with what `recv` then leaves in the message: after a failed `recv` of
-- a result that is an empty message, and of a control message nothing more is done (`none`). A poll
-- that throws is `none_ready`, the value that `recved` has then.
pub data Polled (Message : Type 0) : Type 0 where
  message : Message → Polled Message
  control : Option Message → Polled Message
  none_ready : Polled Message

-- `should_quit` is the answer at the head of the loop, `interrupted` the one after `recv`, and `now`
-- the time of this pass.
pub record Round (Message : Type 0) : Type 0 where
  pub should_quit : Bool
  pub polled : Polled Message
  pub interrupted : Bool
  pub now : Timeval

-- The locals of `process`, and the worker's own state.
pub record Sink (W : Type 0) : Type 0 where
  pub tracker : MsgTracker
  pub retries : ℕ
  pub started : Timeval
  pub worker : W

pub data Outcome (W : Type 0) : Type 0 where
  goes_on : Sink W → Outcome W
  returned : Bool → Sink W → Outcome W
  -- an exception
  threw : Outcome W
  -- a write outside the tracker's buckets
  undefined : Outcome W

abbrev pub max_retries : ℕ
max_retries = 5

abbrev pub start : {W : Type 0} → Timeval → W → Sink W
start now w = record { tracker = fresh; retries = 0; started = now; worker = w }

module _ {W : Type 0} (size : ℕ) (work : SinkWorker W) where
  pub call : Call → Sink W → (Sink W → Outcome W) → Outcome W
  call c s rest = elim (work c s.worker) [ none ↦ threw | some w ↦ rest (record s { worker = w }) ]

  -- `worker->results(…); tracker.reset();`
  pub finish : Timeval → Sink W → Outcome W
  unfolding call
  finish now s =
      call (results (get_total s.started now)) s
        λ t. goes_on (record t { tracker = reset t.tracker })

  -- `if (tracker.complete()) …`
  pub check : Timeval → Sink W → Outcome W
  unfolding finish
  check now s = if complete size s.tracker then finish now s else goes_on s

  -- The three known messages.
  pub handle_first : Timeval → SinkMsg → Sink W → Outcome W
  unfolding call check
  handle_first now m s =
      call (first m.id) s
        λ t. check now (record t { tracker = set_first m.id t.tracker; started = now })

  pub handle_data : Timeval → SinkMsg → Sink W → Outcome W
  unfolding call check
  handle_data now m s = call (process m.id m.payload) s λ t. elim (track size m.id t.tracker) [
    | none ↦ undefined
    | some u ↦ check now (record t { tracker = u })
  ]

  pub handle_last : Timeval → SinkMsg → Sink W → Outcome W
  unfolding call check
  handle_last now m s =
      call (last m.id) s λ t. check now (record t { tracker = set_last size m.id t.tracker })

  -- The `switch` over a message, and what follows it.
  pub handle : Timeval → SinkMsg → Sink W → Outcome W
  unfolding handle_first handle_data handle_last
  handle now m s =
      if m.code ==ℤ pos 1
      then handle_first now m s
      else if m.code ==ℤ pos 2
      then handle_data now m s
      else if m.code ==ℤ pos 3
      then handle_last now m s
      else returned false s

  -- The pass with nothing to read.
  pub idle : Timeval → Sink W → Outcome W
  unfolding finish
  idle now s =
      if ltb max_retries s.retries
      then finish now s
      else goes_on (record s { retries = s.retries + 1 })

  module _ {Message : Type 0} (sinks : Codec Message SinkMsg) (kills : Codec Message ℤ) where
    pub receive : Round Message → Message → Sink W → Outcome W
    unfolding handle
    receive r m s =
        if r.interrupted
        then returned true s
        else elim (sinks.unpack m) [ none ↦ threw | some msg ↦ handle r.now msg s ]

    pub obey : Option Message → Sink W → Outcome W
    obey none s = goes_on s
    obey (some m) s = elim (kills.unpack m) [
      | none ↦ threw
      | some v ↦ if v ==ℤ pos 0 then returned true s else goes_on s
    ]

    pub dispatch : Round Message → Polled Message → Sink W → Outcome W
    unfolding receive obey idle
    dispatch r (message m) s = receive r m (record s { retries = 0 })
    dispatch r (control m) s = obey m s
    dispatch r none_ready s = idle r.now s

    unfoldable pub step : Round Message → Sink W → Outcome W
    unfolding dispatch
    step r s = if r.should_quit then returned true s else dispatch r r.polled s

    -- The loop over the rounds to come; it still waits if these run out.
    pub run : List (Round Message) → Sink W → Outcome W
    unfolding step
    run [] s = goes_on s
    run (r ∷ rs) s = elim (step r s) [
      | goes_on t ↦ run rs t
      | returned b t ↦ returned b t
      | threw ↦ threw
      | undefined ↦ undefined
    ]
