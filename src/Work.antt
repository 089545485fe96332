-- ===== src/Work.antt =====
-- core/Work.cpp: `Work::process`, the loop of a worker. Logging is left out; the sending of a result,
-- `SinkWorker::sendSinkMsg`, is the worker's own.
use skweltch.Prelude.{
  ◌≡◌, refl, Bool, false, Option, none, some, Option-cases, inl, inr, List, [], ◌∷◌, ℤ, pos, ◌==ℤ◌,
  if◌then◌else◌,
}
use skweltch.Msg.{Codec, kill_value}
use skweltch.Sink.{Polled, message, control, none_ready}

-- The calls that `process` makes of its `IWorkWorker`, a function of these; `none` is an exception.
pub data WorkCall (Message : Type 0) : Type 0 where
  process_msg : Message → WorkCall Message
  timeout : WorkCall Message

abbrev pub WorkWorker : Type 0 → Type 0 → Type 0
WorkWorker Message W = WorkCall Message → W → Option W

-- What a pass reads from outside: the interrupt at the head, after the poll and at the end.
pub record Pass (Message : Type 0) : Type 0 where
  pub at_head : Bool
  pub polled : Polled Message
  pub after_poll : Bool
  pub at_end : Bool

pub data Ended (W : Type 0) : Type 0 where
  works : W → Ended W
  returns : W → Ended W
  throws : Ended W

module _ {Message W : Type 0} (work : WorkWorker Message W) (kills : Codec Message ℤ) where
  -- A call, and the interrupt after it.
  pub call_work : WorkCall Message → Bool → W → Ended W
  call_work c quit w = elim (work c w) [
    | none ↦ throws
    | some v ↦ if quit then returns v else works v
  ]

  pub obey_work : Option Message → Bool → W → Ended W
  obey_work none quit w = if quit then returns w else works w
  obey_work (some m) quit w = elim (kills.unpack m) [
    | none ↦ throws
    | some v ↦ if v ==ℤ pos 0 then returns w else if quit then returns w else works w
  ]

  pub take_polled : Polled Message → Bool → W → Ended W
  unfolding call_work obey_work
  take_polled (message m) quit w = call_work (process_msg m) quit w
  take_polled (control m) quit w = obey_work m quit w
  take_polled none_ready quit w = call_work timeout quit w

  pub step_work : Pass Message → W → Ended W
  unfolding take_polled
  step_work r w =
      if r.at_head
      then returns w
      else if r.after_poll
      then returns w
      else take_polled r.polled r.at_end w

  -- The loop over the passes to come; it still works if these run out.
  pub run_work : List (Pass Message) → W → Ended W
  unfolding step_work
  run_work [] w = works w
  run_work (r ∷ rs) w = elim (step_work r w) [
    | works v ↦ run_work rs v
    | returns v ↦ returns v
    | throws ↦ throws
  ]

  -- The calls one after another.
  unfoldable pub all_calls : List (WorkCall Message) → W → Ended W
  all_calls [] w = works w
  all_calls (c ∷ cs) w = elim (work c w) [ none ↦ throws | some v ↦ all_calls cs v ]

  abbrev pub polls : WorkCall Message → Polled Message
  polls (process_msg m) = message m
  polls timeout = none_ready

  -- Passes without an interrupt, in which these messages come, or none.
  abbrev pub passes : List (WorkCall Message) → List (Pass Message) → List (Pass Message)
  passes [] rs = rs
  passes (c ∷ cs) rs =
      record { at_head = false; polled = polls c; after_poll = false; at_end = false }
      ∷ passes cs rs

  -- A pass in which the kill message comes.
  abbrev pub kill_pass : Bool → Pass Message
  kill_pass quit = record {
    at_head = false;
    polled = control (some (kills.pack kill_value));
    after_poll = false;
    at_end = quit;
  }

  step_work-polls :
      (c : WorkCall Message) (w : W)
      → step_work
          (record { at_head = false; polled = polls c; after_poll = false; at_end = false })
          w
        ≡ call_work c false w
  unfolding step_work take_polled
  step_work-polls (process_msg m) w = refl
  step_work-polls timeout w = refl

  step_work-kill_pass : (quit : Bool) (w : W) → step_work (kill_pass quit) w ≡ returns w
  unfolding step_work take_polled obey_work
  step_work-kill_pass quit w = rw (obey_work, kills.unpack-pack kill_value) refl

  abbrev pub returned_of : Ended W → Ended W
  returned_of (works w) = returns w
  returned_of (returns w) = returns w
  returned_of throws = throws

  -- Without an interrupt the worker is called for each message that comes, and for each poll in which
  -- none does, in their order, until the kill message; then the loop returns, and the worker is not
  -- called for what would have come later. Only an exception of the worker ends it before that.
  pub run_work-kill_pass :
      (cs : List (WorkCall Message)) (quit : Bool) (later : List (Pass Message)) (w : W)
      → run_work (passes cs (kill_pass quit ∷ later)) w ≡ returned_of (all_calls cs w)
  unfolding run_work all_calls
  run_work-kill_pass [] quit later w = rw (run_work, step_work-kill_pass quit w) refl
  run_work-kill_pass (c ∷ cs) quit later w = elim (Option-cases (work c w)) [
    | inl bad ↦ rw (run_work, step_work-polls c w, call_work, bad, all_calls) refl
    | inr (v, good) ↦
        rw (run_work, step_work-polls c w, call_work, good, all_calls)
          (run_work-kill_pass cs quit later v)
  ]
