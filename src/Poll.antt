-- ===== src/Poll.antt =====
-- core/Poll.cpp: the loop that sends a message for each event that its `IPollWorker` waits for. The
-- worker's own waiting is a loop too; a `PollRound` is one round of that, and what is read after it.
-- Sleeping and logging are left out, and a `send` that throws is only logged.
use skweltch.Prelude.{
  ℕ, ◌+◌, Bool, true, false, Option, none, some, List, [], ◌∷◌, ◌++◌, ℤ, if◌then◌else◌,
}
use skweltch.Vent.{StringMsg, slept}

-- The count, and what has been handed to the socket.
pub record Poll : Type 0 where
  pub count : ℕ
  pub sent : List StringMsg

abbrev pub new_poll : Poll
new_poll = record { count = 0; sent = [] }

-- `Poll::send`, with the interrupt after it; `none` where it is undefined.
unfoldable pub send_poll : Bool → StringMsg → ℤ → ℤ → Poll → Option (Poll × Bool)
unfolding slept
send_poll quit m sleeptime sleepevery p =
    let q = record p { sent = p.sent ++ (m ∷ []) } in
    if quit then some (q, false) else elim (slept sleeptime sleepevery (q.count + 1)) [
      | none ↦ none
      | some _ ↦ some (record q { count = q.count + 1 }, true)
    ]

-- What a round of `waitEvent` comes to: it returns true or false, goes on waiting, or throws.
pub data Look (W : Type 0) : Type 0 where
  happens : W → Look W
  stops : W → Look W
  waits : W → Look W
  fails : Look W

-- What a round sees; and, where it ends in an event, the clock, the interrupt in `send`, and the one
-- after it.
pub record PollRound (Seen : Type 0) : Type 0 where
  pub seen : Seen
  pub time : ℤ
  pub quit_sending : Bool
  pub quit : Bool

-- An `IPollWorker`: a round of `waitEvent`, and `send`, which gives the next id.
pub record PollWorker (Seen W : Type 0) : Type 0 where
  pub look : Seen → W → Look W
  pub send : ℤ → Bool → ℕ → Poll → W → Option (ℕ × Poll)

pub data PollEnd (W : Type 0) : Type 0 where
  polls : ℕ → Poll → W → PollEnd W
  returns : Bool → Poll → W → PollEnd W
  throws : PollEnd W

module _ {Seen W : Type 0} (worker : PollWorker Seen W) where
  -- `process`, over the rounds to come; it still polls if these run out.
  unfoldable pub process_poll : List (PollRound Seen) → ℕ → Poll → W → PollEnd W
  process_poll [] n p w = polls n p w
  process_poll (r ∷ rs) n p w = elim (worker.look r.seen w) [
    | happens v ↦ elim (worker.send r.time r.quit_sending n p v) [
      | none ↦ throws
      | some (m, q) ↦ if r.quit then returns false q v else process_poll rs m q v
    ]
    | stops v ↦ returns true p v
    | waits v ↦ process_poll rs n p v
    | fails ↦ throws
  ]
