-- ===== src/Cases/Batches.antt =====
-- Batches for core/MsgTracker.cpp, core/Sink.cpp and core/Elapsed.cpp, with buckets of two bits.
use skweltch.Prelude.{
  ℕ, ◌≤◌, ◌≡◌, ◌↔◌, refl, true, false, Option, none, some, List, [], ◌∷◌, ◌++◌, ℤ, pos, arith,
}
use skweltch.Elapsed.{Timeval, get_total}
use skweltch.Msg.{Codec, SinkMsg, empty_msg, first_msg, data_msg}
use skweltch.Tracker.{MsgTracker, fresh, complete}
use skweltch.Tracker.Batch.{contains}
use skweltch.Tracker.Complete.{batch, batch-complete}
use skweltch.Sink.{
  Call, first, process, last, results, SinkWorker, Sink, goes_on, start, handle, run,
}
use skweltch.Sink.Batch.{calls, data_of, ends, to_msg, Whole, delivers, feed}
use skweltch.Sink.Collect.{Timed, items, run-not-Whole, run-Whole}
use skweltch.Sink.Waiting.{handle-data_too_early}

-- The ids 4, 5 and 6, of which 6 comes first and 5 after the last message.
batch-complete_example :
    (t : MsgTracker) × (batch 2 4 6 (6 ∷ 4 ∷ []) (5 ∷ []) ≡ some t)
    × ((complete 2 t ≡ true)
        ↔ ((n : ℕ) → 4 ≤ n → n ≤ 6 → contains n ((6 ∷ 4 ∷ []) ++ (5 ∷ [])) ≡ true))
batch-complete_example =
    batch-complete 2 4 6 (omega arith) (omega arith) (6 ∷ 4 ∷ []) (5 ∷ []) (omega arith)
      (((omega arith, omega arith), ((omega arith, omega arith), tt)))
      ((omega arith, omega arith), tt)

-- What is on the wire, and the two kinds of messages on it.
pub data Wire : Type 0 where
  to_sink : SinkMsg → Wire
  to_kill : ℤ → Wire

abbrev pub read_sink : Wire → Option SinkMsg
read_sink (to_sink m) = some m
read_sink (to_kill v) = none

abbrev pub read_kill : Wire → Option ℤ
read_kill (to_sink m) = none
read_kill (to_kill v) = some v

abbrev pub sinks : Codec Wire SinkMsg
sinks = record { pack = to_sink; unpack = read_sink; unpack-pack = λ _. refl }

abbrev pub kills : Codec Wire ℤ
kills = record { pack = to_kill; unpack = read_kill; unpack-pack = λ _. refl }

-- A worker that writes down its calls, the last one first.
abbrev notes : SinkWorker (List Call)
notes c w = some (c ∷ w)

-- A time of the day.
abbrev pub clock : ℕ → Timeval
clock n = record { sec = n; usec = 0 }

abbrev first_two : List Timed
first_two = (clock 2, data_of 1 []) ∷ (clock 3, ends) ∷ []

-- The ids 0 and 1 are due, and 0 is missing.
first_two-not-Whole : ¬ Whole 0 1 (items first_two)
first_two-not-Whole h = ground (arith, h.1 0 (omega arith) (omega arith))

all-Whole : Whole 0 1 (items first_two ++ data_of 0 [] ∷ [])
all-Whole = (tt, λ n lo hi. ground arith)

run-not-Whole_example :
    (t : Sink (List Call)) × (run 2 notes sinks kills
        (delivers sinks (clock 1) (first_msg (pos 0) empty_msg) ∷ feed sinks 1 first_two)
        (start (clock 0) [])
      ≡ goes_on t)
    × (t.worker ≡ last (pos 1) ∷ process (pos 1) [] ∷ first (pos 0) ∷ [])
    × (complete 2 t.tracker ≡ false)
unfolding calls
run-not-Whole_example =
    run-not-Whole 2 notes sinks kills 0 1 (omega arith) (omega arith) (omega arith) (clock 1)
      first_two (start (clock 0) []) (last (pos 1) ∷ process (pos 1) [] ∷ first (pos 0) ∷ []) refl
      ((omega arith, omega arith), (tt, tt)) first_two-not-Whole refl

abbrev whole_calls : List Call
whole_calls =
    results 3000 ∷ process (pos 0) [] ∷ last (pos 1) ∷ process (pos 1) [] ∷ first (pos 0) ∷ []

run-Whole_example :
    run 2 notes sinks kills
      (delivers sinks (clock 1) (first_msg (pos 0) empty_msg)
        ∷ (feed sinks 1 first_two ++ (delivers sinks (clock 4) (to_msg 1 (data_of 0 [])) ∷ [])))
      (start (clock 0) [])
    ≡ goes_on (record { tracker = fresh; retries = 0; started = clock 1; worker = whole_calls })
unfolding calls get_total
run-Whole_example =
    run-Whole 2 notes sinks kills 0 1 (omega arith) (omega arith) (omega arith) (clock 1) (clock 4)
      first_two (data_of 0 []) (start (clock 0) []) whole_calls refl
      ((omega arith, omega arith), (tt, tt)) (omega arith, omega arith) first_two-not-Whole
      all-Whole refl

handle-data_too_early_example :
    handle 2 notes (clock 2) (data_msg (pos 7) [] empty_msg) (start (clock 0) [])
    ≡ goes_on (record {
      tracker = fresh;
      retries = 0;
      started = clock 0;
      worker = results 2000 ∷ process (pos 7) [] ∷ [];
    })
unfolding calls get_total
handle-data_too_early_example =
    handle-data_too_early 2 notes (clock 2) 7 [] (start (clock 0) [])
      (results 2000 ∷ process (pos 7) [] ∷ []) (omega arith) refl refl
