-- ===== src/Cases/Averages.antt =====
-- A batch of lengths, for work/workcharcount.cpp and sink/sinkavg.cpp.
use skweltch.Prelude.{◌≡◌, refl, some, none, List, [], ◌∷◌, ◌++◌, codes, pos, arith}
use skweltch.Elapsed.{Timeval, get_total}
use skweltch.Msg.{empty_msg, first_msg}
use skweltch.Sink.{start, goes_on, run}
use skweltch.Sink.Batch.{Whole, delivers, to_msg, feed}
use skweltch.Sink.Collect.{items}
use skweltch.Tracker.{fresh}
use skweltch.Workers.{average_work}
use skweltch.Workers.Averaged.{Piece, item_of, timed, state_of, averaged, run-average}
use skweltch.Cases.Batches.{sinks, kills, clock}
use skweltch.Cases.Machines.{unary, plain_double}

abbrev some_answers : List (Timeval × Piece)
some_answers = (clock 2, some (1, codes "abc")) ∷ (clock 3, none) ∷ []

some_answers-Whole : ¬ Whole 0 1 (items (timed unary plain_double some_answers))
some_answers-Whole h = ground (arith, h.1 0 (omega arith) (omega arith))

-- A text of four bytes has been counted before.
run-average_example :
    run 2
      (average_work unary plain_double)
      sinks
      kills
      (delivers sinks (clock 1) (first_msg (pos 0) empty_msg)
        ∷ (feed sinks 1 (timed unary plain_double some_answers)
            ++ (delivers sinks
                  (clock 4)
                  (to_msg 1 (item_of unary plain_double (some (0, codes "de"))))
                ∷ [])))
      (start (clock 0) (state_of unary plain_double 1 4 []))
    ≡ goes_on (record {
      tracker = fresh;
      retries = 0;
      started = clock 1;
      worker =
          averaged unary plain_double 1 4 []
            (some (1, codes "abc") ∷ none ∷ some (0, codes "de") ∷ [])
            3000;
    })
unfolding get_total
run-average_example =
    run-average unary plain_double 2 sinks kills 0 1 (clock 1) (clock 4) some_answers
      (some (0, codes "de")) (start (clock 0) (state_of unary plain_double 1 4 [])) 1 4 []
      (omega arith) (omega arith) (omega arith) refl refl ((omega arith, omega arith), (tt, tt))
      (omega arith, omega arith) some_answers-Whole (tt, λ n lo hi. ground arith) (omega arith)
      (omega arith)
