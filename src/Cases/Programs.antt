-- ===== src/Cases/Programs.antt =====
-- A worker and a vent, for core/Work.cpp and core/Vent.cpp.
use skweltch.Prelude.{
  ℕ, ◌≡◌, refl, Bool, true, false, some, List, [], ◌∷◌, ◌++◌, Bytes, codes, ℤ, pos, Option, none,
  pos_part, ◌*◌, ◌+◌, equal, leb, ◌&&◌, ◌-◌, if◌then◌else◌, arith,
}
use Prim.Native.Nat.{◌/◌}
use skweltch.Msg.{Codec, last_msg, empty_msg}
use skweltch.Work.{
  WorkCall, process_msg, timeout, WorkWorker, returned_of, all_calls, passes, kill_pass, run_work,
  run_work-kill_pass,
}
use skweltch.Vent.{StringMsg, Vent, send_all, process_vent}
use skweltch.Vent.Numbered.{new_vent, first_told}
use skweltch.Vent.Delivered.{process_vent-wrap}
use skweltch.Xml.Document.{render}
use skweltch.Splitter.Elements.{elements_nodes}
use skweltch.Splitter.Whole.{wrap}
use skweltch.Cases.Documents.{outer, inside_outer, names, outer-IsDocument}
use skweltch.Ports.{bind_to}
use skweltch.Send.{Packed, text, number, sent, send_main, fields, send_main-fields}
use skweltch.Cases.Machines.{show_unary}
use skweltch.Vent.Randoms.{VentRandom, Floats, send_all_randoms, send_all_randoms-sent}
use skweltch.Result.{ok}
use skweltch.Words.{cut_last, send_words}
use skweltch.Words.Sent.{spaced, send_words-spaced}

-- A worker that writes down its calls, the last one first; a message is a number.
abbrev log_work : WorkWorker ℤ (List (WorkCall ℤ))
log_work c w = some (c ∷ w)

abbrev numbers : Codec ℤ ℤ
numbers = record { pack = λ v. v; unpack = λ v. some v; unpack-pack = λ _. refl }

run_work-kill_pass_example :
    run_work log_work numbers
      (passes log_work numbers
        (process_msg (pos 5) ∷ timeout ∷ process_msg (pos 6) ∷ [])
        (kill_pass log_work numbers false ∷ []))
      []
    ≡ returned_of log_work numbers
        (all_calls log_work numbers (process_msg (pos 5) ∷ timeout ∷ process_msg (pos 6) ∷ []) [])
run_work-kill_pass_example =
    run_work-kill_pass log_work numbers (process_msg (pos 5) ∷ timeout ∷ process_msg (pos 6) ∷ [])
      false [] []

abbrev never : List StringMsg → Bool
never ms = false

abbrev midnight : List StringMsg → ℤ
midnight ms = pos 0

-- The interrupt is seen behind the second message.
abbrev soon : List StringMsg → Bool
soon [] = false
soon (m ∷ []) = false
soon ms = true

process_vent-wrap_example :
    (w : Vent) × (process_vent
        (λ _. true)
        (send_all soon midnight
          (pos 0)
          (pos 1)
          names
          (codes "r/b")
          (render (wrap outer (elements_nodes (codes "b") inside_outer)) []))
        new_vent
      ≡ some (w, true))
    × (w.sent
        ≡ record { id = 0; time = pos 0; payload = codes "<b>x</b>" }
          ∷ record { id = 1; time = pos 0; payload = codes "<b c>y</b>" }
          ∷ [])
    × (w.told_sink ≡ first_told ++ last_msg (pos 0) empty_msg ∷ [])
process_vent-wrap_example =
    process_vent-wrap soon midnight (pos 0) (pos 1) (λ _. true) names (codes "b") (codes "r/b") []
      outer inside_outer (λ e. absurd (omega arith)) (λ _. refl) refl outer-IsDocument tt
      (tt, (tt, tt))

abbrev empty_vent : Vent
empty_vent = record { count = 0; sent = []; told_sink = [] }

send_words-spaced_example :
    send_words never midnight (spaced (codes "Hello,") (codes "World" ∷ [])) empty_vent
    ≡ ok (
      record {
        count = 2;
        sent =
            record { id = 0; time = pos 0; payload = codes "hello" }
            ∷ record { id = 1; time = pos 0; payload = codes "world" }
            ∷ [];
        told_sink = [];
      },
      pos 1,
    )
unfolding cut_last
send_words-spaced_example =
    send_words-spaced never midnight (λ ms. refl) (codes "Hello,") (codes "World" ∷ []) empty_vent
      ((λ e. cc e), search) (((λ e. cc e), search), tt)

-- Three numbers from 10 on.
abbrev draws : VentRandom
draws = record { count = pos 3; low = pos 10; high = pos 5; sleeptime = pos 0 }

-- Whole numbers for those with a point.
abbrev whole_numbers : Floats ℕ ℕ
whole_numbers = record {
  of_int = λ z. pos_part z;
  of_long = λ n. n;
  times = λ a b. a * b;
  widen = λ a. a;
  double_of = λ n. n;
  plus = λ a b. a + b;
  over = λ a b. a / b;
  truncate = λ a. some (pos a);
}

send_all_randoms-sent_example :
    send_all_randoms whole_numbers 2 (λ i. i) never midnight show_unary draws empty_vent
    ≡ some (
      record {
        count = 3;
        sent =
            record { id = 0; time = pos 0; payload = show_unary (pos 10) }
            ∷ record { id = 1; time = pos 0; payload = show_unary (pos 11) }
            ∷ record { id = 2; time = pos 0; payload = show_unary (pos 13) }
            ∷ [];
        told_sink = [];
      },
      pos 2,
    )
send_all_randoms-sent_example =
    send_all_randoms-sent whole_numbers 2 (λ i. i) never midnight show_unary draws (λ ms. refl) 2
      empty_vent refl

-- A digit reads as a number.
abbrev one_digit : Bytes → Option ℤ
one_digit [] = none
one_digit (c ∷ cs) = if leb 48 c && leb c 57 then some (pos (c - 48)) else none

send_main-fields_example :
    (p : Packed) × (send_main one_digit
        (λ c. true)
        (codes "bind" ∷ codes "tcp://*:5" ∷ codes "x" ∷ codes "7" ∷ [])
      ≡ sent (bind_to (codes "tcp://*:5")) p)
    × (fields one_digit p ≡ text (codes "x") ∷ number (pos 7) ∷ [])
unfolding equal
send_main-fields_example =
    send_main-fields one_digit (λ c. true) (codes "bind") (codes "tcp://*:5") (codes "x")
      (codes "7" ∷ []) (bind_to (codes "tcp://*:5")) refl refl
