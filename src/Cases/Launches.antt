-- ===== src/Cases/Launches.antt =====
-- The start of a program, and the programs on a pipe.
use skweltch.Prelude.{
  ℕ, ◌≡◌, refl, Bool, true, false, Option, none, some, not, ◌==◌, List, [], ◌∷◌, Bytes, codes,
  equal, pos, if◌then◌else◌, arith,
}
use skweltch.Json.{Value, str, int, object, end_object, pair}
use skweltch.Json.JsonObject.{get_string, get_child, get_int, get_value}
use skweltch.Cases.Machines.{show_unary}
use skweltch.Ports.{SocketCall, join}
use skweltch.Programs.{Options, ◌>>=◌, subscribe, join_pipe, setup_main}
use skweltch.Programs.Mains.{run_sinkavg}
use skweltch.Programs.Dispatch.{sinkavg, run_program, set_up, main}
use skweltch.Programs.Joins.{Done, plan_of}
use skweltch.Programs.Started.{main-Done}
use skweltch.Programs.Passing.{pass_count, pass_dump, pass_count-sent}

abbrev bound_pipe : Value ℕ
bound_pipe = object (
    pair (codes "mode") (str (codes "bind"))
      (pair (codes "address") (str (codes "*")) (pair (codes "port") (int (pos 2)) end_object)))

-- The text `p` is that of the pipes, and any other one that of an empty object.
abbrev read_text : Bytes → Option (Value ℕ)
read_text text = some (
    if equal text (codes "p")
    then object (pair (codes "pullFrom") bound_pipe end_object)
    else object end_object)

abbrev in_order : List Bytes → Options
in_order (p ∷ c ∷ n ∷ []) = record { help = false; pipes = some p; config = some c; name = some n }
in_order _ = record { help = true; pipes = none; config = none; name = none }

abbrev any_call : SocketCall → Bool
any_call c = true

abbrev three_texts : List Bytes
three_texts = codes "p" ∷ codes "c" ∷ codes "sink" ∷ []

main-Done_example :
    (pipes : Value ℕ) × (root : Value ℕ) × (set_up in_order read_text (sinkavg true) three_texts
      ≡ some (pipes, root))
    × Done show_unary any_call pipes
        (plan_of (sinkavg true))
        (main in_order read_text show_unary any_call (sinkavg true) three_texts).steps
unfolding equal
main-Done_example =
    main-Done show_unary any_call in_order read_text (sinkavg true) three_texts (pos 0) (
      unfold main ◌>>=◌ set_up setup_main run_program run_sinkavg join_pipe subscribe join get_child
        get_value get_string get_int in
      refl)

-- The message `b` does not come unpacked; it is not due.
abbrev not_b : Bytes → Bool
not_b [] = true
not_b (c ∷ m) = not (c == b'b')

pass_count-sent_example :
    (pass_count (pos 2) 0 (codes "a" ∷ codes "b" ∷ codes "c" ∷ [])
      ≡ some (record {
        sent = codes "a" ∷ codes "b" ∷ codes "c" ∷ [];
        logged = 0 ∷ 2 ∷ [];
        threw = false;
      }))
    × (pass_dump not_b (pos 2) 0 (codes "a" ∷ codes "b" ∷ codes "c" ∷ [])
        ≡ some (record {
          sent = codes "a" ∷ codes "b" ∷ codes "c" ∷ [];
          logged = codes "a" ∷ codes "c" ∷ [];
          threw = false;
        }))
pass_count-sent_example =
    pass_count-sent 1 (pos 2) refl not_b (codes "a" ∷ codes "b" ∷ codes "c" ∷ []) 0 0 0 refl
      (omega arith) (refl, (refl, tt))
