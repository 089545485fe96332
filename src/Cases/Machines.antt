-- ===== src/Cases/Machines.antt =====
-- The programs of a machine, its runs, and the tuning of one.
use skweltch.Prelude.{
  ℕ, zero, suc, ◌≡◌, ◌≢◌, refl, ap, Bool, true, false, Option, none, some, List, [], ◌∷◌, Bytes,
  codes, ℤ, pos, negsuc, equal, ◌==◌, if◌then◌else◌, length, All, replicate, length-replicate,
  arith, pos_part,
}
use skweltch.Result.{Result, ok}
use skweltch.Json.{
  Value, str, int, boolean, end_object, pair, object, array, item, end_array, LexicalCast,
}
use skweltch.Json.JsonObject.{
  get_value, set_value, has_pair, has, get_array, get_bool, get_string, get_int,
  get_child_as_string, item_int, item_string, write,
}
use skweltch.Json.JsonPath.{
  find_key, step, loop, get_place, get_token, get_path, set_path_int, change_pair, change_at,
}
use skweltch.Json.{null}
use skweltch.Json.JsonObject.{find_obj, find_pair, find_here, find_item, match_name}
use skweltch.Pipes.{collect, collect_from}
use skweltch.Tasks.{
  Started, run_command, run_copies, is_vent, block_command, start_block, start_blocks, start_from,
  start, do_vent, one_command,
}
use skweltch.Tasks as Tasks
use skweltch.Runner.{Pass, judge, run_one}
use skweltch.Runner.Gathered.{vented, vents, run_one-stats}
use skweltch.Tasks.Plan.{plan, run_all, start-plan}
use skweltch.Tasks.Pids.{start-true}
use skweltch.Tuner.{
  Double, Tuning, is_variable, high_to_low, select_value, tune_int, tune_variable, tune_variables,
  var_count, tune,
}
use skweltch.Tuner.Variables.{tabs, fields, tune-var_count}

-- An `int` in unary.
abbrev pub show_unary : ℤ → Bytes
show_unary (pos n) = b'+' ∷ replicate n b'1'
show_unary (negsuc n) = b'-' ∷ replicate n b'1'

abbrev pub read_unary : Bytes → Option ℤ
read_unary [] = none
read_unary (c ∷ cs) = if c == b'+' then some (pos (length cs)) else some (negsuc (length cs))

pub read_unary-show_unary : (n : ℤ) → read_unary (show_unary n) ≡ some n
read_unary-show_unary (pos n) = ap (λ (m : ℕ). some (pos m)) (length-replicate n b'1')
read_unary-show_unary (negsuc n) = ap (λ (m : ℕ). some (negsuc m)) (length-replicate n b'1')

abbrev pub unary : LexicalCast ℕ
unary = record {
  of_int = show_unary;
  of_bool = λ b. codes "1";
  of_real = λ x. x ∷ [];
  to_int = read_unary;
  to_int-of_int = read_unary-show_unary;
}

abbrev pub whole : Bytes → List Bytes
whole text = text ∷ []

abbrev pub no_text : Value ℕ → Bytes
no_text v = []

-- A pid is one more than the number of commands before.
abbrev pub next_pid : List Bytes → Bytes → ℕ
next_pid before cmd = suc (length before)

-- A machine of two copies of a worker.
abbrev pub machine : Value ℕ
machine = object (
    pair (codes "blocks")
      (array (
        item
          (object (
            pair (codes "name") (str (codes "w")) (
              pair (codes "count") (int (pos 2)) (
                pair (codes "exe") (str (codes "run"))
                  (pair (codes "connections") (object end_object) end_object)))))
          end_array))
      end_object)

abbrev at_rest : Started
at_rest = record { commands = []; pids = some [] }

-- A vent, which is not started, and two copies of a worker.
abbrev vent_and_worker : Value ℕ
vent_and_worker = object (
    pair (codes "vent") (str (codes "v")) (
      pair (codes "blocks")
        (array (
          item
            (object (
              pair (codes "name") (str (codes "v")) (
                pair (codes "exe") (str (codes "go"))
                  (pair (codes "connections") (object end_object) end_object))))
            (item
              (object (
                pair (codes "name") (str (codes "w")) (
                  pair (codes "count") (int (pos 2)) (
                    pair (codes "exe") (str (codes "run"))
                      (pair (codes "connections") (object end_object) end_object)))))
              end_array)))
        end_object))

abbrev two_commands : List Bytes
two_commands = codes "run '{}' '{}' w[+]" ∷ codes "run '{}' '{}' w[+1]" ∷ []

start-plan_example :
    start no_text unary whole (pos 0) show_unary next_pid vent_and_worker at_rest
    ≡ run_all no_text unary whole (pos 0) show_unary next_pid two_commands (ok true) at_rest
unfolding get_array equal item_string item_int has collect get_path step get_child_as_string
start-plan_example =
    start-plan no_text unary whole (pos 0) show_unary next_pid vent_and_worker at_rest

start-true_example :
    ((plan no_text unary whole (pos 0) show_unary next_pid vent_and_worker).1 ≡ ok true)
    × (two_commands ≡ (plan no_text unary whole (pos 0) show_unary next_pid vent_and_worker).0)
    × (◌≡◌ {A = Option (List ℕ)} (some (1 ∷ 2 ∷ [])) (some (1 ∷ 2 ∷ [])))
    × All (λ (pid : ℕ). (pid == 0) ≡ false) (1 ∷ 2 ∷ [])
unfolding get_array equal item_string item_int has collect get_path step get_child_as_string
start-true_example =
    start-true no_text unary whole (pos 0) show_unary next_pid vent_and_worker at_rest
      (record { commands = two_commands; pids = some (1 ∷ 2 ∷ []) })
      (start-plan no_text unary whole (pos 0) show_unary next_pid vent_and_worker at_rest)

-- The same machine with a vent, which gets the pid of every program here.
abbrev pub vented_machine : Value ℕ
vented_machine = object (
    pair (codes "vent") (str (codes "v")) (
      pair (codes "blocks")
        (array (
          item
            (object (
              pair (codes "name") (str (codes "v")) (
                pair (codes "exe") (str (codes "go"))
                  (pair (codes "connections") (object end_object) end_object))))
            end_array))
        end_object))

abbrev pub one_pid : List Bytes → Bytes → ℕ
one_pid before cmd = 1

abbrev pub run_of : Value ℕ → Pass ℕ
run_of v = record { interrupted_before = false; interrupted_after = false; results = v }

abbrev pub took : ℕ → Value ℕ
took n = object (pair (codes "elapsed") (int (pos n)) end_object)

abbrev none_started : Started
none_started = record { commands = []; pids = some [] }

abbrev pub all_same : ℕ → ℕ → Bool
all_same x y = false

run_one-stats_example :
    run_one no_text unary whole
      (pos 0)
      show_unary
      one_pid
      pos_part
      all_same
      (some vented_machine)
      true
      true
      false
      null
      (pos 3)
      (run_of (took 7) ∷ run_of null ∷ run_of (took 4) ∷ [])
      (pos 1)
      (pos 0)
      (codes "2")
    ≡ some (
      vented unary pos_part all_same null
          (vents no_text unary whole
            (pos 0)
            show_unary
            one_pid
            pos_part
            all_same
            vented_machine
            null)
          3
          [],
      ok (
        false,
        some (record {
          group = pos 1;
          iter = pos 0;
          vars = codes "2";
          iterations = pos 3;
          stats = record { fail = 1; low = pos 4; high = pos 7; sum = pos 11 };
        }),
      ),
    )
unfolding start start_from start_blocks start_block block_command is_vent do_vent Tasks.run_one
    one_command run_command find_obj find_pair find_here find_item match_name collect collect_from
    get_path get_place loop step get_token find_key has get_array item_int item_string
    get_child_as_string get_value get_string get_int has_pair write equal judge
run_one-stats_example =
    run_one-stats no_text unary whole (pos 0) show_unary one_pid pos_part all_same vented_machine
      null none_started
      ((run_of (took 7), some 7) ∷ (run_of null, none) ∷ (run_of (took 4), some 4) ∷ []) (pos 1)
      (pos 0) (codes "2") refl (λ before. refl)
      ((refl, refl, refl), ((refl, refl, refl), ((refl, refl, refl), tt))) (omega arith)

-- Whole numbers in place of `double`.
abbrev pub plain_double : Double ℕ
plain_double = record {
  of_int = pos_part;
  divide = λ x y. x;
  multiply = λ x y. x;
  minus = λ x y. x;
  to_int = λ x. ok (pos x);
}

abbrev pub lowest : ℤ → ℤ → ℕ → Result (ℤ × ℕ)
lowest low high gen = ok (low, suc gen)

abbrev pub tuned_machine : ℤ → Value ℕ
tuned_machine n =
    object (pair (codes "a") (object (pair (codes "x") (int n) end_object)) end_object)

abbrev tuner_config : Value ℕ
tuner_config = object (
    pair (codes "mutations") (int (pos 1)) (
      pair (codes "a")
        (object (
          pair (codes "enabled") (boolean true) (
            pair (codes "group") (int (pos 1)) (
              pair (codes "type") (str (codes "int")) (
                pair (codes "low") (int (pos 2)) (
                  pair (codes "high") (int (pos 5)) (
                    pair (codes "var") (str (codes "x"))
                      (pair (codes "select") (str (codes "random")) end_object))))))))
        end_object))

pub tabs-unary : (n : ℤ) → tabs (show_unary n) ≡ 0
tabs-unary (pos n) = tabs-ones n
  where
    tabs-ones : (m : ℕ) → tabs (replicate m b'1') ≡ 0
    tabs-ones zero = refl
    tabs-ones (suc m) = tabs-ones m
tabs-unary (negsuc n) = tabs-ones n
  where
    tabs-ones : (m : ℕ) → tabs (replicate m b'1') ≡ 0
    tabs-ones zero = refl
    tabs-ones (suc m) = tabs-ones m

pub unary-full : (n : ℤ) → show_unary n ≢ []
unary-full (pos n) e = cc e
unary-full (negsuc n) e = cc e

abbrev one_tuned : Tuning ℕ ℕ
one_tuned = record {
  config = tuned_machine (pos 2);
  gen = 1;
  fail_on_error = false;
  vars = 1;
  varstring = some (codes "+11");
}

tune-var_count_example :
    (var_count tuner_config (pos 1) ≡ ok 1)
    × (true ≡ true)
    × ((row : Bytes) × (some (codes "+11") ≡ some row) × (fields row ≡ 1))
unfolding tune tune_variables tune_variable tune_int select_value high_to_low is_variable get_int
    get_bool get_string get_value get_path set_path_int set_value change_at change_pair get_place
    loop step get_token find_key equal
tune-var_count_example =
    tune-var_count unary whole plain_double lowest tabs-unary unary-full tuner_config (pos 1)
      (pos 0) (tuned_machine (pos 0)) 0 false true one_tuned refl
