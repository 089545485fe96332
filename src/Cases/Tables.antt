-- ===== src/Cases/Tables.antt =====
-- The tables of machine/tune.cpp and machine/soak.cpp.
use skweltch.Prelude.{ℕ, refl, true, false, some, [], ◌∷◌, ◌+◌, Bytes, codes, pos, equal}
use skweltch.Json.{Value, str, int, boolean, end_object, pair, object}
use skweltch.Json.JsonObject.{
  get_value, set_value, has_pair, has, get_array, get_bool, get_string, get_int, get_child,
  get_child_as_string, item_int, item_string, write, find_obj, find_pair, find_here, find_item,
  match_name,
}
use skweltch.Json.JsonPath.{
  find_key, step, loop, get_place, get_token, get_path, set_path_int, change_pair, change_at,
}
use skweltch.Pipes.{collect, collect_from}
use skweltch.Tasks.{
  run_command, run_copies, is_vent, block_command, start_block, start_blocks, start_from, start,
  do_vent, one_command,
}
use skweltch.Tasks as Tasks
use skweltch.Runner.{judge, run_one}
use skweltch.Tuner.{
  is_variable, high_to_low, select_value, tune_int, tune_variable, tune_variables, var_count, tune,
}
use skweltch.Table.{
  Ran, Tune, Flow, goes_on, state, tune_main, tune_groups, tune_group, tune_runs, tune_once,
  run_tuned, soak_main,
}
use skweltch.Table.Lines.{header, row}
use skweltch.Table.Aligned.{Aligned}
use skweltch.Table.Tuned.{tune_main-Aligned}
use skweltch.Cases.Machines.{
  unary, whole, no_text, show_unary, one_pid, vented_machine, run_of, took, all_same, plain_double,
  lowest, tuned_machine, tabs-unary, unary-full,
}

-- A group of one variable, which is mutated once, and run once.
abbrev one_group : Value ℕ
one_group = object (
    pair (codes "iterations") (int (pos 1)) (
      pair (codes "mutations") (int (pos 1)) (
        pair (codes "groups") (int (pos 1)) (
          pair (codes "a")
            (object (
              pair (codes "enabled") (boolean true) (
                pair (codes "group") (int (pos 1)) (
                  pair (codes "type") (str (codes "int")) (
                    pair (codes "low") (int (pos 2)) (
                      pair (codes "high") (int (pos 5)) (
                        pair (codes "var") (str (codes "x"))
                          (pair (codes "select") (str (codes "random")) end_object))))))))
            end_object))))

abbrev one_ran : Ran ℕ
one_ran = record {
  interrupted = false;
  reread = λ v. some vented_machine;
  bound = true;
  sent = true;
  passes = run_of (took 7) ∷ [];
  interrupted_after = false;
}

abbrev no_tabs : ℕ → Bytes
no_tabs x = codes "x"

abbrev add : ℕ → ℕ → ℕ
add x y = x + y

abbrev table_written : Flow (Tune ℕ ℕ)
table_written = goes_on (record {
  config = tuned_machine (pos 2);
  gen = 1;
  fail_on_error = false;
  table =
      row (record {
        group = pos 1;
        iter = pos 0;
        vars = codes "+11";
        iterations = pos 1;
        stats = record { fail = 0; low = pos 7; high = pos 7; sum = pos 7 };
      })
      ∷ header 1
      ∷ [];
})

tune_main-Aligned_example :
    Aligned show_unary no_tabs plain_double add (state table_written).table
    × Aligned show_unary no_tabs plain_double add (
        state (
          soak_main no_text unary whole
            (pos 0)
            show_unary
            one_pid
            plain_double
            all_same
            (pos 1)
            2
            (one_ran ∷ one_ran ∷ [])
            vented_machine))
unfolding tune_main tune_groups tune_group tune_runs tune_once run_tuned run_one judge var_count
    start start_from start_blocks start_block block_command is_vent do_vent Tasks.run_one
    one_command run_command find_obj find_pair find_here find_item match_name collect collect_from
    get_path get_place loop step get_token find_key has get_array item_int item_string get_child
    get_child_as_string get_value get_string get_int has_pair write equal tune tune_variables
    tune_variable tune_int select_value high_to_low is_variable get_bool set_path_int set_value
    change_at change_pair
tune_main-Aligned_example =
    tune_main-Aligned no_text unary whole (pos 0) show_unary one_pid plain_double all_same no_tabs
      add tabs-unary (λ x. refl) tabs-unary unary-full lowest 0 (tuned_machine (pos 0)) one_group
      (record { interrupted = false; runs = one_ran ∷ [] } ∷ []) table_written (pos 1) 2
      (one_ran ∷ one_ran ∷ []) vented_machine refl
