-- ===== src/Cases/Servers.antt =====
-- The machine server, for machine/machine.cpp, and the worker and watcher of build/
use skweltch.Prelude.{
  ℕ, ◌+◌, ◌^◌, append_assoc, append-nil, pos_part, length, replicate, ◌≡◌, refl, Bool, true, false,
  Option, none, some, List, [], ◌∷◌, ◌++◌, Bytes, codes, ℤ, pos, equal,
}
use skweltch.Json.JsonObject.{
  get_value, has_pair, has, get_array, get_child_as_string, item_int, item_string, write,
}
use skweltch.Json.JsonPath.{find_key, step, loop, get_place, get_token, get_path}
use skweltch.Msg.{Codec}
use skweltch.Build.{Pattern}
use skweltch.Work.{passes, kill_pass, run_work, returns}
use skweltch.Pipes.{collect, collect_from}
use skweltch.Tasks.{
  run_command, run_copies, is_vent, block_command, start_block, start_blocks, start_from, start,
}
use skweltch.Machine.{
  Server, Round, Loaded, not_found, loaded, running, exits, programs_started, new_server, start_msg,
  command_msg, after_start, start_machine, load_and_start, obey, step_server, run_server,
  stop_running,
}
use skweltch.Machine.History.{Balanced, Kept, quit_round, run_server-Balanced, run_server-quit}
use skweltch.Machine.Commands.{obey-command_msg}
use skweltch.Builder.{BuildMsg, new_worker, build_work}
use skweltch.Builder.Answers.{calls_of, results_from, worker, run_work-answered}
use skweltch.Poll.{PollRound}
use skweltch.Watch.{Crc, Node, file_node, dir_node, node, end_dir, watch_dir}
use skweltch.Watch.Changes.{texts, Watched, watch_dir-changes}
use skweltch.Cases.Machines.{unary, whole, no_text, next_pid, machine, show_unary}

abbrev nowhere : Bytes → Loaded ℕ
nowhere name = not_found

abbrev start_round : Round ℕ
start_round = record {
  interrupted = false;
  received = some (start_msg (codes "m"));
  query = λ id. loaded machine;
  file = nowhere;
  kill_sent = true;
}

abbrev started_server : Server ℕ
started_server = record {
  mode = running;
  config = machine;
  pids = 1 ∷ 2 ∷ [];
  commands = codes "run '{}' '{}' w[+]" ∷ codes "run '{}' '{}' w[+1]" ∷ [];
  history = programs_started (1 ∷ 2 ∷ []) ∷ [];
}

run_server-Balanced_example : Kept (
    run_server no_text unary whole
      (pos 0)
      show_unary
      next_pid
      (start_round ∷ quit_round nowhere nowhere ∷ [])
      new_server)
run_server-Balanced_example =
    run_server-Balanced no_text unary whole (pos 0) show_unary next_pid
      (start_round ∷ quit_round nowhere nowhere ∷ [])

run_server-quit_example :
    (t : Server ℕ) × (run_server no_text unary whole
        (pos 0)
        show_unary
        next_pid
        ((start_round ∷ []) ++ (quit_round nowhere nowhere ∷ []))
        new_server
      ≡ exits 0 t)
    × Balanced t.history []
unfolding run_server step_server obey load_and_start start_machine after_start start start_from
    start_blocks start_block run_copies run_command block_command is_vent collect collect_from
    get_path get_place loop step get_token find_key has get_array item_int item_string
    get_child_as_string get_value has_pair write equal
run_server-quit_example =
    run_server-quit no_text unary whole (pos 0) show_unary next_pid (start_round ∷ []) [] nowhere
      nowhere started_server refl

obey-command_msg_example :
    (obey no_text unary whole
        (pos 0)
        show_unary
        next_pid
        (record start_round { file = λ f. loaded machine })
        (start_msg (codes "m.json"))
        new_server
      ≡ obey no_text unary whole
          (pos 0)
          show_unary
          next_pid
          start_round
          (start_msg (codes "m.json"))
          new_server)
    × (command_msg (codes "start") (some (codes "n")) none ≡ some (start_msg (codes "n")))
    × (obey no_text unary whole
          (pos 0)
          show_unary
          next_pid
          start_round
          (start_msg (codes "n"))
          new_server
        ≡ stop_running true new_server
            (load_and_start no_text unary whole (pos 0) show_unary next_pid (loaded machine)))
unfolding command_msg equal
obey-command_msg_example =
    obey-command_msg no_text unary whole (pos 0) show_unary next_pid (codes "start")
      (some (codes "m.json")) none (start_msg (codes "m.json")) start_round (λ f. loaded machine)
      (codes "n") new_server refl

-- Messages are pairs of an id and the rest.
abbrev plain : Codec (ℤ × BuildMsg) BuildMsg
plain = record { pack = λ m. (m.id, m); unpack = λ p. some p.1; unpack-pack = λ _. refl }

abbrev plain_kills : Codec (ℤ × BuildMsg) ℤ
plain_kills = record {
  pack = λ v. (v, record { id = pos 0; time = pos 0; payload = [] });
  unpack = λ p. some p.0;
  unpack-pack = λ _. refl;
}

abbrev all_good : Pattern → Bytes → Bool
all_good p line = true

abbrev six_lines : ℕ → List Bytes
six_lines n = codes "1" ∷ codes "2" ∷ codes "3" ∷ codes "4" ∷ codes "5" ∷ codes "6" ∷ []

abbrev two_then_one : List (Option ℕ)
two_then_one = some 3 ∷ some 4 ∷ none ∷ some 5 ∷ []

run_work-answered_example :
    run_work
      (build_work all_good six_lines plain)
      plain_kills
      (passes
        (build_work all_good six_lines plain)
        plain_kills
        (calls_of all_good six_lines plain plain_kills two_then_one)
        (kill_pass (build_work all_good six_lines plain) plain_kills false ∷ []))
      new_worker
    ≡ returns (
        worker all_good six_lines plain plain_kills
          (some 5)
          1
          (results_from all_good six_lines plain plain_kills 0 (4 ∷ [])))
run_work-answered_example =
    run_work-answered all_good six_lines plain plain_kills two_then_one false []

-- A checksum that is the length of the texts, and more than an `int` holds.
abbrev long_crc : Crc
long_crc = record {
  State = Bytes;
  fresh = [];
  process_bytes = λ c s. c ++ s;
  checksum = λ c. length c + 2 ^ 32;
  process-append = λ c s t. append_assoc c s t;
  process-nil = λ c. append-nil c;
}

-- Names are one letter and an extension.
abbrev after_first : Bytes → Bytes
after_first [] = []
after_first (c ∷ name) = name

-- A time is as many stars.
abbrev starred : Bytes → ℤ → Bytes
starred name time = name ++ replicate (pos_part time) 42

abbrev project : ℤ → Node
project time = dir_node (codes "p") (
    node (file_node (codes "a.cpp") time) (
      node (dir_node (codes "bin") (node (file_node (codes "b.cpp") time) end_dir))
        (node (file_node (codes "c.txt") time) end_dir)))

abbrev round_at : ℤ → PollRound Node
round_at time = record { seen = project time; time = pos 0; quit_sending = false; quit = false }

-- The first message is sent though nothing has changed.
watch_dir-changes_example : Watched long_crc after_first starred (codes "p") 2 (
    watch_dir long_crc after_first starred
      (codes "p")
      (project (pos 1))
      (round_at (pos 1) ∷ round_at (pos 1) ∷ round_at (pos 3) ∷ []))
unfolding texts equal
watch_dir-changes_example =
    watch_dir-changes long_crc after_first starred (codes "p") (project (pos 1))
      (round_at (pos 1) ∷ round_at (pos 1) ∷ round_at (pos 3) ∷ []) ((refl, tt))
      (((refl, tt), refl), (((refl, tt), refl), (((refl, tt), refl), tt)))
