-- ===== src/Tasks.antt =====
-- machine/TaskMonitor.cpp: the programs of a machine are started, a command each. `spawn` is
-- `ExeRunner::run`, the pid for a command after the ones before it, 0 where there is none; `writer`
-- writes a value as json_spirit does, and `decimal` writes an `int`.
pub mod Named
pub mod Plan
pub mod Pids
use mathlib.Core.Option
use skweltch.Prelude.{
  ℕ, zero, suc, Bool, true, false, Option, none, some, ◌++◌, Bytes, codes, equal, ◌==◌,
  if◌then◌else◌, List, [], ◌∷◌, ℤ, pos, negsuc,
}
use skweltch.Result.{Result, ok, threw, undefined, runtime_error, other_error, ◌>>=◌}
use skweltch.Json.{Value, null, Array, end_array, item, LexicalCast}
use skweltch.Json.JsonObject.{
  get_obj, get_string, get_array, has, item_int, item_string, write, get_child_as_string, find_obj,
  match_name,
}
use skweltch.Pipes.{collect}

-- The commands that have been run, and the pids that the caller is given; `none` is NULL.
pub record Started : Type 0 where
  pub commands : List Bytes
  pub pids : Option (List ℕ)

-- `catch (runtime_error &e)`, with which `start` returns false.
abbrev pub caught : Result Bool → Result Bool
caught (threw runtime_error) = ok false
caught r = r

-- How often the program of a block is started, and whether the copies are numbered.
abbrev pub copies : ℤ → ℕ
copies (pos n) = n
copies (negsuc n) = 0

-- `return` or the next block.
abbrev pub go_on : Started → Result Bool → Started × Result Bool → Started × Result Bool
go_on t (ok true) rest = rest
go_on t r rest = (t, r)

module _ (decimal : ℤ → Bytes) (spawn : List Bytes → Bytes → ℕ) where
  -- `er.run(cmd.str())` and what is done with the pid.
  unfoldable pub run_command : Bytes → Started → Started × Bool
  run_command cmd s =
      let pid = spawn s.commands cmd in
      let commands = s.commands ++ (cmd ∷ []) in
      if pid == 0 then (record { commands = commands; pids = s.pids }, false) else (
        record {
          commands = commands;
          pids = Option.map (λ (ps : List ℕ). ps ++ (pid ∷ [])) s.pids;
        },
        true,
      )

  abbrev pub numbered : Bytes → ℕ → Bytes
  numbered cmd i = cmd ++ (b'[' ∷ (decimal (pos i) ++ (b']' ∷ [])))

  -- The loop over the copies of a program, `n` more of them from the number `i` on.
  unfoldable pub run_copies : Bytes → ℕ → ℕ → Started → Started × Bool
  unfolding run_command
  run_copies cmd i zero s = (s, true)
  run_copies cmd i (suc n) s =
      let (t, went) = run_command (numbered cmd i) s in
      let rest = run_copies cmd (suc i) n t in if went then rest else (t, false)

  abbrev pub run_block : Bytes → ℤ → Started → Started × Bool
  run_block cmd count s = elim (copies count) [
    | zero ↦ run_command cmd s
    | suc n ↦ run_copies cmd 0 (suc n) s
  ]

  -- What is known of a block runs, or ends the loop.
  unfoldable pub start_block : Result (Option (Bytes × ℤ)) → Started → Started × Result Bool
  unfolding run_copies run_command
  start_block (ok none) s = (s, ok true)
  start_block (ok (some (cmd, count))) s = let (t, went) = run_block cmd count s in (t, ok went)
  start_block (threw e) s = (s, threw e)
  start_block undefined s = (s, undefined)

  -- `runOne`, once its command is made.
  unfoldable pub run_one : Result Bytes → Started → Started × Result Bool
  unfolding run_command
  run_one (ok cmd) s = let (t, went) = run_command cmd s in (t, ok went)
  run_one (threw e) s = (s, threw e)
  run_one undefined s = (s, undefined)

module _ {Real : Type 0} where
  -- Whether a block is the vent.
  unfoldable pub is_vent : Value Real → Bytes → Result Bool
  is_vent root name = do
    there ← has root (codes "vent")
    if there then (do vent ← get_string root (codes "vent"); ok (equal vent name)) else ok false

  module _ (writer : Value Real → Bytes) where
    -- The text of a command, up to the name.
    abbrev pub command : Bytes → Value Real → Bytes → Bytes → Bytes
    command exe pipes config name =
        exe
        ++ (codes " '" ++ (write writer pipes ++ (codes "' '" ++ (config ++ (codes "' " ++ name)))))

    module _ (cast : LexicalCast Real) (split : Bytes → List Bytes) (control : ℤ) where
      -- What a block is started with: the command and the count, `none` if it has no program.
      unfoldable pub block_command : Value Real → Value Real → Result (Option (Bytes × ℤ))
      unfolding is_vent
      block_command root v = do
        name ← item_string v (codes "name")
        vent ← is_vent root name
        if vent then ok none else (do
          count ← item_int v (codes "count")
          runs ← has v (codes "exe")
          if runs
              then (do
                exe ← item_string v (codes "exe")
                pipes ← collect cast split root v control
                config ← get_child_as_string writer v (codes "config")
                ok (some (command exe pipes config name, count)))
              else ok none)

      -- The command of `runOne`.
      unfoldable pub one_command : Value Real → Value Real → Result Bytes
      one_command root v = do
        pipes ← collect cast split root v control
        exe ← get_string v (codes "exe")
        config ← get_child_as_string writer v (codes "config")
        name ← get_string v (codes "name")
        ok (command exe pipes config name)

      module _ (decimal : ℤ → Bytes) (spawn : List Bytes → Bytes → ℕ) where
        -- The loop over the blocks.
        unfoldable pub start_blocks : Value Real → Array Real → Started → Started × Result Bool
        unfolding start_block block_command
        start_blocks root end_array s = (s, ok true)
        start_blocks root (item v a) s =
            let (t, r) = start_block decimal spawn (block_command root v) s in
            go_on t r (start_blocks root a t)

        -- What is done with the array of blocks, and `start`.
        unfoldable pub start_from :
            Value Real → Result (Array Real) → Started → Started × Result Bool
        unfolding start_blocks
        start_from root (ok a) s = let (t, r) = start_blocks root a s in (t, caught r)
        start_from root (threw e) s = (s, caught (threw e))
        start_from root undefined s = (s, undefined)

        unfoldable pub start : Value Real → Started → Started × Result Bool
        unfolding start_from
        start root s = start_from root (get_array root (codes "blocks")) s

        -- `doBlock` and `doVent`
        unfoldable pub do_block : Value Real → Bytes → Started → Started × Result Bool
        unfolding run_one one_command
        do_block root block s =
            run_one decimal spawn (find_obj (match_name block) root >>= λ v. one_command root v) s

        unfoldable pub do_vent : Value Real → Started → Started × Result Bool
        unfolding run_one one_command
        do_vent root s =
            run_one decimal spawn
              (get_string root (codes "vent") >>= λ vent.
                find_obj (match_name vent) root >>= λ v. one_command root v)
              s
