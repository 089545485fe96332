-- ===== src/Tasks/Plan.antt =====
-- The commands that a machine is started with, for machine/TaskMonitor.cpp.
use mathlib.Core.Option
use skweltch.Prelude.{
  ℕ, zero, suc, ◌≡◌, refl, ap, sym, ◌∙◌, inl, inr, Bool, true, false, Option, none, some, ◌++◌,
  Bytes, codes, ◌==◌, if◌then◌else◌, List, [], ◌∷◌, ℤ, pos, negsuc, Bool-cases,
}
use skweltch.Result.{Result, ok, threw, undefined, runtime_error, other_error, ◌>>=◌}
use skweltch.Json.{Value, Array, end_array, item, LexicalCast}
use skweltch.Json.JsonObject.{get_array, has, item_string, item_int, get_child_as_string, write}
use skweltch.Pipes.{collect}
use skweltch.Tasks.{
  Started, caught, numbered, run_command, run_copies, run_block, block_command, start_block, go_on,
  start_blocks, start_from, start,
}
use skweltch.Tasks.Named.{is_the_vent, is_vent-named}

module _ {Real : Type 0} (writer : Value Real → Bytes) (cast : LexicalCast Real)
    (split : Bytes → List Bytes) (control : ℤ) (decimal : ℤ → Bytes)
    (spawn : List Bytes → Bytes → ℕ) where
  -- `prefix[i]` for each of the n numbers from i on.
  abbrev pub each_copy : Bytes → ℕ → ℕ → List Bytes
  each_copy prefix i zero = []
  each_copy prefix i (suc n) =
      (prefix ++ (codes "[" ++ (decimal (pos i) ++ codes "]"))) ∷ each_copy prefix (suc i) n

  -- With a positive count, a command for each copy, and else one without a number.
  abbrev pub commands_for : Bytes → ℤ → List Bytes
  commands_for prefix (pos (suc n)) = each_copy prefix 0 (suc n)
  commands_for prefix (pos zero) = prefix ∷ []
  commands_for prefix (negsuc n) = prefix ∷ []

  -- The commands of a block, from the configuration: none for the vent, and none without `exe`.
  abbrev pub block_plan : Value Real → Value Real → Result (List Bytes)
  block_plan root v = item_string v (codes "name") >>= λ name. is_the_vent root name >>= λ vent.
      if vent
      then ok []
      else (item_int v (codes "count") >>= λ count. has v (codes "exe") >>= λ runs.
          if runs
          then (item_string v (codes "exe") >>= λ exe.
              collect cast split root v control >>= λ pipes.
              get_child_as_string writer v (codes "config") >>= λ config. ok (
                commands_for
                  (exe
                    ++ (codes " '"
                        ++ (write writer pipes
                            ++ (codes "' '" ++ (config ++ (codes "' " ++ name))))))
                  count))
          else ok [])

  -- The commands of the blocks, and how their loop ends behind them: at the first block that throws.
  abbrev pub planned_block :
      Result (List Bytes) → List Bytes × Result Bool → List Bytes × Result Bool
  planned_block (ok cmds) (more, end) = (cmds ++ more, end)
  planned_block (threw e) rest = ([], threw e)
  planned_block undefined rest = ([], undefined)

  abbrev pub planned_blocks : Value Real → Array Real → List Bytes × Result Bool
  planned_blocks root end_array = ([], ok true)
  planned_blocks root (item v a) = planned_block (block_plan root v) (planned_blocks root a)

  -- A `runtime_error` ends with false.
  abbrev pub ended : Result Bool → Result Bool
  ended (ok b) = ok b
  ended (threw runtime_error) = ok false
  ended (threw other_error) = threw other_error
  ended undefined = undefined

  abbrev pub planned_from : Value Real → Result (Array Real) → List Bytes × Result Bool
  planned_from root (ok a) = ((planned_blocks root a).0, ended (planned_blocks root a).1)
  planned_from root (threw e) = ([], ended (threw e))
  planned_from root undefined = ([], undefined)

  abbrev pub plan : Value Real → List Bytes × Result Bool
  plan root = planned_from root (get_array root (codes "blocks"))

  -- A pid goes behind those that the caller has, who may ask for none.
  abbrev pub given : ℕ → Option (List ℕ) → Option (List ℕ)
  given pid none = none
  given pid (some pids) = some (pids ++ (pid ∷ []))

  -- Commands are run one after the other, up to the first that gets no pid.
  abbrev pub run_all : List Bytes → Result Bool → Started → Started × Result Bool
  run_all [] end s = (s, end)
  run_all (cmd ∷ cmds) end s =
      let pid = spawn s.commands cmd in
      let ran = s.commands ++ (cmd ∷ []) in
      let rest = run_all cmds end (record { commands = ran; pids = given pid s.pids }) in
      if pid == 0 then (record { commands = ran; pids = s.pids }, ok false) else rest

  given-map :
      (pid : ℕ) (pids : Option (List ℕ))
      → Option.map (λ (ps : List ℕ). ps ++ (pid ∷ [])) pids ≡ given pid pids
  given-map pid none = refl
  given-map pid (some pids) = refl

  ended-caught : (r : Result Bool) → caught r ≡ ended r
  ended-caught (ok b) = refl
  ended-caught (threw runtime_error) = refl
  ended-caught (threw other_error) = refl
  ended-caught undefined = refl

  run_all-cons :
      (cmd : Bytes) (cmds : List Bytes) (end : Result Bool) (s : Started)
      → run_all (cmd ∷ cmds) end s ≡ (
          let (t, went) = run_command decimal spawn cmd s in
          if went then run_all cmds end t else (t, ok false))
  unfolding run_command
  run_all-cons cmd cmds end s = elim (Bool-cases (spawn s.commands cmd == 0)) [
    | inl failed ↦ rw (run_command, failed) refl
    | inr went ↦ rw (run_command, went, given-map (spawn s.commands cmd) s.pids) refl
  ]

  abbrev commands_of : Option (Bytes × ℤ) → List Bytes
  commands_of none = []
  commands_of (some (cmd, count)) = commands_for cmd count

  abbrev told : Result (Option (Bytes × ℤ)) → Result (List Bytes)
  told (ok c) = ok (commands_of c)
  told (threw e) = threw e
  told undefined = undefined

  told->>= :
      {A : Type 0} (m : Result A) (f : A → Result (Option (Bytes × ℤ)))
      (g : A → Result (List Bytes))
      → ((a : A) → told (f a) ≡ g a)
      → told (m >>= f) ≡ (m >>= g)
  told->>= (ok a) f g h = h a
  told->>= (threw e) f g h = refl
  told->>= undefined f g h = refl

  told-if :
      (b : Bool) (x y : Result (Option (Bytes × ℤ))) (u v : Result (List Bytes))
      → told x ≡ u
      → told y ≡ v
      → told (if b then x else y) ≡ (if b then u else v)
  told-if true x y u v h k = h
  told-if false x y u v h k = k

  -- What the code makes of a block has the planned commands.
  block_command-plan :
      (root v : Value Real)
      → told (block_command writer cast split control root v) ≡ block_plan root v
  unfolding block_command
  block_command-plan root v = told->>= (item_string v (codes "name")) _ _ λ name.
      rw (is_vent-named root name) (
        told->>= (is_the_vent root name) _ _ λ vent. told-if vent _ _ _ _ refl (
          told->>= (item_int v (codes "count")) _ _ λ count.
            told->>= (has v (codes "exe")) _ _ λ runs.
              told-if runs _ _ _ _
                (told->>= (item_string v (codes "exe")) _ _ λ exe.
                  told->>= (collect cast split root v control) _ _ λ pipes.
                    told->>= (get_child_as_string writer v (codes "config")) _ _ λ config. refl)
                refl))

  run_copies-run_all :
      (cmd : Bytes) (i n : ℕ) (s : Started) (cmds : List Bytes) (end : Result Bool)
      → run_all (each_copy cmd i n ++ cmds) end s ≡ (
          let (t, went) = run_copies decimal spawn cmd i n s in
          if went then run_all cmds end t else (t, ok false))
  unfolding run_copies
  run_copies-run_all cmd i zero s cmds end = refl
  run_copies-run_all cmd i (suc n) s cmds end =
      run_all-cons (numbered decimal spawn cmd i) (each_copy cmd (suc i) n ++ cmds) end s
      ∙ elim (Bool-cases (run_command decimal spawn (numbered decimal spawn cmd i) s).1) [
        | inl went ↦ rw (run_copies, went) (run_copies-run_all cmd (suc i) n _ cmds end)
        | inr failed ↦ rw (run_copies, failed) refl
      ]

  run_block-run_all :
      (cmd : Bytes) (count : ℤ) (s : Started) (cmds : List Bytes) (end : Result Bool)
      → run_all (commands_for cmd count ++ cmds) end s ≡ (
          let (t, went) = run_block decimal spawn cmd count s in
          if went then run_all cmds end t else (t, ok false))
  run_block-run_all cmd (pos zero) s cmds end = run_all-cons cmd cmds end s
  run_block-run_all cmd (pos (suc n)) s cmds end = run_copies-run_all cmd 0 (suc n) s cmds end
  run_block-run_all cmd (negsuc n) s cmds end = run_all-cons cmd cmds end s

  start_block-run_all :
      (c : Result (Option (Bytes × ℤ))) (s : Started) (cmds : List Bytes) (end : Result Bool)
      → (let (t, r) = start_block decimal spawn c s in go_on t r (run_all cmds end t))
        ≡ run_all (planned_block (told c) (cmds, end)).0 (planned_block (told c) (cmds, end)).1 s
  unfolding start_block
  start_block-run_all (ok none) s cmds end = refl
  start_block-run_all (ok (some (cmd, count))) s cmds end =
      elim (Bool-cases (run_block decimal spawn cmd count s).1) [
        | inl went ↦ rw went (sym (run_block-run_all cmd count s cmds end ∙ rw went refl))
        | inr failed ↦ rw failed (sym (run_block-run_all cmd count s cmds end ∙ rw failed refl))
      ]
  start_block-run_all (threw e) s cmds end = refl
  start_block-run_all undefined s cmds end = refl

  start_blocks-run_all :
      (root : Value Real) (a : Array Real) (s : Started)
      → start_blocks writer cast split control decimal spawn root a s
        ≡ run_all (planned_blocks root a).0 (planned_blocks root a).1 s
  unfolding start_blocks
  start_blocks-run_all root end_array s = refl
  start_blocks-run_all root (item v a) s =
      let c = block_command writer cast split control root v in
      ap (go_on (start_block decimal spawn c s).0 (start_block decimal spawn c s).1)
        (start_blocks-run_all root a (start_block decimal spawn c s).0)
      ∙ start_block-run_all c s (planned_blocks root a).0 (planned_blocks root a).1
      ∙ ap
          (λ (r : Result (List Bytes)).
            run_all (planned_block r (planned_blocks root a)).0
              (planned_block r (planned_blocks root a)).1 s)
          (block_command-plan root v)

  run_all-ended :
      (cmds : List Bytes) (end : Result Bool) (s : Started)
      → (let (t, r) = run_all cmds end s in (t, caught r)) ≡ run_all cmds (ended end) s
  run_all-ended [] end s = ap (λ (r : Result Bool). (s, r)) (ended-caught end)
  run_all-ended (cmd ∷ cmds) end s = elim (Bool-cases (spawn s.commands cmd == 0)) [
    | inl failed ↦ rw (run_all, failed) refl
    | inr went ↦ rw (run_all, went) (run_all-ended cmds end _)
  ]

  start_from-run_all :
      (root : Value Real) (blocks : Result (Array Real)) (s : Started)
      → start_from writer cast split control decimal spawn root blocks s
        ≡ run_all (planned_from root blocks).0 (planned_from root blocks).1 s
  unfolding start_from
  start_from-run_all root (ok a) s =
      ap (λ (p : Started × Result Bool). (p.0, caught p.1)) (start_blocks-run_all root a s)
      ∙ run_all-ended (planned_blocks root a).0 (planned_blocks root a).1 s
  start_from-run_all root (threw e) s = ap (λ (r : Result Bool). (s, r)) (ended-caught (threw e))
  start_from-run_all root undefined s = refl

  -- `start` runs the commands of the machine's blocks in their order, without the block that `vent`
  -- names and without the blocks that have no program, a numbered one for each copy where there is a count. It ends with
  -- false at the first that gets no pid; otherwise behind the last of the commands, or of those before
  -- the first block that throws, with false for a `runtime_error`.
  pub start-plan :
      (root : Value Real) (s : Started)
      → start writer cast split control decimal spawn root s ≡ run_all (plan root).0 (plan root).1 s
  unfolding start
  start-plan root s = start_from-run_all root (get_array root (codes "blocks")) s
