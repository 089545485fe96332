-- ===== src/Watch.antt =====
-- build/FileModChecker.cpp, build/polldir.cpp, build/Git.cpp and build/pollgit.cpp: the workers of a
-- `Poll` that wait for a change of a directory or of a repository. The checksum of boost, the
-- extension of a file's name and the text of a name and a time are parameters; so is what libgit2
-- and git answer. `nativePull`, which nothing calls, is left out.
pub mod Changes
use skweltch.Prelude.{
  ℕ, ◌+◌, ◌-◌, ◌^◌, ◌≡◌, Bool, true, false, not, ◌||◌, Option, none, some, Bytes, codes, equal,
  if◌then◌else◌, List, [], ◌∷◌, ◌++◌, length, leb, ltb, ℤ, pos, negsuc, ◌==ℤ◌, to_int, to_size,
  size_mod,
}
use skweltch.Result.{Result, ok, threw, undefined, other_error, runtime_error, ◌>>=◌}
use skweltch.Vent.{StringMsg}
use skweltch.Poll.{
  PollRound, PollEnd, throws, process_poll, new_poll, Poll, send_poll, Look, happens, stops, waits,
  fails, PollWorker,
}

-- A checksum that takes its input in parts.
pub record Crc : Type 1 where
  pub State : Type 0
  pub fresh : State
  pub process_bytes : State → Bytes → State
  pub checksum : State → ℕ
  pub process-append :
      (c : State) (s t : Bytes) → process_bytes (process_bytes c s) t ≡ process_bytes c (s ++ t)
  pub process-nil : (c : State) → process_bytes c [] ≡ c

-- What a path leads to: a file with the time of its last change, or a directory.
mutual
  pub data Node : Type 0 where
    file_node : Bytes → ℤ → Node
    dir_node : Bytes → Nodes → Node

  pub data Nodes : Type 0 where
    end_dir : Nodes
    node : Node → Nodes → Nodes

-- A `long` from 64 bits.
abbrev pub to_long : ℕ → ℤ
to_long n = if ltb n (2 ^ 63) then pos n else negsuc (size_mod - 1 - n)

-- `(int)` of a `long`
abbrev pub long_to_int : ℤ → ℤ
long_to_int z = to_int (to_size z)

-- The worker of polldir: `lastCrc`.
pub record DirWorker : Type 0 where
  pub last_crc : ℤ

-- Its constructor takes an `int`.
abbrev pub new_dir_worker : ℤ → DirWorker
new_dir_worker c = record { last_crc = long_to_int c }

-- A round of its `waitEvent`, which does not look at the interrupt.
abbrev pub look_at : Result ℤ → DirWorker → Look DirWorker
look_at (ok c) w = if c ==ℤ w.last_crc then waits w else happens (record { last_crc = c })
look_at (threw e) w = fails
look_at undefined w = fails

-- `send` of both workers, which gives the next id whatever `Poll::send` returns.
abbrev pub send_change : {W : Type 0} → Bytes → ℤ → Bool → ℕ → Poll → W → Option (ℕ × Poll)
send_change folder time quit n p w =
    elim (send_poll quit (record { id = n; time = time; payload = folder }) (pos 0) (pos 0) p) [
      | none ↦ none
      | some (q, more) ↦ some (n + 1, q)
    ]

module _ (crc : Crc) (extension : Bytes → Bytes) (show_file : Bytes → ℤ → Bytes) where
  abbrev pub is_source : Bytes → Bool
  is_source name = equal (extension name) (codes ".cpp") || equal (extension name) (codes ".hpp")

  -- What is thrown is a pointer to a string.
  unfoldable pub crc_text : Bytes → crc.State → Result crc.State
  crc_text text c =
      if leb 64 (length text) then threw other_error else ok (crc.process_bytes c text)

  -- `doDirCrc` of a directory, and what its loop does with a thing in one.
  unfoldable mutual
    unfolding crc_text

    pub crc_node : Node → crc.State → Result crc.State
    crc_node (file_node name time) c =
        if is_source name then crc_text (show_file name time) c else ok c
    crc_node (dir_node name ns) c =
        let rest = crc_nodes ns c in if equal name (codes "bin") then ok c else rest

    pub crc_nodes : Nodes → crc.State → Result crc.State
    crc_nodes end_dir c = ok c
    crc_nodes (node n ns) c = crc_node n c >>= λ d. crc_nodes ns d

  -- `getCrc`; what is no directory throws.
  unfoldable pub get_crc : Node → Result ℤ
  unfolding crc_node
  get_crc (file_node name time) =
      if equal name (codes "bin")
      then ok (to_long (crc.checksum crc.fresh))
      else threw runtime_error
  get_crc (dir_node name ns) = do
    c ← crc_node (dir_node name ns) crc.fresh
    ok (to_long (crc.checksum c))

  abbrev pub dir_worker : Bytes → PollWorker Node DirWorker
  dir_worker folder = record { look = λ n w. look_at (get_crc n) w; send = send_change folder }

  -- What `main` of polldir does, with the directory at its start.
  unfoldable pub watch_dir : Bytes → Node → List (PollRound Node) → PollEnd DirWorker
  unfolding get_crc
  watch_dir folder start rs = elim (get_crc start) [
    | ok c ↦ process_poll (dir_worker folder) rs 0 new_poll (new_dir_worker c)
    | threw e ↦ throws
    | undefined ↦ throws
  ]

-- What `Git::poll` finds: the folder, the results of three calls of libgit2, the remote that is
-- configured, and the output of `git pull`, `none` where `popen` fails.
pub record GitSeen : Type 0 where
  pub folder_exists : Bool
  pub opened : ℤ
  pub configured : ℤ
  pub got_url : ℤ
  pub remote_url : Bytes
  pub pulled : Option Bytes

-- An `int` as a `bool`.
abbrev pub is_nonzero : ℤ → Bool
is_nonzero z = not (z ==ℤ pos 0)

-- The text that git prints, with its end of line.
abbrev pub up_to_date : Bytes
up_to_date = codes "Already up-to-date." ++ (10 ∷ [])

abbrev pub shell_pull : Option Bytes → Bool
shell_pull none = true
shell_pull (some text) = not (equal text up_to_date)

unfoldable pub git_poll : Bytes → GitSeen → Bool
git_poll repos g =
    if g.folder_exists
    then if is_nonzero g.opened
      then is_nonzero g.opened
      else if is_nonzero g.configured
      then is_nonzero g.configured
      else if is_nonzero g.got_url
      then is_nonzero g.got_url
      else if not (equal repos g.remote_url)
      then is_nonzero g.got_url
      else shell_pull g.pulled
    else true

-- The worker of pollgit has no state; a round sees the interrupt first.
abbrev pub git_worker : Bytes → Bytes → PollWorker (Bool × GitSeen) Unit
git_worker folder repos = record {
  look = λ s w. if s.0 then stops w else if git_poll repos s.1 then happens w else waits w;
  send = send_change folder;
}
