-- ===== src/Machine.antt =====
-- machine/machine.cpp, the server that runs a machine at a time, and machine/machinecmd.cpp, which
-- sends it its commands as the messages of msg/MachineMsg.hpp. What a round reads from outside is a
-- `Round`: the database and the files at that time are functions, and a configuration that cannot be
-- read leaves some value behind. Waiting for processes that have been killed is left out.
pub mod History
pub mod Commands
use skweltch.Prelude.{
  ℕ, Bool, true, false, Option, none, some, ◌||◌, Bytes, codes, equal, if◌then◌else◌, List, [], ◌∷◌,
  ℤ, pos, ◌==ℤ◌,
}
use skweltch.Result.{Result, ok, threw, undefined}
use skweltch.Json.{Value, null, LexicalCast}
use skweltch.Tasks.{Started, start, do_vent}

-- The code and the data of a `MachineMsg`, and its factories, on a new message.
abbrev pub MachineMsg : Type 0
MachineMsg = ℤ × Bytes

abbrev pub start_msg : Bytes → MachineMsg
start_msg config = (pos 1, config)

abbrev pub start_machine_id_msg : Bytes → MachineMsg
start_machine_id_msg id = (pos 2, id)

abbrev pub vent_msg : MachineMsg
vent_msg = (pos 3, [])

abbrev pub stop_msg : MachineMsg
stop_msg = (pos 4, [])

abbrev pub quit_msg : MachineMsg
quit_msg = (pos 5, [])

-- The message that machinecmd sends for a command, with the options `jsonConfig` and `machineID`;
-- `none` is a command that it does not know.
unfoldable pub command_msg : Bytes → Option Bytes → Option Bytes → Option MachineMsg
command_msg cmd json_config machine_id =
    if equal cmd (codes "start")
    then elim json_config [
      | some config ↦ some (start_msg config)
      | none ↦ elim machine_id [ some id ↦ some (start_msg id) | none ↦ some (pos 0, []) ]
    ]
    else if equal cmd (codes "vent")
    then some vent_msg
    else if equal cmd (codes "stop")
    then some stop_msg
    else if equal cmd (codes "quit")
    then some quit_msg
    else none

pub data Mode : Type 0 where
  idle running : Mode

-- What comes of loading a configuration; without a record of that id in the database the one that is
-- there stays.
pub data Loaded (Real : Type 0) : Type 0 where
  not_found : Loaded Real
  unreadable : Value Real → Loaded Real
  loaded : Value Real → Loaded Real
  load_throws : Loaded Real

-- The programs that have been started, and those that have been sent the kill message and waited for.
pub data Happening : Type 0 where
  programs_started : List ℕ → Happening
  programs_killed : List ℕ → Happening

-- The variables of `main`, with the commands that have been run and the events, the last one first.
pub record Server (Real : Type 0) : Type 0 where
  pub mode : Mode
  pub config : Value Real
  pub pids : List ℕ
  pub commands : List Bytes
  pub history : List Happening

-- The interrupt and the message, `none` where it cannot be unpacked; and whether the control socket
-- takes a kill message.
pub record Round (Real : Type 0) : Type 0 where
  pub interrupted : Bool
  pub received : Option MachineMsg
  pub query : Bytes → Loaded Real
  pub file : Bytes → Loaded Real
  pub kill_sent : Bool

-- The server goes on, or `main` returns a number.
pub data Outcome (Real : Type 0) : Type 0 where
  goes_on : Server Real → Outcome Real
  exits : ℕ → Server Real → Outcome Real
  breaks : Server Real → Outcome Real

abbrev pub pids_of : Option (List ℕ) → List ℕ
pids_of none = []
pids_of (some pids) = pids

module _ {Real : Type 0} where
  abbrev pub new_server : Server Real
  new_server = record { mode = idle; config = null; pids = []; commands = []; history = [] }

  -- What `stop` does, where the kill message is sent.
  abbrev pub killed : Server Real → Server Real
  killed s = record s { pids = []; history = programs_killed s.pids ∷ s.history }

  abbrev pub stop : Bool → Server Real → (Server Real → Outcome Real) → Outcome Real
  stop sent s next = if sent then next (killed s) else exits 1 s

  -- `if (state == RUNNING)`, with what is done otherwise first.
  abbrev pub by_mode : Mode → Outcome Real → Outcome Real → Outcome Real
  by_mode idle resting busy = resting
  by_mode running resting busy = busy

  -- A machine that is running is stopped first.
  abbrev pub stop_running : Bool → Server Real → (Server Real → Outcome Real) → Outcome Real
  stop_running sent s next = by_mode s.mode (next s) (stop sent s next)

  abbrev pub then_on : Outcome Real → (Server Real → Outcome Real) → Outcome Real
  then_on (goes_on s) next = next s
  then_on (exits n s) next = exits n s
  then_on (breaks s) next = breaks s

  -- What a call of the monitor returns: false ends the server with 1, an exception with 0.
  abbrev pub concluded : Result Bool → Server Real → Server Real → Outcome Real
  concluded (ok true) tried went = goes_on went
  concluded (ok false) tried went = exits 1 tried
  concluded (threw e) tried went = exits 0 tried
  concluded undefined tried went = breaks tried

  module _ (writer : Value Real → Bytes) (cast : LexicalCast Real) (split : Bytes → List Bytes)
      (control : ℤ) (decimal : ℤ → Bytes) (spawn : List Bytes → Bytes → ℕ) where
    -- `mon.start(&r, &pids)`, and what is done with what it returns or throws.
    unfoldable pub after_start : Server Real → Started × Result Bool → Outcome Real
    after_start s (t, r) =
        let pids = pids_of t.pids in
        let history = programs_started pids ∷ s.history in
        concluded r
          (record {
            mode = s.mode;
            config = s.config;
            pids = pids;
            commands = t.commands;
            history = history;
          })
          (record {
            mode = running;
            config = s.config;
            pids = pids;
            commands = t.commands;
            history = history;
          })

    unfoldable pub start_machine : Server Real → Outcome Real
    unfolding after_start
    start_machine s = after_start s (
        start writer cast split control decimal spawn s.config
          (record { commands = s.commands; pids = some s.pids }))

    -- The configuration, and the start; `continue` where it cannot be read.
    unfoldable pub load_and_start : Loaded Real → Server Real → Outcome Real
    unfolding start_machine
    load_and_start not_found s = start_machine s
    load_and_start (unreadable v) s = goes_on (record s { config = v })
    load_and_start (loaded v) s = start_machine (record s { config = v })
    load_and_start load_throws s = exits 0 s

    unfoldable pub vent_machine : Server Real → Outcome Real
    vent_machine s =
        let (t, r) =
          do_vent writer cast split control decimal spawn s.config
            (record { commands = s.commands; pids = some [] }) in
        concluded r (record s { commands = t.commands }) (record s { commands = t.commands })

    -- The `switch`
    unfoldable pub obey : Round Real → MachineMsg → Server Real → Outcome Real
    unfolding load_and_start vent_machine
    obey r (code, text) s =
        if code ==ℤ pos 1 || code ==ℤ pos 2
        then stop_running r.kill_sent s
            (λ t. load_and_start (if code ==ℤ pos 1 then r.query text else r.file text) t)
        else if code ==ℤ pos 3
        then by_mode s.mode (goes_on s) (vent_machine s)
        else if code ==ℤ pos 4
        then by_mode s.mode (goes_on s)
            (stop r.kill_sent s (λ t. goes_on (record t { mode = idle })))
        else if code ==ℤ pos 5
        then stop_running r.kill_sent s (λ t. exits 0 t)
        else goes_on s

    unfoldable pub step_server : Round Real → Server Real → Outcome Real
    unfolding obey
    step_server r s =
        if r.interrupted
        then exits 0 s
        else elim r.received [ none ↦ exits 0 s | some m ↦ obey r m s ]

    -- The loop over the rounds to come.
    unfoldable pub run_server : List (Round Real) → Server Real → Outcome Real
    unfolding step_server
    run_server [] s = goes_on s
    run_server (r ∷ rs) s = then_on (step_server r s) (λ t. run_server rs t)
