-- ===== src/Builder.antt =====
-- build/workbash.cpp: the worker that builds after a change, and says how the build went. The lines of
-- the log file after the n-th run of the command are an argument; the command itself is only run.
pub mod Answers
use skweltch.Prelude.{
  ℕ, suc, ◌+◌, Bool, true, false, ◌&&◌, Option, none, some, Bytes, codes, if◌then◌else◌, List, [],
  ◌∷◌, ◌++◌, ℤ, pos, negsuc,
}
use skweltch.Msg.{Codec}
use skweltch.Build.{Pattern, BuildStatus, analyse}
use skweltch.Work.{WorkCall, process_msg, timeout, WorkWorker}

-- `StringMsg`, with the id of an `int`.
pub record BuildMsg : Type 0 where
  pub id : ℤ
  pub time : ℤ
  pub payload : Bytes

-- The member `msgid`, how often the command has been run, and what has been handed to the socket.
pub record BuildWorker : Type 0 where
  pub msgid : ℤ
  pub runs : ℕ
  pub sent : List BuildMsg

abbrev pub new_worker : BuildWorker
new_worker = record { msgid = negsuc 0; runs = 0; sent = [] }

module _ (matches : Pattern → Bytes → Bool) (log_lines : ℕ → List Bytes) where
  -- What is sent for a run.
  abbrev pub told : BuildStatus → Bytes
  told status = if status.work_done && status.success then codes "success" else codes "failed"

  abbrev pub result_of : ℤ → ℕ → BuildMsg
  result_of id runs = record {
    id = id;
    time = pos 0;
    payload = told (analyse matches (log_lines runs));
  }

  -- `timeout`
  pub build_timeout : BuildWorker → BuildWorker
  build_timeout w = elim w.msgid [
    | pos n ↦ record {
      msgid = negsuc 0;
      runs = w.runs + 1;
      sent = w.sent ++ (result_of (pos n) (w.runs + 1) ∷ []);
    }
    | negsuc n ↦ record { msgid = negsuc n; runs = w.runs; sent = w.sent }
  ]

  -- The worker; a message that cannot be unpacked throws.
  unfoldable pub build_work :
      {Message : Type 0} → Codec Message BuildMsg → WorkWorker Message BuildWorker
  unfolding build_timeout
  build_work codec (process_msg m) w = elim (codec.unpack m) [
    | none ↦ none
    | some msg ↦ some (record w { msgid = msg.id })
  ]
  build_work codec timeout w = some (build_timeout w)
