-- ===== src/Programs/Mains.antt =====
-- The `main` of each program, between its set-up and its loop: src/work, src/sink, src/vent, src/pipe
-- and workbash.cpp, sinkbuild.cpp, polldir.cpp and pollgit.cpp of src/build.
use skweltch.Prelude.{Bool, Option, Bytes, codes, ℤ, pos, if◌then◌else◌}
use skweltch.Result.{Result, runtime_error}
use skweltch.Json.{Value}
use skweltch.Json.JsonObject.{get_string, get_int}
use skweltch.Ports.{SocketCall}
use skweltch.Vent.Randoms.{VentRandom}
use skweltch.Programs.{
  Launch, ◌>>=◌, ◌>>◌, quiet, goes, fails, setting, subscribe, join_pipe, or_exit,
}

-- `if (process(&w)) return 0; else return 1;`, and `return 0` whatever it gives.
abbrev pub by_result : Bool → Launch ℤ
by_result done = quiet (goes (if done then pos 0 else pos 1))

abbrev pub zero_code : Launch ℤ
zero_code = quiet (goes (pos 0))

module _ {Real : Type 0} (decimal : ℤ → Bytes) (accepts : SocketCall → Bool) where
  -- Three sockets, of which the control socket subscribes.
  abbrev pub join_three : Value Real → Bytes → Bytes → Launch Unit
  join_three pipes first last = do
    join_pipe decimal accepts pipes first
    join_pipe decimal accepts pipes (codes "control")
    subscribe
    join_pipe decimal accepts pipes last

  -- workcharcount.cpp, workcharfreq.cpp and WorkSleep.cpp
  unfoldable pub run_workcharcount : Value Real → Value Real → Launch ℤ
  run_workcharcount pipes root = do join_three pipes (codes "pullFrom") (codes "pushTo"); zero_code

  unfoldable pub run_workcharfreq : Value Real → Value Real → Launch ℤ
  run_workcharfreq pipes root = do join_three pipes (codes "pullFrom") (codes "pushTo"); zero_code

  unfoldable pub run_worksleep : Value Real → Value Real → Launch ℤ
  run_worksleep pipes root = do join_three pipes (codes "pullFrom") (codes "pushTo"); zero_code

  -- workxpath.cpp
  unfoldable pub run_workxpath : Value Real → Value Real → Launch ℤ
  run_workxpath pipes root = do
    join_three pipes (codes "pullFrom") (codes "pushTo")
    xpath ← setting (get_string root (codes "xpath"))
    zero_code

  -- sinkavg.cpp, sinkcharfreq.cpp, sinkstrings.cpp and SinkElapsed.cpp, by the result of the sink.
  unfoldable pub run_sinkavg : Bool → Value Real → Value Real → Launch ℤ
  run_sinkavg done pipes root = do
    join_three pipes (codes "pullFrom") (codes "resultsTo")
    by_result done

  unfoldable pub run_sinkcharfreq : Bool → Value Real → Value Real → Launch ℤ
  run_sinkcharfreq done pipes root = do
    join_three pipes (codes "pullFrom") (codes "resultsTo")
    by_result done

  unfoldable pub run_sinkstrings : Bool → Value Real → Value Real → Launch ℤ
  run_sinkstrings done pipes root = do
    join_three pipes (codes "pullFrom") (codes "resultsTo")
    by_result done

  unfoldable pub run_sinkelapsed : Bool → Value Real → Value Real → Launch ℤ
  run_sinkelapsed done pipes root = do
    join_three pipes (codes "pullFrom") (codes "resultsTo")
    by_result done

  -- VentRandomNum.cpp
  unfoldable pub run_ventrandomnum : (VentRandom → Bool) → Value Real → Value Real → Launch ℤ
  run_ventrandomnum process pipes root = do
    low ← setting (get_int root (codes "low") (pos 1))
    high ← setting (get_int root (codes "high") (pos 100))
    join_three pipes (codes "pushTo") (codes "syncTo")
    count ← setting (get_int root (codes "count") (pos 10))
    sleeptime ← setting (get_int root (codes "sleep") (pos 0))
    by_result (process (record { count = count; low = low; high = high; sleeptime = sleeptime }))

  -- ventwords.cpp, where `open_file` gives the text of a file.
  unfoldable pub run_ventwords :
      (Bytes → Option Bytes) → (Bytes → Bool) → Value Real → Value Real → Launch ℤ
  run_ventwords open_file process pipes root = do
    filename ← setting (get_string root (codes "filename"))
    join_three pipes (codes "pushTo") (codes "syncTo")
    f ← or_exit (open_file filename)
    by_result (process f)

  -- ventxml.cpp, where `open_file` also decompresses a file whose name has `.gz` behind its start.
  unfoldable pub do_work :
      (Bytes → ℤ → ℤ → Bytes → Bool) → Value Real → Value Real → Bytes → Launch ℤ
  do_work process pipes root f = do
    join_three pipes (codes "pushTo") (codes "syncTo")
    sleeptime ← setting (get_int root (codes "sleep") (pos 0))
    sleepevery ← setting (get_int root (codes "every") (pos 0))
    xpath ← setting (get_string root (codes "xpath"))
    by_result (process xpath sleeptime sleepevery f)

  unfoldable pub run_ventxml :
      (Bytes → Option Bytes) → (Bytes → ℤ → ℤ → Bytes → Bool) → Value Real → Value Real → Launch ℤ
  unfolding do_work
  run_ventxml open_file process pipes root = do
    filename ← setting (get_string root (codes "filename"))
    f ← or_exit (open_file filename)
    do_work process pipes root f

  -- workbash.cpp, where `enter` says whether the current path can be set.
  unfoldable pub run_workbash : (Bytes → Bool) → Value Real → Value Real → Launch ℤ
  run_workbash enter pipes root = do
    join_pipe decimal accepts pipes (codes "pullFrom")
    join_pipe decimal accepts pipes (codes "control")
    join_pipe decimal accepts pipes (codes "pushTo")
    dir ← setting (get_string root (codes "dir"))
    quiet (if enter dir then goes tt else fails runtime_error)
    cmd ← setting (get_string root (codes "cmd"))
    logfile ← setting (get_string root (codes "logfile"))
    sleeptime ← setting (get_int root (codes "sleeptime") (pos 1000))
    zero_code

  -- sinkbuild.cpp, whose `main` has no return of its own.
  unfoldable pub run_sinkbuild : Value Real → Value Real → Launch ℤ
  run_sinkbuild pipes root = do
    join_pipe decimal accepts pipes (codes "pullFrom")
    join_pipe decimal accepts pipes (codes "control")
    zero_code

  -- polldir.cpp, where `get_crc` is `FileModChecker::getCrc`, and pollgit.cpp
  unfoldable pub run_polldir :
      (Bytes → Result ℤ) → (Bytes → ℤ → ℤ → Bool) → Value Real → Value Real → Launch ℤ
  run_polldir get_crc process pipes root = do
    join_pipe decimal accepts pipes (codes "pushTo")
    dir ← setting (get_string root (codes "dir"))
    sleeptime ← setting (get_int root (codes "sleeptime") (pos 1000))
    crc ← setting (get_crc dir)
    by_result (process dir crc sleeptime)

  unfoldable pub run_pollgit : (Bytes → Bytes → ℤ → Bool) → Value Real → Value Real → Launch ℤ
  run_pollgit process pipes root = do
    join_pipe decimal accepts pipes (codes "pushTo")
    folder ← setting (get_string root (codes "folder"))
    repos ← setting (get_string root (codes "repos"))
    sleeptime ← setting (get_int root (codes "sleeptime") (pos 1000))
    by_result (process folder repos sleeptime)

  -- pipecount.cpp and pipedump.cpp, whose loops have no end.
  unfoldable pub run_pipecount : Value Real → Value Real → Launch ℤ
  run_pipecount pipes root = do
    count ← setting (get_int root (codes "every") (pos 100))
    join_pipe decimal accepts pipes (codes "pipeFrom")
    join_pipe decimal accepts pipes (codes "control")
    join_pipe decimal accepts pipes (codes "pipeTo")
    quiet (goes count)

  unfoldable pub run_pipedump : Value Real → Value Real → Launch ℤ
  run_pipedump pipes root = do
    count ← setting (get_int root (codes "every") (pos 100))
    join_pipe decimal accepts pipes (codes "pipeFrom")
    join_pipe decimal accepts pipes (codes "control")
    join_pipe decimal accepts pipes (codes "pipeTo")
    quiet (goes count)
