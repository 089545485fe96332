-- ===== src/Workers.antt =====
-- The smaller workers: work/workcharcount.cpp, work/WorkSleep.cpp and work/workxpath.cpp, which answer a
-- message, and sink/sinkavg.cpp, sink/SinkElapsed.cpp and sink/sinkstrings.cpp, which collect the answers.
-- pugixml is a parameter. The value that a sink writes for the results is kept, and not its text.
pub mod Averaged
use skweltch.Prelude.{
  ℕ, Bool, true, false, Option, none, some, Bytes, codes, if◌then◌else◌, List, [], ◌∷◌, ◌++◌, map,
  length, ℤ, pos, to_int,
}
use skweltch.Result.{Result, ok, threw, undefined, other_error, ◌>>=◌}
use skweltch.Json.{Value, null, int, real, str, LexicalCast}
use skweltch.Json.JsonObject.{add}
use skweltch.Msg.{SinkMsg, data_msg, empty_msg}
use skweltch.Sink.{Call, first, process, last, results, SinkWorker}
use skweltch.Tuner.{Double}
use skweltch.Runner.{add_int}

-- A node of a document that is found: that of an attribute has no node, but a value.
pub record Found : Type 0 where
  pub is_attribute : Bool
  pub attribute_value : Bytes
  pub node_value : Bytes

abbrev pub found_text : Found → Bytes
found_text x = if x.is_attribute then x.attribute_value else x.node_value

-- The `processMsg` of workxpath, of a message's id and payload.
abbrev pub select_texts : (Bytes → List Found) → ℤ → Bytes → SinkMsg
select_texts select id xml = data_msg id (map found_text (select xml)) empty_msg

-- That of WorkSleep, which has slept.
abbrev pub sleep_done : ℤ → SinkMsg
sleep_done id = data_msg id [] empty_msg

-- The sink workers that know a report only.
abbrev pub elapsed_report : {Real : Type 0} → ℤ → Value Real
elapsed_report total_ms = add (codes "elapsed") (int total_ms) null

-- sinkstrings: the lines of the file.
abbrev pub add_lines : List Bytes → List Bytes → List Bytes
add_lines lines texts = lines ++ texts

abbrev pub strings_report : {Real : Type 0} → ℤ → Value Real
strings_report total_ms = add (codes "file") (str (codes "results.dat")) (elapsed_report total_ms)

-- A result of a call of a sink worker: an exception leaves `Sink::process`, and what is not defined is
-- no result either.
abbrev pub called : {W : Type 0} → Result W → Option W
called (ok w) = some w
called (threw e) = none
called undefined = none

module _ {Real : Type 0} (cast : LexicalCast Real) (double : Double Real) where
  -- The `processMsg` of workcharcount.
  abbrev pub measure : ℤ → Bytes → SinkMsg
  measure id text = data_msg id (cast.of_int (to_int (length text)) ∷ []) empty_msg

  -- sinkavg: its count and its total, and what it has reported.
  pub record Average : Type 0 where
    pub count : ℤ
    pub total : ℤ
    pub reports : List (Value Real)

  abbrev pub new_average : Average
  new_average = record { count = pos 0; total = pos 0; reports = [] }

  -- `process`; `(*data)[0]` is not defined for an empty vector.
  unfoldable pub add_measure : List Bytes → Average → Result Average
  add_measure [] w = undefined
  add_measure (text ∷ texts) w = elim (cast.to_int text) [
    | none ↦ threw other_error
    | some n ↦
        (add_int w.total n >>= λ total.
        add_int w.count (pos 1) >>= λ count. ok (record w { count = count; total = total }))
  ]

  abbrev pub average_report : ℤ → Average → Value Real
  average_report total_ms w =
      add (codes "average") (real (double.divide (double.of_int w.total) (double.of_int w.count)))
        (elapsed_report total_ms)

  -- The worker; `results` keeps the count and the total.
  unfoldable pub average_work : SinkWorker Average
  unfolding add_measure
  average_work (first id) w = some w
  average_work (process id texts) w = called (add_measure texts w)
  average_work (last id) w = some w
  average_work (results total_ms) w =
      some (record w { reports = w.reports ++ (average_report (pos total_ms) w ∷ []) })
