-- ===== src/Vent.antt =====
-- core/Vent.cpp, and the worker of vent/ventxml.cpp with its `StringMsg`: a vent that sends the chunks
-- of a document. Sleeping and logging are left out. What has been handed to the two sockets is part
-- of the state; a `send` that throws is an argument for the sink's socket, and makes no difference for
-- the workers' one.
pub mod Numbered
pub mod Delivered
pub mod Randoms
use skweltch.Prelude.{
  ℕ, zero, suc, ◌+◌, ◌-◌, ◌%◌, Bool, true, false, Option, none, some, List, [], ◌∷◌, ◌++◌, Bytes, ℤ,
  pos, negsuc, ◌-ℤ◌, ◌==◌, if◌then◌else◌,
}
use skweltch.Msg.{SinkMsg, empty_msg, first_msg, last_msg}
use skweltch.Splitter.{Splitter, Chunk, split_process}

-- `DataMsg<string>`
pub record StringMsg : Type 0 where
  pub id : ℕ
  pub time : ℤ
  pub payload : Bytes

pub record Vent : Type 0 where
  pub count : ℕ
  -- the messages handed to `sender` and to `sink`
  pub sent : List StringMsg
  pub told_sink : List SinkMsg

-- Positive, and the size of an `int`.
abbrev pub is_positive : ℤ → Bool
is_positive (pos zero) = false
is_positive (pos (suc n)) = true
is_positive (negsuc n) = false

abbrev pub magnitude : ℤ → ℕ
magnitude (pos n) = n
magnitude (negsuc n) = suc n

-- `count % sleepevery`, which is undefined for 0.
unfoldable pub slept : ℤ → ℤ → ℕ → Option ℕ
slept sleeptime sleepevery count =
    if is_positive sleeptime
    then if magnitude sleepevery == 0 then none else some (count % magnitude sleepevery)
    else some 0

-- The interrupt flag and the clock, by the messages that have been sent when they are read.
module _ (interrupted : List StringMsg → Bool) (clock : List StringMsg → ℤ)
    (sleeptime sleepevery : ℤ) where
  -- `sendOne`, `none` where it is undefined.
  unfoldable pub send_one : StringMsg → Vent → Option (Vent × Bool)
  unfolding slept
  send_one m v =
      let w = record v { sent = v.sent ++ m ∷ [] } in
      if interrupted w.sent
      then some (w, false)
      else elim (slept sleeptime sleepevery (w.count + 1)) [
        | none ↦ none
        | some _ ↦ some (record w { count = w.count + 1 }, true)
      ]

  -- `SendChunk`, its id and its vent.
  pub record SendChunk : Type 0 where
    pub id : ℕ
    pub vent : Vent

  -- `SendChunk::chunk`; `none` is kept once it is reached.
  pub chunk : Chunk (Option SendChunk)
  unfolding send_one
  chunk s none = (none, false)
  chunk s (some w) =
      elim (send_one (record { id = w.id; time = clock w.vent.sent; payload = s }) w.vent) [
        | none ↦ (none, false)
        | some (v, more) ↦ (some (record { id = w.id + 1; vent = v }), more)
      ]

  -- `sendAll`, on what `XPathSplitter::process` returns.
  pub last_id : Option SendChunk → Bool → Option (Vent × ℤ)
  last_id none done = none
  last_id (some w) done = some (w.vent, if done then pos w.id -ℤ pos 1 else pos 0)

  pub send_all : (Bytes → List Bytes) → Bytes → Bytes → Vent → Option (Vent × ℤ)
  unfolding chunk last_id
  send_all split xpath input v =
      let (p, done) = split_process chunk split xpath input (some (record { id = 0; vent = v })) in
      last_id p.out done

-- `sink->send`, where `accepts` says whether it goes without an exception.
abbrev pub tell_sink : (SinkMsg → Bool) → SinkMsg → Vent → Vent × Bool
tell_sink accepts m v =
    if accepts m then (record v { told_sink = v.told_sink ++ m ∷ [] }, true) else (v, false)

-- `Vent::process`, with the `sendAll` of its worker.
unfoldable pub process_vent :
    (SinkMsg → Bool) → (Vent → Option (Vent × ℤ)) → Vent → Option (Vent × Bool)
process_vent accepts work v =
    let (begun, told) = tell_sink accepts (first_msg (pos 0) empty_msg) v in
    if told
    then elim (work begun) [
      | none ↦ none
      | some (w, l) ↦ some (tell_sink accepts (last_msg l empty_msg) w)
    ]
    else some (begun, false)
