-- ===== src/Sink/Batch.antt =====
-- A whole batch of messages through the sink.
use skweltch.Prelude.{
  ℕ, ◌≤◌, ◌≡◌, inl, inr, refl, true, false, Option, none, some, Option-cases, List, [], ◌∷◌, ◌++◌,
  Bytes, pos,
}
use skweltch.Elapsed.{Timeval}
use skweltch.Msg.{Codec, SinkMsg, empty_msg, last_msg, data_msg}
use skweltch.Sink.{Call, process, last, SinkWorker, message, Round}
use skweltch.Tracker.Batch.{contains}

-- What follows the first message of a batch: the results of the workers, each with its id, and the
-- last message.
pub data Item : Type 0 where
  data_of : ℕ → List Bytes → Item
  ends : Item

module _ (l : ℕ) where
  abbrev pub to_msg : Item → SinkMsg
  to_msg (data_of n d) = data_msg (pos n) d empty_msg
  to_msg ends = last_msg (pos l) empty_msg

  abbrev pub to_call : Item → Call
  to_call (data_of n d) = process (pos n) d
  to_call ends = last (pos l)

abbrev pub ids : List Item → List ℕ
ids [] = []
ids (data_of n d ∷ is) = n ∷ ids is
ids (ends ∷ is) = ids is

abbrev pub HasLast : List Item → Type 0
HasLast [] = ⊥
HasLast (data_of n d ∷ is) = HasLast is
HasLast (ends ∷ is) = Unit

-- Every id of the batch has come, and its last message.
abbrev pub Whole : ℕ → ℕ → List Item → Type 0
Whole f l is = HasLast is × ((n : ℕ) → f ≤ n → n ≤ l → contains n (ids is) ≡ true)

-- The worker's state after a sequence of calls.
unfoldable pub calls : {W : Type 0} → SinkWorker W → List Call → W → Option W
calls work [] w = some w
calls work (c ∷ cs) w = elim (work c w) [ none ↦ none | some v ↦ calls work cs v ]

-- The first call succeeds, and then the others do.
pub calls-cons :
    {W : Type 0} (work : SinkWorker W) (c : Call) (cs : List Call) (w w' : W)
    → calls work (c ∷ cs) w ≡ some w'
    → (v : W) × (work c w ≡ some v) × (calls work cs v ≡ some w')
unfolding calls
calls-cons work c cs w w' e = elim (Option-cases (work c w)) [
  | inl none_is ↦ cc (rw (none_is, calls) at e)
  | inr (v, some_is) ↦ (v, some_is, rw (some_is, calls) at e)
]

-- A sequence of calls that succeeds, in two parts.
pub calls-append :
    {W : Type 0} (work : SinkWorker W) (cs ds : List Call) (w w' : W)
    → calls work (cs ++ ds) w ≡ some w'
    → (v : W) × (calls work cs w ≡ some v) × (calls work ds v ≡ some w')
unfolding calls
calls-append work [] ds w w' e = (w, refl, e)
calls-append work (c ∷ cs) ds w w' e =
    let (u, done, later) = calls-cons work c (cs ++ ds) w w' e in
    let (v, mid, tail) = calls-append work cs ds u w' later in (v, rw (done, calls) mid, tail)

pub calls-nil : {W : Type 0} (work : SinkWorker W) (w w' : W) → calls work [] w ≡ some w' → w ≡ w'
unfolding calls
calls-nil work w w' e = cc

-- A pass in which a message comes, and nothing else.
abbrev pub delivers : {Message Data : Type 0} → Codec Message Data → Timeval → Data → Round Message
delivers codec now m = record {
  should_quit = false;
  polled = message (codec.pack m);
  interrupted = false;
  now = now;
}

-- The passes in which the items come, each at its time.
abbrev pub feed :
    {Message : Type 0} → Codec Message SinkMsg → ℕ → List (Timeval × Item) → List (Round Message)
feed codec l [] = []
feed codec l ((now, i) ∷ is) = delivers codec now (to_msg l i) ∷ feed codec l is
