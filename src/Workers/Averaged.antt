-- ===== src/Workers/Averaged.antt =====
-- The average of a batch, from the workers' answers to the report.
use skweltch.Prelude.{
  ℕ, suc, ◌+◌, ◌≤◌, ◌<◌, ◌≡◌, refl, ap, ◌∙◌, Option, none, some, Bytes, List, [], ◌∷◌, ◌++◌, map,
  length, ℤ, pos, to_int, int_limit, arith, All,
}
use skweltch.Result.{ok}
use skweltch.Elapsed.{Timeval, get_total}
use skweltch.Json.{Value, LexicalCast}
use skweltch.Msg.{Codec, SinkMsg, empty_msg, first_msg}
use skweltch.Sink.{Call, first, process, results, SinkWorker, Sink, goes_on, run}
use skweltch.Sink.Batch.{Item, data_of, ends, to_msg, to_call, Whole, delivers, calls, feed}
use skweltch.Sink.Phase.{ItemWithin}
use skweltch.Sink.Collect.{Timed, items, run-Whole}
use skweltch.Tracker.{fresh}
use skweltch.Tracker.Batch.{to_int_small}
use skweltch.Tuner.{Double}
use skweltch.Runner.{add_int}
use skweltch.Workers.{measure, Average, add_measure, average_report, average_work, called}

-- What comes of a batch: the last message, or the answer for a text with an id.
abbrev pub Piece : Type 0
Piece = Option (ℕ × Bytes)

abbrev pub lengths : List Piece → ℕ
lengths [] = 0
lengths (none ∷ ps) = lengths ps
lengths (some (n, text) ∷ ps) = length text + lengths ps

abbrev pub texts_in : List Piece → ℕ
texts_in [] = 0
texts_in (none ∷ ps) = texts_in ps
texts_in (some p ∷ ps) = suc (texts_in ps)

texts_in-append :
    (ps : List Piece) (p : Piece) → texts_in (ps ++ (p ∷ [])) ≡ texts_in ps + texts_in (p ∷ [])
texts_in-append [] p = omega arith
texts_in-append (none ∷ ps) p = texts_in-append ps p
texts_in-append (some q ∷ ps) p = let rest = texts_in-append ps p in omega (arith, rest)

lengths-append :
    (ps : List Piece) (p : Piece) → lengths (ps ++ (p ∷ [])) ≡ lengths ps + lengths (p ∷ [])
lengths-append [] p = omega arith
lengths-append (none ∷ ps) p = lengths-append ps p
lengths-append (some (n, text) ∷ ps) p = let rest = lengths-append ps p in omega (arith, rest)

calls-step :
    {W : Type 0} (work : SinkWorker W) (c : Call) (cs : List Call) (w v : W)
    → work c w ≡ some v
    → calls work (c ∷ cs) w ≡ calls work cs v
unfolding calls
calls-step work c cs w v e = rw (calls, e) refl

module _ {Real : Type 0} (cast : LexicalCast Real) (double : Double Real) where
  abbrev pub item_of : Piece → Item
  item_of none = ends
  item_of (some (n, text)) = data_of n (measure cast double (pos n) text).payload

  abbrev pub timed : List (Timeval × Piece) → List Timed
  timed ps = map (λ (p : Timeval × Piece). (p.0, item_of p.1)) ps

  abbrev pub pieces : List (Timeval × Piece) → List Piece
  pieces ps = map (λ (p : Timeval × Piece). p.1) ps

  abbrev pub state_of : ℕ → ℕ → List (Value Real) → Average cast double
  state_of count total reports = record { count = pos count; total = pos total; reports = reports }

  add_int-pos : (a b : ℕ) → a + b < int_limit → add_int (pos a) (pos b) ≡ ok (pos (a + b))
  add_int-pos a b h = ground arith

  add_measure-text :
      (n : ℕ) (text : Bytes) (count total : ℕ) (reports : List (Value Real))
      → count + 1 < int_limit
      → total + length text < int_limit
      → add_measure cast double
          (measure cast double (pos n) text).payload
          (state_of count total reports)
        ≡ ok (state_of (count + 1) (total + length text) reports)
  unfolding add_measure
  add_measure-text n text count total reports few small =
      rw
        (
          cast.to_int-of_int (to_int (length text)),
          to_int_small (length text) (omega arith),
          add_int-pos total (length text) small,
          add_int-pos count 1 few,
        )
        refl

  average_work-text :
      (n : ℕ) (text : Bytes) (count total : ℕ) (reports : List (Value Real))
      → count + 1 < int_limit
      → total + length text < int_limit
      → average_work cast double
          (process (pos n) (measure cast double (pos n) text).payload)
          (state_of count total reports)
        ≡ some (state_of (count + 1) (total + length text) reports)
  unfolding average_work
  average_work-text n text count total reports few small =
      ap called (add_measure-text n text count total reports few small)

  state_ap :
      {c d t u : ℕ} (reports : List (Value Real))
      → c ≡ d
      → t ≡ u
      → state_of c t reports ≡ state_of d u reports
  state_ap reports e h i = state_of (e i) (h i) reports

  calls-pieces :
      (l : ℕ) (ps : List (Timeval × Piece)) (more : List Call) (count total : ℕ)
      (reports : List (Value Real))
      → count + texts_in (pieces ps) < int_limit
      → total + lengths (pieces ps) < int_limit
      → calls
          (average_work cast double)
          (map (to_call l) (items (timed ps)) ++ more)
          (state_of count total reports)
        ≡ calls
            (average_work cast double)
            more
            (state_of (count + texts_in (pieces ps)) (total + lengths (pieces ps)) reports)
  unfolding calls average_work
  calls-pieces l [] more count total reports few small =
      ap (calls (average_work cast double) more) (state_ap reports (omega arith) (omega arith))
  calls-pieces l ((now, none) ∷ ps) more count total reports few small =
      calls-pieces l ps more count total reports few small
  calls-pieces l ((now, some (n, text)) ∷ ps) more count total reports few small =
      calls-step (average_work cast double)
        (process (pos n) (measure cast double (pos n) text).payload)
        (map (to_call l) (items (timed ps)) ++ more) (state_of count total reports) _
        (average_work-text n text count total reports (omega (arith, few)) (omega (arith, small)))
      ∙ calls-pieces l ps more (count + 1) (total + length text) reports (omega (arith, few))
          (omega (arith, small))
      ∙ ap (calls (average_work cast double) more) (state_ap reports (omega arith) (omega arith))

  -- What the worker of sinkavg has after a batch with this state before it.
  abbrev pub averaged : ℕ → ℕ → List (Value Real) → List Piece → ℕ → Average cast double
  averaged count total reports ps total_ms =
      let w = state_of (count + texts_in ps) (total + lengths ps) reports in
      record w { reports = reports ++ (average_report cast double (pos total_ms) w ∷ []) }

  calls-averaged :
      (f l : ℕ) (ps : List (Timeval × Piece)) (now : Timeval) (p : Piece) (count total : ℕ)
      (reports : List (Value Real)) (total_ms : ℕ)
      → count + texts_in (pieces ps ++ (p ∷ [])) < int_limit
      → total + lengths (pieces ps ++ (p ∷ [])) < int_limit
      → calls
          (average_work cast double)
          (first (pos f)
            ∷ (map (to_call l) (items (timed ps))
                ++ (to_call l (item_of p) ∷ results total_ms ∷ [])))
          (state_of count total reports)
        ≡ some (averaged count total reports (pieces ps ++ (p ∷ [])) total_ms)
  unfolding calls average_work
  calls-averaged f l ps now p count total reports total_ms few small =
      let c : texts_in (pieces ps ++ (p ∷ [])) ≡ texts_in (pieces ps) + texts_in (p ∷ []) =
        texts_in-append (pieces ps) p in
      let t : lengths (pieces ps ++ (p ∷ [])) ≡ lengths (pieces ps) + lengths (p ∷ []) =
        lengths-append (pieces ps) p in
      calls-pieces l ps (to_call l (item_of p) ∷ results total_ms ∷ []) count total reports
        (omega (arith, few, c)) (omega (arith, small, t))
      ∙ calls-pieces l ((now, p) ∷ []) (results total_ms ∷ []) (count + texts_in (pieces ps))
          (total + lengths (pieces ps)) reports (omega (arith, few, c)) (omega (arith, small, t))
      ∙ ap (calls (average_work cast double) (results total_ms ∷ []))
          (state_ap reports (omega (arith, c)) (omega (arith, t)))

  -- A sink with the worker of sinkavg that is idle takes the answers of workcharcount for the texts of
  -- a whole batch, in the order of their coming, with its first message before and its last message
  -- among them: it reports once, with the time since the first message, the average of the lengths of
  -- these texts and of all that it has counted before, and it goes on counting from there. Count and
  -- total stay below 2^31.
  pub run-average :
      {Message : Type 0} (size : ℕ) (sinks : Codec Message SinkMsg) (kills : Codec Message ℤ)
      (f l : ℕ) (t0 now : Timeval) (ps : List (Timeval × Piece)) (p : Piece)
      (s : Sink (Average cast double)) (count total : ℕ) (reports : List (Value Real))
      → 0 < size
      → l + 1 < int_limit
      → f ≤ l
      → s.tracker ≡ fresh
      → s.worker ≡ state_of count total reports
      → All (ItemWithin f l) (items (timed ps))
      → ItemWithin f l (item_of p)
      → ¬ Whole f l (items (timed ps))
      → Whole f l (items (timed ps) ++ (item_of p ∷ []))
      → count + texts_in (pieces ps ++ (p ∷ [])) < int_limit
      → total + lengths (pieces ps ++ (p ∷ [])) < int_limit
      → run size
          (average_work cast double)
          sinks
          kills
          (delivers sinks t0 (first_msg (pos f) empty_msg)
            ∷ (feed sinks l (timed ps) ++ (delivers sinks now (to_msg l (item_of p)) ∷ [])))
          s
        ≡ goes_on (record {
          tracker = fresh;
          retries = 0;
          started = t0;
          worker = averaged count total reports (pieces ps ++ (p ∷ [])) (get_total t0 now);
        })
  run-average size sinks kills f l t0 now ps p s count total reports positive bound ordered idle
        there within_f within_p open_yet whole few small =
      run-Whole size (average_work cast double) sinks kills f l positive bound ordered t0 now
        (timed ps) (item_of p) s _ idle within_f within_p open_yet whole
        (rw there (calls-averaged f l ps now p count total reports (get_total t0 now) few small))
