-- ===== src/Sink/Phase.antt =====
-- One message of a batch: what the sink's tracker knows before it and after it.
use skweltch.Prelude.{
  ℕ, ◌+◌, ◌≤◌, ◌<◌, ◌≡◌, ◌↔◌, ◌⊎◌, inl, inr, ◌∙◌, true, false, some, List, ◌∷◌, pos, int_limit,
  Bool-cases,
}
use skweltch.Elapsed.{Timeval, get_total}
use skweltch.Sink.{results, SinkWorker, Sink, goes_on, call, finish, check, handle}
use skweltch.Sink.Batch.{Item, data_of, ends, to_msg, to_call, ids, HasLast, Whole}
use skweltch.Tracker.{MsgTracker, fresh, unset, set_last, track, complete}
use skweltch.Tracker.Batch.{Inv, track_id-Inv}
use skweltch.Tracker.Closed.{
  Closed, set_last-Closed, track-Closed, complete_iff, complete_before_last,
}

abbrev pub ItemWithin : ℕ → ℕ → Item → Type 0
ItemWithin f l (data_of n d) = (f ≤ n) × (n ≤ l)
ItemWithin f l ends = Unit

-- The tracker after `past`, the newest message first.
abbrev pub Phase : ℕ → ℕ → ℕ → List Item → MsgTracker → Type 0
Phase size f l past t =
    ((¬ HasLast past) × Inv size f l (ids past) t × (t.last ≡ unset))
    ⊎ (HasLast past × Closed size f l (ids past) t)

module _ (size f l : ℕ) (positive : 0 < size) (bound : l + 1 < int_limit) (ordered : f ≤ l) where
  pub Phase-complete :
      (past : List Item) (t : MsgTracker)
      → Phase size f l past t
      → (complete size t ≡ true) ↔ Whole f l past
  Phase-complete past t (inl (open_end, v, e)) =
      (λ c. cc (c, complete_before_last size f t v.first_is e), λ w. absurd (open_end w.0))
  Phase-complete past t (inr (has, v)) =
      let done = complete_iff size f l positive bound (ids past) t ordered v in
      (λ c. (has, done.0 c), λ w. done.1 w.1)

  track-Phase :
      (past : List Item) (n : ℕ) (d : List (List ℕ)) (t : MsgTracker)
      → f ≤ n
      → n ≤ l
      → Phase size f l past t
      → (u : MsgTracker) × (track size (pos n) t ≡ some u) × Phase size f l (data_of n d ∷ past) u
  track-Phase past n d t lo hi (inl (open_end, v, e)) =
      let (u, tracked, w, kept, _) = track_id-Inv size f l positive bound n (ids past) t lo hi v in
      (u, tracked, inl (open_end, w, kept ∙ e))
  track-Phase past n d t lo hi (inr (has, v)) =
      let (u, tracked, w) = track-Closed size f l positive bound n (ids past) t lo hi v in
      (u, tracked, inr (has, w))

  set_last-Phase :
      (past : List Item) (t : MsgTracker)
      → Phase size f l past t
      → Phase size f l (ends ∷ past) (set_last size (pos l) t)
  set_last-Phase past t (inl (_, v, _)) =
      inr (tt, set_last-Closed size f l positive bound (ids past) t ordered v)
  set_last-Phase past t (inr (_, v)) =
      inr (tt, set_last-Closed size f l positive bound (ids past) t ordered v.inv)

  module _ {W : Type 0} (work : SinkWorker W) where
    -- The message is handed to the worker and tracked, and then `complete` is asked.
    item-check :
        (past : List Item) (i : Item) (s : Sink W) (now : Timeval) (w : W)
        → ItemWithin f l i
        → Phase size f l past s.tracker
        → work (to_call l i) s.worker ≡ some w
        → (u : MsgTracker) × (handle size work now (to_msg l i) s
            ≡ check size work now (record s { tracker = u; worker = w }))
          × Phase size f l (i ∷ past) u
    unfolding handle
    item-check past (data_of n d) s now w h v e =
        let (u, tracked, v') = track-Phase past n d s.tracker h.0 h.1 v in
        (u, rw (e, call, tracked), v')
    item-check past ends s now w h v e =
        (set_last size (pos l) s.tracker, rw (e, call), set_last-Phase past s.tracker v)

    -- While the batch is not whole the sink goes on.
    pub item_open :
        (past : List Item) (i : Item) (s : Sink W) (now : Timeval) (w : W)
        → ItemWithin f l i
        → Phase size f l past s.tracker
        → ¬ Whole f l (i ∷ past)
        → work (to_call l i) s.worker ≡ some w
        → (u : MsgTracker) × (handle size work now (to_msg l i) s
            ≡ goes_on (record s { tracker = u; worker = w }))
          × Phase size f l (i ∷ past) u
    item_open past i s now w h v n e =
        let (u, handled, v') = item-check past i s now w h v e in
        let partial : complete size u ≡ false = elim (Bool-cases (complete size u)) [
          | inl c ↦ absurd (n ((Phase-complete (i ∷ past) u v').0 c))
          | inr c ↦ c
        ] in
        (u, handled ∙ unfold check in rw partial, v')

    -- The message that makes the batch whole makes the sink report, and start again.
    pub item-Whole :
        (past : List Item) (i : Item) (s : Sink W) (now : Timeval) (w w' : W)
        → ItemWithin f l i
        → Phase size f l past s.tracker
        → Whole f l (i ∷ past)
        → work (to_call l i) s.worker ≡ some w
        → work (results (get_total s.started now)) w ≡ some w'
        → handle size work now (to_msg l i) s ≡ goes_on (record s { tracker = fresh; worker = w' })
    unfolding check
    item-Whole past i s now w w' h v whole e e' =
        let (u, handled, v') = item-check past i s now w h v e in
        let full = (Phase-complete (i ∷ past) u v').1 whole in
        handled ∙ rw full (unfold finish in rw (e', call))
