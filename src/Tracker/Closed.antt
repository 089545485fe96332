-- ===== src/Tracker/Closed.antt =====
-- The two phases of a batch: before its last message, when `complete` is false, and after it, when
-- `complete` looks at every id.
use native.Mathlib.Decide.{dec_lt}
use native.Mathlib.Nat.{mod-lt, div-add-mod}
use skweltch.Prelude.{
  ℕ, suc, ◌+◌, ◌-◌, ◌*◌, ◌/◌, ◌%◌, ◌≤◌, ◌<◌, ◌≡◌, ◌↔◌, refl, sym, ap, ◌∙◌, true, false, some, List,
  [], ◌∷◌, length, arith, int_limit, to_int, ℤ, pos, ◌+ℤ◌,
}
use skweltch.Tracker.{
  Bucket, MsgTracker, fresh, unset, offset, grow, track, set_first, set_last, buckets_done,
  complete,
}
use skweltch.Tracker.Bits.{cell, buckets_done_iff}
use skweltch.Tracker.Batch.{
  contains, Inv, offset_pos, to_int_small, succ_pos, div-le, grow-Inv, track_id-Inv,
}

-- The place in the row of bit `r` of bucket `p`.
place-div : (size p r : ℕ) → r < size → (p * size + r) / size ≡ p
place-div size p r h = grind arith

place-mod : (size p r : ℕ) → r < size → (p * size + r) % size ≡ r
place-mod size p r h = grind arith

place-le : (size d p r : ℕ) → r < size → p < d / size → p * size + r ≤ d
place-le size d p r h lt = grind arith

-- From the two coordinates of a bit to its place in the row, and back.
cells_iff :
    (size d : ℕ) (bs : List Bucket)
    → 0 < size
    → (((p r : ℕ) → p < d / size → r < size → cell bs p r ≡ true)
        × ((r : ℕ) → r ≤ d % size → cell bs (d / size) r ≡ true))
      ↔ ((i : ℕ) → i ≤ d → cell bs (i / size) (i % size) ≡ true)
cells_iff size d bs h = (
  λ rows i le. elim (dec_lt (i / size) (d / size)) [
    | yes lower ↦ rows.0 (i / size) (i % size) lower (mod-lt i h)
    | no last ↦
        let same : i / size ≡ d / size = grind arith in rw same (rows.1 (i % size) (grind arith))
  ],
  λ row. (
    λ p r lower inside.
        rw (place-div size p r inside, place-mod size p r inside) at
          (row (p * size + r) (place-le size d p r inside lower)),
    λ r le.
        let inside : r < size = omega (arith, mod-lt d h) in
        rw (place-div size (d / size) r inside, place-mod size (d / size) r inside) at
          (row (d / size * size + r) (omega (arith, div-add-mod d size))),
  ),
)

-- The last message of the batch has come, and it was `l`.
pub record Closed (size f l : ℕ) (seen : List ℕ) (t : MsgTracker) : Type 0 where
  pub inv : Inv size f l seen t
  pub last_is : t.last ≡ pos l
  pub room : (l - f) / size < length t.bits

module _ (size f l : ℕ) (positive : 0 < size) (bound : l + 1 < int_limit) where
  set_last-grow :
      (t : MsgTracker)
      → f ≤ l
      → t.first ≡ pos f
      → set_last size (pos l) t ≡ grow size (pos (suc ((l - f) / size))) (record t { last = pos l })
  unfolding set_last
  set_last-grow t le e =
      let marked = record t { last = pos l } in
      let there : f + (l - f) ≡ l = omega arith in
      let from_first : offset marked (pos l) ≡ l - f =
        rw there at (offset_pos marked f (l - f) e (omega arith)) in
      let small = to_int_small ((l - f) / size) (omega (arith, div-le (l - f) size)) in
      ap (λ (d : ℕ). grow size (to_int (d / size) +ℤ pos 1) marked) from_first
      ∙ ap (λ (k : ℤ). grow size (k +ℤ pos 1) marked) small
      ∙ ap (λ (k : ℤ). grow size k marked) (succ_pos ((l - f) / size))

  set_last-Inv :
      (seen : List ℕ) (t : MsgTracker)
      → f ≤ l
      → Inv size f l seen t
      → Inv size f l seen (set_last size (pos l) t)
        × ((set_last size (pos l) t).last ≡ pos l)
        × ((l - f) / size < length (set_last size (pos l) t).bits)
  set_last-Inv seen t le v =
      let marked = record t { last = pos l } in
      let v' : Inv size f l seen marked = record {
        first_is = v.first_is;
        sized = v.sized;
        short = v.short;
        view = v.view;
      } in
      let (w, room, longer, kept) =
        grow-Inv size f l positive bound ((l - f) / size) seen marked (omega arith) v' in
      rw (set_last-grow t le v.first_is) (w, kept, room)

  complete-buckets_done :
      (t : MsgTracker)
      → t.first ≡ pos f
      → t.last ≡ pos l
      → complete size t ≡ buckets_done size (offset t (pos l) % size) t.bits
  unfolding complete
  complete-buckets_done t e e' = ground arith

  complete_iff_cells :
      (seen : List ℕ) (t : MsgTracker)
      → f ≤ l
      → Inv size f l seen t
      → t.last ≡ pos l
      → (l - f) / size < length t.bits
      → (complete size t ≡ true) ↔ ((i : ℕ) → i ≤ l - f → cell t.bits (i / size) (i % size) ≡ true)
  complete_iff_cells seen t le v e h =
      let there : f + (l - f) ≡ l = omega arith in
      let from_first : offset t (pos l) ≡ l - f =
        rw there at (offset_pos t f (l - f) v.first_is (omega arith)) in
      let done =
        buckets_done_iff size ((l - f) % size) ((l - f) / size) t.bits v.sized
          (omega (arith, v.short)) in
      let cells = cells_iff size (l - f) t.bits positive in
      rw (complete-buckets_done t v.first_is e, from_first)
        (λ c. cells.0 (done.0 c), λ r. done.1 (cells.1 r))

  pub set_last-Closed :
      (seen : List ℕ) (t : MsgTracker)
      → f ≤ l
      → Inv size f l seen t
      → Closed size f l seen (set_last size (pos l) t)
  set_last-Closed seen t le v =
      let (w, ends, room) = set_last-Inv seen t le v in
      record { inv = w; last_is = ends; room = room }

  pub track-Closed :
      (n : ℕ) (seen : List ℕ) (t : MsgTracker)
      → f ≤ n
      → n ≤ l
      → Closed size f l seen t
      → (t' : MsgTracker) × (track size (pos n) t ≡ some t') × Closed size f l (n ∷ seen) t'
  track-Closed n seen t lo hi v =
      let (u, e, w, kept, longer) = track_id-Inv size f l positive bound n seen t lo hi v.inv in
      (u, e, record { inv = w; last_is = kept ∙ v.last_is; room = omega (arith, v.room, longer) })

  -- After the last message `complete` decides that all ids of the batch have been seen.
  pub complete_iff :
      (seen : List ℕ) (t : MsgTracker)
      → f ≤ l
      → Closed size f l seen t
      → (complete size t ≡ true) ↔ ((n : ℕ) → f ≤ n → n ≤ l → contains n seen ≡ true)
  complete_iff seen t le v =
      let done = complete_iff_cells seen t le v.inv v.last_is v.room in
      (
        λ c n lo hi.
            let there : f + (n - f) ≡ n = omega arith in
            let seen_at = sym (v.inv.view (n - f)) ∙ done.0 c (n - f) (omega arith) in
            rw there at seen_at,
        λ all. done.1 (λ i le'. v.inv.view i ∙ all (f + i) (omega arith) (omega arith)),
      )

  pub start-Inv : Inv size f l [] (set_first (pos f) fresh)
  unfolding set_first
  start-Inv = record { first_is = refl; sized = tt; short = omega arith; view = λ i. refl }

-- Before the last message nothing is complete.
pub complete_before_last :
    (size f : ℕ) (t : MsgTracker) → t.first ≡ pos f → t.last ≡ unset → complete size t ≡ false
unfolding complete
complete_before_last size f t e e' = ground arith
