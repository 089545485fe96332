-- ===== src/Tracker/Batch.antt =====
-- What the buckets mean for a batch of messages: between `set_first f` and the end of the batch the
-- tracker holds the set of the ids tracked so far, and `complete` decides whether it is all of them.
use native.Mathlib.Nat.{mod-lt}
use skweltch.Prelude.{
  ℕ, suc, ◌+◌, ◌-◌, ◌/◌, ◌%◌, ◌≤◌, ◌<◌, ◌≡◌, refl, ap, ◌∙◌, Bool, true, false, ◌&&◌, ◌||◌, some,
  List, [], ◌∷◌, ◌==◌, length, get_elem?, set, replicate, length-append, length-set,
  length-replicate, arith, int_limit, to_int, to_size, ℤ, pos, ◌+ℤ◌,
}
use skweltch.Tracker.{Bucket, MsgTracker, offset, missing, mark, grow, track}
use skweltch.Tracker.Bits.{
  cell, cell-append, cell-set, Sized, Sized-append, Sized-set, Sized-get, get_elem?-lt,
}

abbrev pub contains : ℕ → List ℕ → Bool
contains n [] = false
contains n (m ∷ ms) = (m == n) || contains n ms

pub offset_pos :
    (t : MsgTracker) (f i : ℕ) → t.first ≡ pos f → f + i < int_limit → offset t (pos (f + i)) ≡ i
unfolding offset
offset_pos t f i e h = ground arith

pub to_int_small : (n : ℕ) → n < int_limit → to_int n ≡ pos n
to_int_small n h = ground arith

pub missing_pos :
    (n : ℕ) (bs : List Bucket)
    → n < int_limit
    → length bs < int_limit
    → missing (pos n) bs ≡ n - length bs
unfolding missing
missing_pos n bs h k = ground arith

pub div-le : (i size : ℕ) → i / size ≤ i
div-le i size = grind arith

-- Two positions in the row are the same if they are in the same bucket at the same place.
same_place : (size i j : ℕ) → ((i / size == j / size) && (i % size == j % size)) ≡ (i == j)
same_place size i j = grind arith

-- The tracker in a batch that begins at `f`, of ids up to `m`, when `seen` have been tracked.
pub record Inv (size f m : ℕ) (seen : List ℕ) (t : MsgTracker) : Type 0 where
  pub first_is : t.first ≡ pos f
  pub sized : Sized size t.bits
  pub short : length t.bits ≤ suc ((m - f) / size)
  pub view : (i : ℕ) → cell t.bits (i / size) (i % size) ≡ contains (f + i) seen

pub succ_pos : (q : ℕ) → pos q +ℤ pos 1 ≡ pos (suc q)
succ_pos q = ground arith

pub mark_lem :
    (p : ℕ) (k : ℤ) (idx : ℕ) (t : MsgTracker) (b : Bucket)
    → to_size k ≡ p
    → get_elem? t.bits p ≡ some b
    → mark k idx t ≡ some (record t { bits = set t.bits p (set b idx true) })
unfolding mark
mark_lem p k idx t b e found = ground arith

div_mono : (i j size : ℕ) → i ≤ j → i / size ≤ j / size
div_mono i j size h = grind arith

module _ (size f m : ℕ) (positive : 0 < size) (bound : m + 1 < int_limit) where
  pub grow-Inv :
      (q : ℕ) (seen : List ℕ) (t : MsgTracker)
      → q ≤ (m - f) / size
      → Inv size f m seen t
      → Inv size f m seen (grow size (pos (suc q)) t)
        × (q < length (grow size (pos (suc q)) t).bits)
        × (length t.bits ≤ length (grow size (pos (suc q)) t).bits)
        × ((grow size (pos (suc q)) t).last ≡ t.last)
  unfolding grow
  grow-Inv q seen t h v =
      let below = div-le (m - f) size in
      let added = missing_pos (suc q) t.bits (omega arith) (omega (arith, v.short)) in
      let k = missing (pos (suc q)) t.bits in
      let sum = length-append t.bits (replicate k (replicate size false)) in
      let extra = length-replicate k (replicate size false) in
      (
        record {
          first_is = v.first_is;
          sized = Sized-append t.bits k size v.sized;
          short = omega (arith, added, sum, extra, v.short);
          view = λ i. cell-append t.bits k size (i / size) (i % size) ∙ v.view i;
        },
        omega (arith, added, sum, extra),
        omega (arith, sum),
        refl,
      )

  mark-Inv :
      (i : ℕ) (seen : List ℕ) (t : MsgTracker)
      → i / size < length t.bits
      → f + i < int_limit
      → Inv size f m seen t
      → (t' : MsgTracker) × (mark (pos (i / size)) (i % size) t ≡ some t')
        × Inv size f m ((f + i) ∷ seen) t'
        × (t'.last ≡ t.last)
        × (length t'.bits ≡ length t.bits)
  mark-Inv i seen t h small v =
      let q = i / size in
      let at : to_size (pos q) ≡ q = omega (arith, div-le i size) in
      let (b, found) = get_elem?-lt t.bits q h in
      let wide = Sized-get t.bits b q size v.sized found in
      let inside : i % size < length b = omega (arith, mod-lt i positive) in
      let bits = set t.bits q (set b (i % size) true) in
      (
        record t { bits = bits },
        mark_lem q (pos q) (i % size) t b at found,
        record {
          first_is = v.first_is;
          sized =
              Sized-set t.bits (set b (i % size) true) q size (length-set b (i % size) true ∙ wide)
                v.sized;
          short = omega (arith, length-set t.bits q (set b (i % size) true), v.short);
          view = λ j.
              cell-set t.bits b q (i % size) (j / size) (j % size) found inside
              ∙ ground (arith, same_place size i j, v.view j);
        },
        refl,
        length-set t.bits q (set b (i % size) true),
      )

  track-mark :
      (i : ℕ) (t : MsgTracker)
      → t.first ≡ pos f
      → f + i < int_limit
      → track size (pos (f + i)) t
        ≡ mark (pos (i / size)) (i % size) (grow size (pos (suc (i / size))) t)
  unfolding track
  track-mark i t e h =
      let small = to_int_small (i / size) (omega (arith, div-le i size)) in
      let at_offset =
        λ (d : ℕ). mark (to_int (d / size)) (d % size) (grow size (to_int (d / size) +ℤ pos 1) t) in
      let at_bucket = λ (k : ℤ). mark k (i % size) (grow size (k +ℤ pos 1) t) in
      let grown_to = λ (k : ℤ). mark (pos (i / size)) (i % size) (grow size k t) in
      ap at_offset (offset_pos t f i e h) ∙ ap at_bucket small ∙ ap grown_to (succ_pos (i / size))

  track-Inv :
      (i : ℕ) (seen : List ℕ) (t : MsgTracker)
      → f + i ≤ m
      → Inv size f m seen t
      → (t' : MsgTracker) × (track size (pos (f + i)) t ≡ some t')
        × Inv size f m ((f + i) ∷ seen) t'
        × (t'.last ≡ t.last)
        × (length t.bits ≤ length t'.bits)
  track-Inv i seen t hi v =
      let grown = grow size (pos (suc (i / size))) t in
      let (w, room, longer, kept) =
        grow-Inv (i / size) seen t (div_mono i (m - f) size (omega arith)) v in
      let (t', marked, w', last_is, same) = mark-Inv i seen grown room (omega arith) w in
      (
        t',
        track-mark i t v.first_is (omega arith) ∙ marked,
        w',
        last_is ∙ kept,
        omega (arith, same, longer),
      )

  -- Tracking an id of the batch never writes outside the buckets, and adds it to those seen.
  pub track_id-Inv :
      (n : ℕ) (seen : List ℕ) (t : MsgTracker)
      → f ≤ n
      → n ≤ m
      → Inv size f m seen t
      → (t' : MsgTracker) × (track size (pos n) t ≡ some t')
        × Inv size f m (n ∷ seen) t'
        × (t'.last ≡ t.last)
        × (length t.bits ≤ length t'.bits)
  track_id-Inv n seen t lo hi v =
      let there : f + (n - f) ≡ n = omega arith in
      rw there at (track-Inv (n - f) seen t (omega arith) v)
