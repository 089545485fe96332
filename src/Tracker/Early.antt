-- ===== src/Tracker/Early.antt =====
-- A message that is tracked before `set_first`.
use skweltch.Prelude.{
  ℕ, suc, ◌+◌, ◌/◌, ◌%◌, ◌<◌, ◌≡◌, refl, ap, ◌∙◌, true, some, [], arith, length, set, replicate,
  length-replicate, int_limit, to_int, to_size, ℤ, pos, ◌+ℤ◌, false,
}
use skweltch.Tracker.{MsgTracker, fresh, offset, missing, mark, grow, track, complete}
use skweltch.Tracker.Bits.{get_elem?-lt}
use skweltch.Tracker.Batch.{to_int_small, missing_pos, succ_pos, mark_lem, div-le}

offset_early : (n : ℕ) → n + 1 < int_limit → offset fresh (pos n) ≡ n + 1
unfolding offset
offset_early n h = ground arith

module _ (size n : ℕ) (bound : n + 2 < int_limit) where
  -- The buckets after `grow`, and the bucket that is written.
  track_early-mark :
      track size (pos n) fresh
      ≡ mark (pos ((n + 1) / size)) ((n + 1) % size) (grow size (pos (suc ((n + 1) / size))) fresh)
  unfolding track
  track_early-mark =
      let q = (n + 1) / size in
      let small = to_int_small q (omega (arith, div-le (n + 1) size)) in
      ap
        (λ (d : ℕ).
          mark (to_int (d / size)) (d % size) (grow size (to_int (d / size) +ℤ pos 1) fresh))
        (offset_early n (omega arith))
      ∙ ap (λ (k : ℤ). mark k ((n + 1) % size) (grow size (k +ℤ pos 1) fresh)) small
      ∙ ap (λ (k : ℤ). mark (pos q) ((n + 1) % size) (grow size k fresh)) (succ_pos q)

  -- It is tracked, one place too far, and the tracker still counts as complete.
  pub track_early :
      (u : MsgTracker) × (track size (pos n) fresh ≡ some u) × (complete size u ≡ true)
  unfolding grow complete
  track_early =
      let q = (n + 1) / size in
      let grown = grow size (pos (suc q)) fresh in
      let below = div-le (n + 1) size in
      let at : to_size (pos q) ≡ q = omega (arith, below) in
      let added = missing_pos (suc q) [] (omega (arith, below)) (omega arith) in
      let room : q < length grown.bits =
        omega (arith, added, length-replicate (missing (pos (suc q)) []) (replicate size false)) in
      let (b, found) = get_elem?-lt grown.bits q room in
      (
        record grown { bits = set grown.bits q (set b ((n + 1) % size) true) },
        track_early-mark ∙ mark_lem q (pos q) ((n + 1) % size) grown b at found,
        refl,
      )
