-- ===== src/Tracker.antt =====
-- core/MsgTracker.hpp and core/MsgTracker.cpp: which messages of a batch have come in, as a
-- vector of bitsets of `SIZE` bits. `SIZE` is the argument `size` here; the program's is 1000.
-- Logging is left out. A write outside the vector, which C++ does not define, is `none`.
pub mod Bits
pub mod Batch
pub mod Closed
pub mod Complete
pub mod Early
use skweltch.Prelude.{
  ℕ, zero, suc, ◌+◌, ◌-◌, ◌/◌, ◌%◌, Bool, true, false, ◌&&◌, Option, none, some, List, [], ◌∷◌,
  ◌++◌, ◌==◌, if◌then◌else◌, length, get_elem?, set, replicate, ℤ, pos, negsuc, pos_part, ◌+ℤ◌,
  ◌-ℤ◌, ◌==ℤ◌, size_mod, to_size, to_int,
}

abbrev pub Bucket : Type 0
Bucket = List Bool

-- `SIZE`
abbrev pub bucket_size : ℕ
bucket_size = 1000

pub record MsgTracker : Type 0 where
  pub first : ℤ
  pub last : ℤ
  pub bits : List Bucket

-- -1, for "not known yet".
abbrev pub unset : ℤ
unset = negsuc 0

-- The constructor, and `reset`.
abbrev pub fresh : MsgTracker
fresh = record { first = unset; last = unset; bits = [] }

abbrev pub reset : MsgTracker → MsgTracker
reset t = record t { bits = []; first = unset; last = unset }

-- `n - first`, an `int`, as `size_t`: what `/ SIZE` and `% SIZE` are applied to.
pub offset : MsgTracker → ℤ → ℕ
offset t n = to_size (n -ℤ t.first)

unfoldable pub set_first : ℤ → MsgTracker → MsgTracker
set_first f t = record t { first = f }

-- `bitset::count`
pub count : Bucket → ℕ
count [] = 0
count (b ∷ bs) = (if b then 1 else 0) + count bs

-- The first `n` bits are all set.
pub prefix_set : ℕ → Bucket → Bool
prefix_set zero bs = true
prefix_set (suc n) [] = false
prefix_set (suc n) (b ∷ bs) = b && prefix_set n bs

-- How many buckets `grow(n)` adds: `int k = n - bits.size()`, if that is above 0.
pub missing : ℤ → List Bucket → ℕ
missing n bs = pos_part (to_int ((to_size n + size_mod - length bs % size_mod) % size_mod))

-- `bits[bkt][idx] = true`
pub mark : ℤ → ℕ → MsgTracker → Option MsgTracker
mark bkt idx t = elim (get_elem? t.bits (to_size bkt)) [
  | none ↦ none
  | some b ↦ some (record t { bits = set t.bits (to_size bkt) (set b idx true) })
]

module _ (size : ℕ) where
  pub grow : ℤ → MsgTracker → MsgTracker
  unfolding missing
  grow n t = record t { bits = t.bits ++ replicate (missing n t.bits) (replicate size false) }

  unfoldable pub track : ℤ → MsgTracker → Option MsgTracker
  unfolding offset grow mark
  track n t =
      let bkt = to_int (offset t n / size) in mark bkt (offset t n % size) (grow (bkt +ℤ pos 1) t)

  unfoldable pub set_last : ℤ → MsgTracker → MsgTracker
  unfolding offset grow
  set_last l t =
      let marked = record t { last = l } in grow (to_int (offset marked l / size) +ℤ pos 1) marked

  -- Every bucket below the last is full, and the last one up to `idx`.
  pub buckets_done : ℕ → List Bucket → Bool
  unfolding count prefix_set
  buckets_done idx [] = true
  buckets_done idx (b ∷ []) = prefix_set (suc idx) b
  buckets_done idx (b ∷ c ∷ bs) = count b == size && buckets_done idx (c ∷ bs)

  unfoldable pub complete : MsgTracker → Bool
  unfolding offset buckets_done
  complete t =
      if (t.first ==ℤ unset) && (t.last ==ℤ unset)
      then true
      else if t.first ==ℤ unset
      then false
      else if t.last ==ℤ unset
      then false
      else buckets_done (offset t t.last % size) t.bits
