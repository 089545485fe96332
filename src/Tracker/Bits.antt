-- ===== src/Tracker/Bits.antt =====
-- The buckets read as one long row of bits.
use skweltch.Prelude.{
  ℕ, zero, suc, ◌≤◌, ◌<◌, ◌≡◌, ◌↔◌, refl, Bool, true, false, ◌&&◌, some, List, [], ◌∷◌, ◌++◌, ◌==◌,
  if◌then◌else◌, length, get_elem?, set, replicate, length-replicate, arith, All,
}
use skweltch.Tracker.{Bucket, count, prefix_set, buckets_done}

-- Bit `i` of a bucket, clear beyond its end.
abbrev pub bit_at : Bucket → ℕ → Bool
bit_at [] i = false
bit_at (b ∷ bs) zero = b
bit_at (b ∷ bs) (suc i) = bit_at bs i

-- Bit `r` of bucket `q`.
abbrev pub cell : List Bucket → ℕ → ℕ → Bool
cell [] q r = false
cell (b ∷ bs) zero r = bit_at b r
cell (b ∷ bs) (suc q) r = cell bs q r

bit_at-replicate : (n r : ℕ) → bit_at (replicate n false) r ≡ false
bit_at-replicate zero r = refl
bit_at-replicate (suc n) zero = refl
bit_at-replicate (suc n) (suc r) = bit_at-replicate n r

bit_at-set :
    (b : Bucket) (i r : ℕ)
    → i < length b
    → bit_at (set b i true) r ≡ (if i == r then true else bit_at b r)
bit_at-set [] i r h = elim h [ ]
bit_at-set (x ∷ b) zero zero h = refl
bit_at-set (x ∷ b) zero (suc r) h = ground arith
bit_at-set (x ∷ b) (suc i) zero h = ground arith
bit_at-set (x ∷ b) (suc i) (suc r) h = ground (arith, bit_at-set b i r)

cell-replicate : (k n q r : ℕ) → cell (replicate k (replicate n false)) q r ≡ false
cell-replicate zero n q r = refl
cell-replicate (suc k) n zero r = bit_at-replicate n r
cell-replicate (suc k) n (suc q) r = cell-replicate k n q r

-- Empty buckets at the end change nothing.
pub cell-append :
    (bs : List Bucket) (k n q r : ℕ)
    → cell (bs ++ replicate k (replicate n false)) q r ≡ cell bs q r
cell-append [] k n q r = cell-replicate k n q r
cell-append (b ∷ bs) k n zero r = refl
cell-append (b ∷ bs) k n (suc q) r = cell-append bs k n q r

-- Setting one bit changes no other.
pub cell-set :
    (bs : List Bucket) (b : Bucket) (p i q r : ℕ)
    → get_elem? bs p ≡ some b
    → i < length b
    → cell (set bs p (set b i true)) q r ≡ (if (p == q) && (i == r) then true else cell bs q r)
cell-set [] b p i q r e h = cc
cell-set (x ∷ bs) b zero i zero r e h = ground (arith, bit_at-set b i r)
cell-set (x ∷ bs) b zero i (suc q) r e h = ground arith
cell-set (x ∷ bs) b (suc p) i zero r e h = ground arith
cell-set (x ∷ bs) b (suc p) i (suc q) r e h = ground (arith, cell-set bs b p i q r)

abbrev pub Sized : ℕ → List Bucket → Type 0
Sized n = All (λ b. length b ≡ n)

pub Sized-append :
    (bs : List Bucket) (k n : ℕ) → Sized n bs → Sized n (bs ++ replicate k (replicate n false))
Sized-append [] zero n h = tt
Sized-append [] (suc k) n h = (length-replicate n false, Sized-append [] k n h)
Sized-append (b ∷ bs) k n h = (h.0, Sized-append bs k n h.1)

pub Sized-set :
    (bs : List Bucket) (c : Bucket) (p n : ℕ) → length c ≡ n → Sized n bs → Sized n (set bs p c)
Sized-set [] c p n e h = tt
Sized-set (b ∷ bs) c zero n e h = (e, h.1)
Sized-set (b ∷ bs) c (suc p) n e h = (h.0, Sized-set bs c p n e h.1)

pub Sized-get :
    (bs : List Bucket) (b : Bucket) (p n : ℕ) → Sized n bs → get_elem? bs p ≡ some b → length b ≡ n
Sized-get [] b p n h e = cc
Sized-get (x ∷ bs) b zero n h e = ground arith
Sized-get (x ∷ bs) b (suc p) n h e = Sized-get bs b p n h.1 e

pub get_elem?-lt {ℓ} :
    {A : Type ℓ} (xs : List A) (p : ℕ) → p < length xs → (x : A) × (get_elem? xs p ≡ some x)
get_elem?-lt [] p h = elim h [ ]
get_elem?-lt (x ∷ xs) zero h = (x, refl)
get_elem?-lt (x ∷ xs) (suc p) h = get_elem?-lt xs p (omega arith)

-- A statement of every number below `suc n`, from 0 and the successors.
all_below_suc {ℓ} :
    (P : ℕ → Type ℓ) (n : ℕ) → P 0 → ((r : ℕ) → r < n → P (suc r)) → (r : ℕ) → r < suc n → P r
all_below_suc P n z h zero lt = z
all_below_suc P n z h (suc r) lt = h r (omega arith)

-- The bucket test by its bits.
prefix_set_iff :
    (n : ℕ) (b : Bucket) → (prefix_set n b ≡ true) ↔ ((r : ℕ) → r < n → bit_at b r ≡ true)
unfolding prefix_set
prefix_set_iff zero b = (λ h r lt. elim lt [ ], λ h. refl)
prefix_set_iff (suc n) [] = (λ h. cc, λ h. h 0 (omega arith))
prefix_set_iff (suc n) (b ∷ bs) =
    let rest = prefix_set_iff n bs in
    (
      λ h. all_below_suc (λ r. bit_at (b ∷ bs) r ≡ true) n (ground arith) (rest.0 (ground arith)),
      λ h. ground (arith, h 0 (omega arith), rest.1 (λ r lt. h (suc r) (omega arith))),
    )

count-le : (b : Bucket) → count b ≤ length b
unfolding count
count-le [] = omega arith
count-le (true ∷ bs) = omega (arith, count-le bs)
count-le (false ∷ bs) = omega (arith, count-le bs)

-- A bucket is full if the count of its set bits is its size.
count-prefix_set : (b : Bucket) → (count b == length b) ≡ prefix_set (length b) b
unfolding count prefix_set
count-prefix_set [] = refl
count-prefix_set (true ∷ bs) = ground (arith, count-prefix_set bs)
count-prefix_set (false ∷ bs) = ground (arith, count-le bs)

full_iff :
    (b : Bucket) (size : ℕ)
    → length b ≡ size
    → ((count b == size) ≡ true) ↔ ((r : ℕ) → r < size → bit_at b r ≡ true)
full_iff b size e = rw (← e) (rw count-prefix_set (prefix_set_iff (length b) b))

-- `complete`'s bucket loop, bit by bit.
pub buckets_done_iff :
    (size idx q : ℕ) (bs : List Bucket)
    → Sized size bs
    → length bs ≡ suc q
    → (buckets_done size idx bs ≡ true) ↔ (
        ((p r : ℕ) → p < q → r < size → cell bs p r ≡ true)
        × ((r : ℕ) → r ≤ idx → cell bs q r ≡ true))
unfolding buckets_done
buckets_done_iff size idx q [] s e = absurd (omega arith)
buckets_done_iff size idx zero (b ∷ []) s e = (
  λ h. (λ p r lt. elim lt [ ], λ r le. (prefix_set_iff (suc idx) b).0 h r (omega arith)),
  λ h. (prefix_set_iff (suc idx) b).1 (λ r lt. h.1 r (omega arith)),
)
buckets_done_iff size idx (suc q) (b ∷ []) s e = absurd (omega arith)
buckets_done_iff size idx zero (b ∷ c ∷ bs) s e = absurd (omega arith)
buckets_done_iff size idx (suc q) (b ∷ c ∷ bs) s e =
    let rest = buckets_done_iff size idx q (c ∷ bs) s.1 (omega arith) in
    let full = full_iff b size s.0 in
    (
      λ h.
          let later = rest.0 (ground arith) in
          let now = full.0 (ground arith) in
          (
            λ p r lt lr.
                all_below_suc (λ p. (r : ℕ) → r < size → cell (b ∷ c ∷ bs) p r ≡ true) q now
                  (λ p lt r. later.0 p r lt) p lt r lr,
            later.1,
          ),
      λ h.
          let now = full.1 (λ r lt. h.0 0 r (omega arith) lt) in
          let later = rest.1 (λ p r lt. h.0 (suc p) r (omega arith), h.1) in
          ground (arith, now, later),
    )
