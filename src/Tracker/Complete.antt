-- ===== src/Tracker/Complete.antt =====
-- `complete` decides that a whole batch has come in, in whatever order its messages came.
use skweltch.Prelude.{
  ℕ, ◌+◌, ◌≤◌, ◌<◌, ◌≡◌, ◌↔◌, refl, sym, ◌∙◌, true, ◌||◌, Option, none, some, List, [], ◌∷◌, ◌++◌,
  arith, All, int_limit, pos,
}
use skweltch.Tracker.{MsgTracker, fresh, track, set_first, set_last, complete}
use skweltch.Tracker.Closed.{Closed, set_last-Closed, track-Closed, complete_iff, start-Inv}
use skweltch.Tracker.Batch.{contains, Inv, track_id-Inv}

-- The ids of one batch.
abbrev pub Within : ℕ → ℕ → List ℕ → Type 0
Within f l = All (λ n. (f ≤ n) × (n ≤ l))

-- `track` for each id in turn.
pub track_all : ℕ → List ℕ → MsgTracker → Option MsgTracker
track_all size [] t = some t
track_all size (n ∷ ns) t = elim (track size (pos n) t) [
  | none ↦ none
  | some u ↦ track_all size ns u
]

-- A batch from `f` to `l`: the ids that come before the last message, and those after it.
pub batch : ℕ → ℕ → ℕ → List ℕ → List ℕ → Option MsgTracker
unfolding track_all
batch size f l before after = elim (track_all size before (set_first (pos f) fresh)) [
  | none ↦ none
  | some t ↦ track_all size after (set_last size (pos l) t)
]

-- The ids in the order opposite to that in which they came.
abbrev onto : List ℕ → List ℕ → List ℕ
onto [] seen = seen
onto (n ∷ ns) seen = onto ns (n ∷ seen)

contains-onto :
    (n : ℕ) (ns seen : List ℕ) → contains n (onto ns seen) ≡ contains n ns || contains n seen
contains-onto n [] seen = refl
contains-onto n (m ∷ ns) seen = ground (arith, contains-onto n ns (m ∷ seen))

contains-append : (n : ℕ) (ns ms : List ℕ) → contains n (ns ++ ms) ≡ contains n ns || contains n ms
contains-append n [] ms = refl
contains-append n (m ∷ ns) ms = ground (arith, contains-append n ns ms)

contains-both : (n : ℕ) (ns ms : List ℕ) → contains n (onto ms (onto ns [])) ≡ contains n (ns ++ ms)
contains-both n ns ms =
    ground (arith, contains-onto n ms (onto ns []), contains-onto n ns [], contains-append n ns ms)

module _ (size f l : ℕ) (positive : 0 < size) (bound : l + 1 < int_limit) where
  track_all-Inv :
      (ns seen : List ℕ) (t : MsgTracker)
      → Within f l ns
      → Inv size f l seen t
      → (u : MsgTracker) × (track_all size ns t ≡ some u) × Inv size f l (onto ns seen) u
  unfolding track_all
  track_all-Inv [] seen t h v = (t, refl, v)
  track_all-Inv (n ∷ ns) seen t ((lo, hi), later) v =
      let (u, e, w, _, _) = track_id-Inv size f l positive bound n seen t lo hi v in
      let (u', e', w') = track_all-Inv ns (n ∷ seen) u later w in (u', rw (e, track_all) e', w')

  track_all-Closed :
      (ns seen : List ℕ) (t : MsgTracker)
      → Within f l ns
      → Closed size f l seen t
      → (u : MsgTracker) × (track_all size ns t ≡ some u) × Closed size f l (onto ns seen) u
  unfolding track_all
  track_all-Closed [] seen t h v = (t, refl, v)
  track_all-Closed (n ∷ ns) seen t ((lo, hi), later) v =
      let (u, e, w) = track-Closed size f l positive bound n seen t lo hi v in
      let (u', e', w') = track_all-Closed ns (n ∷ seen) u later w in (u', rw (e, track_all) e', w')

  -- A batch whose ids run from `f` to `l` is tracked without a write outside the buckets, and is
  -- complete exactly when every id has come in, in any order, before the last message or after it.
  pub batch-complete :
      (before after : List ℕ)
      → f ≤ l
      → Within f l before
      → Within f l after
      → (t : MsgTracker) × (batch size f l before after ≡ some t)
        × ((complete size t ≡ true)
            ↔ ((n : ℕ) → f ≤ n → n ≤ l → contains n (before ++ after) ≡ true))
  unfolding batch
  batch-complete before after le wb wa =
      let (t, e, v) =
        track_all-Inv before [] (set_first (pos f) fresh) wb (start-Inv size f l positive bound) in
      let closed = set_last-Closed size f l positive bound (onto before []) t le v in
      let (u, e', w) =
        track_all-Closed after (onto before []) (set_last size (pos l) t) wa closed in
      let done = complete_iff size f l positive bound (onto after (onto before [])) u le w in
      let same = λ (n : ℕ). contains-both n before after in
      (
        u,
        rw (e, batch) e',
        (
          λ c n lo hi. sym (same n) ∙ done.0 c n lo hi,
          λ all. done.1 (λ n lo hi. same n ∙ all n lo hi),
        ),
      )
