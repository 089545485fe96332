-- ===== src/Letters/Sums.antt =====
-- What the sink reports for a batch of words.
use skweltch.Prelude.{
  ℕ, zero, suc, ◌+◌, ◌≤◌, ◌<◌, ◌≡◌, refl, ap, ◌∙◌, inl, inr, true, false, ltb, ◌==◌, List, [], ◌∷◌,
  Bytes, codes, equal, map, length, arith, All, ℤ, pos, int_limit, Bool-cases,
}
use skweltch.Result.{Result, ok, ◌>>=◌}
use skweltch.Json.{Value, null, int}
use skweltch.Json.JsonObject.{get_value, has_pair, add, or_empty}
use skweltch.Json.JsonObject.Laws.{get_value-push_back, has_pair-push_back}
use skweltch.Msg.{SinkMsg}
use skweltch.Letters.{no_counts, add_counts, process_data, process_word, add_letters, report}
use skweltch.Letters.Digits.{hex, scan_hex-hex, letters_from, map-letters_from}
use skweltch.Letters.Words.{occurrences, IsLower, digits, process_word-digits}

-- How often a letter stands in all the words, which have ids.
abbrev pub total : ℕ → List (ℤ × Bytes) → ℕ
total l [] = 0
total l ((id, word) ∷ words) = occurrences l word + total l words

add_counts-digits :
    (f g : ℕ → ℕ) (a n : ℕ)
    → ((l : ℕ) → f l ≤ 15)
    → ((l : ℕ) → g l + f l < int_limit)
    → add_counts (map g (letters_from a n)) (map (λ l. hex (f l)) (letters_from a n))
      ≡ ok (map (λ l. g l + f l) (letters_from a n))
unfolding add_counts
add_counts-digits f g a zero few small = refl
add_counts-digits f g a (suc n) few small =
    let fits : ltb (g a + f a) int_limit ≡ true = ground (arith, small a) in
    rw (add_counts, scan_hex-hex (f a) (few a), fits, add_counts-digits f g (suc a) n few small)
      refl

length-map_letters : (f : ℕ → ℕ) (a n : ℕ) → length (map f (letters_from a n)) ≡ n
length-map_letters f a zero = refl
length-map_letters f a (suc n) = ap suc (length-map_letters f (suc a) n)

process_data-digits :
    (f g : ℕ → ℕ)
    → ((l : ℕ) → f l ≤ 15)
    → ((l : ℕ) → g l + f l < int_limit)
    → process_data (digits f 26 ∷ []) (map g (letters_from b'a' 26))
      ≡ ok (map (λ l. g l + f l) (letters_from b'a' 26))
unfolding process_data
process_data-digits f g few small = add_counts-digits f g b'a' 26 few small

-- The sink is given the results of the words, one after the other.
abbrev pub pass_words : List (ℤ × Bytes) → List ℕ → Result (List ℕ)
pass_words [] counts = ok counts
pass_words ((id, word) ∷ words) counts =
    process_word id word >>= λ m. process_data m.payload counts >>= λ c. pass_words words c

-- A word that the worker takes.
abbrev pub IsCountable : ℤ × Bytes → Type 0
IsCountable (id, word) = All IsLower word × ((l : ℕ) → occurrences l word ≤ 15)

pass_words-total :
    (words : List (ℤ × Bytes)) (g : ℕ → ℕ)
    → All IsCountable words
    → ((l : ℕ) → g l + total l words < int_limit)
    → pass_words words (map g (letters_from b'a' 26))
      ≡ ok (map (λ l. g l + total l words) (letters_from b'a' 26))
pass_words-total [] g fine small =
    ap ok (map-letters_from g (λ l. g l + 0) b'a' 26 (λ l le. omega arith))
pass_words-total ((id, word) ∷ words) g ((lower, few), fine) small =
    let here : (l : ℕ) → g l + occurrences l word < int_limit = λ l. omega (arith, small l) in
    let rest : (l : ℕ) → (g l + occurrences l word) + total l words < int_limit =
      λ l. omega (arith, small l) in
    ap
      (λ (r : Result SinkMsg). r >>= λ m.
        process_data m.payload (map g (letters_from b'a' 26)) >>= λ c. pass_words words c)
      (process_word-digits id word lower few)
    ∙ ap (λ (r : Result (List ℕ)). r >>= λ c. pass_words words c)
        (process_data-digits (λ l. occurrences l word) g few here)
    ∙ pass_words-total words (λ l. g l + occurrences l word) fine rest
    ∙ ap ok (
        map-letters_from (λ l. (g l + occurrences l word) + total l words)
          (λ l. g l + (occurrences l word + total l words)) b'a' 26 (λ l le. omega arith))

module _ {Real : Type 0} where
  -- What has a value keeps it.
  add_letters-kept :
      (c : ℕ) (counts : List ℕ) (r : Value Real) (key : Bytes)
      → has_pair (or_empty r) key ≡ true
      → get_value (or_empty (add_letters c counts r)) key ≡ get_value (or_empty r) key
  unfolding add_letters add
  add_letters-kept c [] r key there = refl
  add_letters-kept c (n ∷ counts) r key there =
      let still = has_pair-push_back (or_empty r) (c ∷ []) (int (pos n)) key in
      let same = get_value-push_back (or_empty r) (c ∷ []) (int (pos n)) key in
      add_letters-kept (suc c) counts (add (c ∷ []) (int (pos n)) r) key (still ∙ rw there refl)
      ∙ (same ∙ rw there refl)

  add_letters-letter :
      (f : ℕ → ℕ) (a n : ℕ) (r : Value Real) (l : ℕ)
      → a ≤ l
      → l < a + n
      → has_pair (or_empty r) (l ∷ []) ≡ false
      → get_value (or_empty (add_letters a (map f (letters_from a n)) r)) (l ∷ []) ≡ int (pos (f l))
  unfolding add_letters add equal
  add_letters-letter f a zero r l low high new = absurd (omega arith)
  add_letters-letter f a (suc n) r l low high new =
      let has = has_pair-push_back (or_empty r) (a ∷ []) (int (pos (f a))) (l ∷ []) in
      let gets = get_value-push_back (or_empty r) (a ∷ []) (int (pos (f a))) (l ∷ []) in
      elim (Bool-cases (l == a)) [
        | inl here ↦
            let same : a ≡ l = ground arith in
            let turned : (a == l) ≡ true = ground arith in
            add_letters-kept (suc a) (map f (letters_from (suc a) n))
              (add (a ∷ []) (int (pos (f a))) r) (l ∷ []) (has ∙ rw (new, here) refl)
            ∙ (gets ∙ rw (new, turned) (ap (λ (m : ℕ). int (pos (f m))) same))
        | inr past ↦
            let later : suc a ≤ l = ground arith in
            add_letters-letter f (suc a) n (add (a ∷ []) (int (pos (f a))) r) l later (omega arith)
              (has ∙ rw (new, past) refl)
      ]

-- Words of lower-case letters, none more than fifteen times in one of them and none 2^31 times in
-- all, in any order: from new counts on the sink takes the results of the worker for all of them, and
-- it reports, beside the elapsed time, for each letter how often it stands in the words, and begins
-- anew.
pub report-pass_words :
    {Real : Type 0} (words : List (ℤ × Bytes)) (total_ms : ℤ)
    → All IsCountable words
    → ((l : ℕ) → total l words < int_limit)
    → (counts : List ℕ) × (pass_words words no_counts ≡ ok counts)
      × ((report {Real = Real} total_ms counts).1 ≡ no_counts)
      × (get_value (or_empty (report {Real = Real} total_ms counts).0) (codes "elapsed")
          ≡ int total_ms)
      × ((l : ℕ)
          → IsLower l
          → get_value (or_empty (report {Real = Real} total_ms counts).0) (l ∷ [])
            ≡ int (pos (total l words)))
unfolding report add has_pair get_value equal
report-pass_words {Real = Real} words total_ms fine small =
    let sum : ℕ → ℕ = λ l. 0 + total l words in
    let start : Value Real = add (codes "elapsed") (int total_ms) null in
    let letter : (l : ℕ)
        → IsLower l
        → get_value (or_empty (add_letters b'a' (map sum (letters_from b'a' 26)) start)) (l ∷ [])
          ≡ int (pos (total l words)) =
      λ l lower.
        add_letters-letter sum b'a' 26 start l (ground arith) (ground arith) refl
        ∙ (let same : sum l ≡ total l words = omega arith in ap (λ (m : ℕ). int (pos m)) same) in
    (
      map sum (letters_from b'a' 26),
      pass_words-total words (λ l. 0) fine (λ l. omega (arith, small l)),
      refl,
      add_letters-kept b'a' (map sum (letters_from b'a' 26)) start (codes "elapsed") refl,
      letter,
    )
