-- ===== src/Letters/Words.antt =====
-- The result of the worker for one word.
use skweltch.Prelude.{
  ℕ, zero, suc, ◌+◌, ◌≤◌, ◌<◌, ◌≡◌, refl, ap, ◌∙◌, inl, inr, true, false, ◌&&◌, ltb, leb, ◌==◌,
  if◌then◌else◌, List, [], ◌∷◌, ◌++◌, Bytes, map, replicate, arith, All, ℤ, Bool-cases,
}
use skweltch.Result.{Result, Result-cases, undefined, ok, ◌>>=◌}
use skweltch.Msg.{data_msg, empty_msg}
use skweltch.Letters.{count_letter, count_letters, process_word}
use skweltch.Letters.Digits.{
  hex, scan_hex-hex, print_hex-hex, letters_from, get_elem?-letters_from, set-letters_from,
  at_letter, map-letters_from,
}

abbrev pub alphabet : List ℕ
alphabet = letters_from b'a' 26

-- How often a letter stands in a word.
abbrev pub occurrences : ℕ → Bytes → ℕ
occurrences l [] = 0
occurrences l (c ∷ word) = if l == c then suc (occurrences l word) else occurrences l word

abbrev pub IsLower : ℕ → Type 0
IsLower c = (leb b'a' c && leb c b'z') ≡ true

-- The digits of numbers, one for each of `n` letters.
abbrev pub digits : (ℕ → ℕ) → ℕ → Bytes
digits f n = map (λ l. hex (f l)) (letters_from b'a' n)

pub counted : ℕ → (ℕ → ℕ) → ℕ → ℕ
counted c f l = if l == c then suc (f l) else f l

counted-hex :
    (f : ℕ → ℕ) (c l : ℕ) → at_letter c (hex (suc (f c))) (λ m. hex (f m)) l ≡ hex (counted c f l)
unfolding counted
counted-hex f c l = elim (Bool-cases (l == c)) [
  | inl here ↦ let same : l ≡ c = ground arith in rw here (rw same refl)
  | inr past ↦ rw past refl
]

counted-occurrences :
    (f : ℕ → ℕ) (c : ℕ) (word : Bytes) (l : ℕ)
    → counted c f l + occurrences l word ≡ f l + occurrences l (c ∷ word)
unfolding counted
counted-occurrences f c word l = ground arith

count_letter-digits :
    (f : ℕ → ℕ) (n c : ℕ)
    → 26 ≤ n
    → IsLower c
    → suc (f c) ≤ 15
    → count_letter (digits f n) c ≡ ok (digits (counted c f) n)
unfolding count_letter
count_letter-digits f n c all lower few =
    let (low, high) : (b'a' ≤ c) × (c < b'a' + n) = (ground arith, ground arith) in
    let digit = get_elem?-letters_from (λ l. hex (f l)) b'a' n c low high in
    let too_many : ltb 16 (suc (f c)) ≡ false = ground arith in
    rw
      (
        count_letter,
        lower,
        digit,
        scan_hex-hex (f c) (omega arith),
        too_many,
        print_hex-hex (suc (f c)) few,
      )
      (ap ok (
        set-letters_from (λ l. hex (f l)) b'a' n c (hex (suc (f c))) low high
        ∙ map-letters_from _ _ b'a' n (λ l le. counted-hex f c l)))

count_letters-digits :
    (word : Bytes) (f : ℕ → ℕ) (n : ℕ)
    → 26 ≤ n
    → All IsLower word
    → ((l : ℕ) → f l + occurrences l word ≤ 15)
    → count_letters word (digits f n) ≡ ok (digits (λ l. f l + occurrences l word) n)
unfolding count_letters
count_letters-digits [] f n all lower few =
    ap ok
      (map-letters_from (λ l. hex (f l)) (λ l. hex (f l + 0)) b'a' n (λ l le. ap hex (omega arith)))
count_letters-digits (c ∷ word) f n all (low, lower) few =
    let here : occurrences c (c ∷ word) ≡ suc (occurrences c word) = ground arith in
    let first : suc (f c) ≤ 15 = omega (arith, here, few c) in
    rw (count_letters, count_letter-digits f n c all low first)
      (count_letters-digits word (counted c f) n all lower
          (λ l. rw (counted-occurrences f c word l) (few l))
        ∙ ap ok (map-letters_from _ _ b'a' n (λ l le. ap hex (counted-occurrences f c word l))))

zero_digits : (a n : ℕ) → replicate n b'0' ≡ map (λ l. hex 0) (letters_from a n)
zero_digits a zero = refl
zero_digits a (suc n) = ap (λ (xs : Bytes). b'0' ∷ xs) (zero_digits (suc a) n)

-- A word of lower-case letters, none more than fifteen times in it, gives the sink the digits of how
-- often each stands in it.
pub process_word-digits :
    (id : ℤ) (word : Bytes)
    → All IsLower word
    → ((l : ℕ) → occurrences l word ≤ 15)
    → process_word id word ≡ ok (data_msg id (digits (λ l. occurrences l word) 26 ∷ []) empty_msg)
unfolding process_word
process_word-digits id word lower few =
    let counts : count_letters word (replicate 26 b'0')
        ≡ ok (digits (λ l. 0 + occurrences l word) 26) =
      ap (count_letters word) (zero_digits b'a' 26)
      ∙ count_letters-digits word (λ l. 0) 26 (omega arith) lower (λ l. omega (arith, few l)) in
    ap (λ (r : Result Bytes). r >>= λ text. ok (data_msg id (text ∷ []) empty_msg))
      (counts
        ∙ ap ok (
            map-letters_from (λ l. hex (0 + occurrences l word)) (λ l. hex (occurrences l word))
              b'a' 26
              (λ l le.
                let same : 0 + occurrences l word ≡ occurrences l word = omega arith in
                ap hex same)))

count_letter-sixteenth :
    (f : ℕ → ℕ) (n c : ℕ) → 26 ≤ n → IsLower c → f c ≡ 15 → count_letter (digits f n) c ≡ undefined
unfolding count_letter
count_letter-sixteenth f n c all lower fifteen =
    let (low, high) : (b'a' ≤ c) × (c < b'a' + n) = (ground arith, ground arith) in
    let digit = get_elem?-letters_from (λ l. hex (f l)) b'a' n c low high in
    rw (count_letter, lower, digit, fifteen) refl

count_letters-append :
    (a b result : Bytes)
    → count_letters (a ++ b) result ≡ (count_letters a result >>= λ r. count_letters b r)
unfolding count_letters
count_letters-append [] b result = refl
count_letters-append (c ∷ a) b result = elim (Result-cases (count_letter result c)) [
  | inl (r, e) ↦ rw (count_letters, e) (count_letters-append a b r)
  | inr (inl (x, e)) ↦ rw (count_letters, e) refl
  | inr (inr e) ↦ rw (count_letters, e) refl
]

-- The sixteenth of a letter passes the test for what cannot be counted, and overruns the two
-- characters that its number is printed into.
pub process_word-sixteenth :
    (id : ℤ) (word : Bytes) (c : ℕ)
    → All IsLower word
    → ((l : ℕ) → occurrences l word ≤ 15)
    → IsLower c
    → occurrences c word ≡ 15
    → process_word id (word ++ (c ∷ [])) ≡ undefined
unfolding process_word count_letters
process_word-sixteenth id word c lower few low fifteen =
    ap (λ (r : Result Bytes). r >>= λ text. ok (data_msg id (text ∷ []) empty_msg))
      (count_letters-append word (c ∷ []) (replicate 26 b'0')
        ∙ ap (λ (r : Result Bytes). r >>= λ text. count_letters (c ∷ []) text)
            (ap (count_letters word) (zero_digits b'a' 26)
              ∙ count_letters-digits word (λ l. 0) 26 (omega arith) lower
                  (λ l. omega (arith, few l)))
        ∙ ap (λ (r : Result Bytes). r >>= λ text. ok text)
            (count_letter-sixteenth (λ l. 0 + occurrences l word) 26 c (omega arith) low
              (omega (arith, fifteen))))
