-- ===== src/Letters/Digits.antt =====
-- The digits of the counts, and lists that hold a value for each letter.
use skweltch.Prelude.{
  ℕ, zero, suc, ◌+◌, ◌-◌, ◌≤◌, ◌<◌, ◌≡◌, refl, ap, inl, inr, ◌⊎◌, true, false, some, ltb, ◌==◌,
  if◌then◌else◌, List, [], ◌∷◌, map, get_elem?, set, Bool-cases, arith,
}
use skweltch.Result.{ok}
use skweltch.Letters.{scan_hex, print_hex}

-- A digit.
abbrev pub hex : ℕ → ℕ
hex n = if ltb n 10 then b'0' + n else b'a' + (n - 10)

pub scan_hex-hex : (n : ℕ) → n ≤ 15 → scan_hex (hex n) ≡ some n
scan_hex-hex n h = ground arith

pub print_hex-hex : (n : ℕ) → n ≤ 15 → print_hex n ≡ ok (hex n)
print_hex-hex n h = ground arith

-- `n` letters, from `a` on.
abbrev pub letters_from : ℕ → ℕ → List ℕ
letters_from a zero = []
letters_from a (suc n) = a ∷ letters_from (suc a) n

pub map-letters_from :
    (f g : ℕ → ℕ) (a n : ℕ)
    → ((l : ℕ) → a ≤ l → f l ≡ g l)
    → map f (letters_from a n) ≡ map g (letters_from a n)
map-letters_from f g a zero h = refl
map-letters_from f g a (suc n) h = rw (h a (omega arith)) (
    ap (λ (xs : List ℕ). g a ∷ xs) (map-letters_from f g (suc a) n (λ l k. h l (omega (arith, k)))))

first_or_later : (a c : ℕ) → a ≤ c → (a ≡ c) ⊎ (suc a ≤ c)
first_or_later a c h = elim (Bool-cases (a == c)) [
  | inl e ↦ inl (ground arith)
  | inr e ↦ inr (ground arith)
]

pub get_elem?-letters_from :
    (f : ℕ → ℕ) (a n c : ℕ)
    → a ≤ c
    → c < a + n
    → get_elem? (map f (letters_from a n)) (c - a) ≡ some (f c)
get_elem?-letters_from f a zero c h k = absurd (omega arith)
get_elem?-letters_from f a (suc n) c h k = elim (first_or_later a c h) [
  | inl first ↦
      let (here, same) : (c - a ≡ 0) × (a ≡ c) = (omega arith, omega arith) in rw (here, same) refl
  | inr later ↦
      let past : c - a ≡ suc (c - suc a) = omega arith in
      rw past (get_elem?-letters_from f (suc a) n c later (omega arith))
]

-- A write at a letter.
abbrev pub at_letter : ℕ → ℕ → (ℕ → ℕ) → ℕ → ℕ
at_letter c v f l = if l == c then v else f l

pub set-letters_from :
    (f : ℕ → ℕ) (a n c v : ℕ)
    → a ≤ c
    → c < a + n
    → set (map f (letters_from a n)) (c - a) v ≡ map (at_letter c v f) (letters_from a n)
set-letters_from f a zero c v h k = absurd (omega arith)
set-letters_from f a (suc n) c v h k = elim (first_or_later a c h) [
  | inl first ↦
      let (here, same) : (c - a ≡ 0) × ((a == c) ≡ true) = (omega arith, ground arith) in
      rw (here, same)
        (ap (λ (xs : List ℕ). v ∷ xs)
          (map-letters_from f (at_letter c v f) (suc a) n
            (λ l le. let ne : (l == c) ≡ false = ground arith in rw ne refl)))
  | inr later ↦
      let (past, ne) : (c - a ≡ suc (c - suc a)) × ((a == c) ≡ false) =
        (omega arith, ground arith) in
      rw (past, ne)
        (ap (λ (xs : List ℕ). f a ∷ xs) (set-letters_from f (suc a) n c v later (omega arith)))
]
