-- ===== src/Http/Handler/Decode.antt =====
-- `url_decode` undoes every way to encode a URL.
use skweltch.Prelude.{
  ℕ, ◌+◌, ◌*◌, ◌/◌, ◌%◌, ◌<◌, ◌≡◌, ◌≢◌, inl, inr, refl, sym, ap, ◌∙◌, Bool, true, false, some, [],
  ◌∷◌, Bytes, All, ltb, ◌==◌, if◌then◌else◌, Bool-cases, arith,
}
use skweltch.Http.Handler.{hex_digit, is_space, hex_pair, prepend, plain, url_decode}

-- The digit of a number below 16, in lower case.
abbrev pub digit : ℕ → ℕ
digit n = if ltb n 10 then 48 + n else 87 + n

-- The characters for which `keeps` says so are written as themselves, a space as `+`, and the others
-- by their two digits.
abbrev pub encode : (ℕ → Bool) → Bytes → Bytes
encode keeps [] = []
encode keeps (c ∷ cs) =
    if keeps c
    then c ∷ encode keeps cs
    else if c == b' '
    then b'+' ∷ encode keeps cs
    else b'%' ∷ digit (c / 16) ∷ digit (c % 16) ∷ encode keeps cs

hex_digit-digit : (n : ℕ) → n < 16 → hex_digit (digit n) ≡ some n
unfolding hex_digit
hex_digit-digit n h = ground arith

hex_pair-digit : (m n : ℕ) → m < 16 → n < 16 → hex_pair (digit m) (digit n) ≡ some (m * 16 + n)
unfolding hex_pair is_space
hex_pair-digit m n hm hn = ground (arith, hex_digit-digit m hm, hex_digit-digit n hn)

-- A character that is no `%`.
url_decode-plain :
    (c : ℕ) (cs : Bytes) → c ≢ b'%' → url_decode (c ∷ cs) ≡ prepend (plain c) (url_decode cs)
unfolding url_decode
url_decode-plain c [] h = ground arith
url_decode-plain c (a ∷ []) h = ground arith
url_decode-plain c (a ∷ b ∷ cs) h = ground arith

-- An encoded character.
url_decode-digit :
    (c : ℕ) (cs : Bytes)
    → c < 256
    → url_decode (b'%' ∷ digit (c / 16) ∷ digit (c % 16) ∷ cs) ≡ prepend c (url_decode cs)
unfolding url_decode
url_decode-digit c cs h =
    let whole : c / 16 * 16 + c % 16 ≡ c = omega arith in
    rw (hex_pair-digit (c / 16) (c % 16) (omega arith) (omega arith), whole) refl

keeps_not : (keeps : ℕ → Bool) (c d : ℕ) → keeps d ≡ false → keeps c ≡ true → c ≢ d
keeps_not keeps c d off on e = cc (rw e at on)

-- A URL is decoded to the bytes that it encodes, whichever of them, but for `%` and `+`, are written
-- as themselves.
pub url_decode-encode :
    (keeps : ℕ → Bool) (s : Bytes)
    → keeps b'%' ≡ false
    → keeps b'+' ≡ false
    → All (λ c. c < 256) s
    → url_decode (encode keeps s) ≡ some s
unfolding url_decode
url_decode-encode keeps [] kp ks h = refl
url_decode-encode keeps (c ∷ cs) kp ks h =
    let rest = url_decode-encode keeps cs kp ks h.1 in
    elim (Bool-cases (keeps c)) [
      | inl kept ↦
          let is_plain : plain c ≡ c = ground (arith, keeps_not keeps c b'+' ks kept) in
          rw kept (
            url_decode-plain c (encode keeps cs) (keeps_not keeps c b'%' kp kept)
            ∙ rw (is_plain, rest) refl)
      | inr changed ↦ elim (Bool-cases (c == b' ')) [
        | inl space ↦
            let is_space : c ≡ b' ' = ground arith in
            rw (changed, space)
              (url_decode-plain b'+' (encode keeps cs) (λ e. absurd (omega arith))
                ∙ rw rest (ap (λ (d : ℕ). some (d ∷ cs)) (sym is_space)))
        | inr other ↦ rw (changed, other) (url_decode-digit c (encode keeps cs) h.0 ∙ rw rest refl)
      ]
    ]
