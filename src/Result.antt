-- ===== src/Result.antt =====
-- What a C++ function gives: a value, an exception, or nothing that C++ defines.
use skweltch.Prelude.{◌≡◌, ◌⊎◌, inl, inr, refl, ap}

-- `std::runtime_error`, which the programs catch, and what they do not: `std::out_of_range`,
-- `boost::bad_lexical_cast`, and a pointer to a `runtime_error`.
pub data Exception : Type 0 where
  runtime_error other_error : Exception

pub data Result {ℓ} (A : Type ℓ) : Type ℓ where
  ok : A → Result A
  threw : Exception → Result A
  undefined : Result A

infixl 5 ◌>>=◌
abbrev pub ◌>>=◌ {ℓ κ} : {A : Type ℓ} {B : Type κ} → Result A → (A → Result B) → Result B
ok a >>= next = next a
threw e >>= next = threw e
undefined >>= next = undefined

-- A chain that succeeds does so in each of its parts.
pub >>=-ok {ℓ κ} :
    {A : Type ℓ} {B : Type κ} (m : Result A) (next : A → Result B) {b : B}
    → (m >>= next) ≡ ok b
    → (a : A) × (m ≡ ok a) × (next a ≡ ok b)
>>=-ok (ok a) next h = (a, refl, h)
>>=-ok (threw e) next h = cc
>>=-ok undefined next h = cc

pub Result-cases {ℓ} :
    {A : Type ℓ} (m : Result A)
    → ((a : A) × (m ≡ ok a)) ⊎ (((e : Exception) × (m ≡ threw e)) ⊎ (m ≡ undefined))
Result-cases (ok a) = inl (a, refl)
Result-cases (threw e) = inr (inl (e, refl))
Result-cases undefined = inr (inr refl)

abbrev ok_part {ℓ} : {A : Type ℓ} → A → Result A → A
ok_part a (ok b) = b
ok_part a (threw e) = a
ok_part a undefined = a

pub same_ok {ℓ} : {A : Type ℓ} {a b : A} → ok a ≡ ok b → a ≡ b
same_ok {a = a} e = ap (ok_part a) e
