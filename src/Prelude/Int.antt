-- ===== src/Prelude/Int.antt =====
-- The integers behind C++'s `int`, and its conversions to and from `size_t`.
use Prim.Native.Nat.{ℕ, suc, ◌+◌, ◌-◌, ◌%◌, ◌^◌}
use mathlib.Core.Bool.{Bool, true, false}
use mathlib.Core.Path.{◌≡◌, ap}
use skweltch.Prelude.Tests.{leb, ltb, ◌==◌, ==_iff, if◌then◌else◌}

-- `negsuc n` is -(n + 1).
pub data ℤ : Type 0 where
  pos : ℕ → ℤ
  negsuc : ℕ → ℤ

abbrev pub pos_part : ℤ → ℕ
pos_part (pos n) = n
pos_part (negsuc n) = 0

abbrev pub neg_part : ℤ → ℕ
neg_part (pos n) = 0
neg_part (negsuc n) = suc n

-- a - b, as an integer.
abbrev pub sub_ℕ : ℕ → ℕ → ℤ
sub_ℕ a b = if leb b a then pos (a - b) else negsuc (b - a - 1)

infixl 65 ◌+ℤ◌ ◌-ℤ◌
abbrev pub ◌+ℤ◌ : ℤ → ℤ → ℤ
a +ℤ b = sub_ℕ (pos_part a + pos_part b) (neg_part a + neg_part b)

abbrev pub ◌-ℤ◌ : ℤ → ℤ → ℤ
a -ℤ b = sub_ℕ (pos_part a + neg_part b) (neg_part a + pos_part b)

infix 50 ◌==ℤ◌
abbrev pub ◌==ℤ◌ : ℤ → ℤ → Bool
pos a ==ℤ pos b = a == b
negsuc a ==ℤ negsuc b = a == b
_ ==ℤ _ = false

-- The number of values of a 32-bit `int`, and of a 64-bit `size_t`.
abbrev pub int_mod : ℕ
int_mod = 2 ^ 32

abbrev pub size_mod : ℕ
size_mod = 2 ^ 64

abbrev pub int_limit : ℕ
int_limit = 2 ^ 31

-- `(size_t)z`
abbrev pub to_size : ℤ → ℕ
to_size (pos n) = n % size_mod
to_size (negsuc n) = size_mod - 1 - n % size_mod

-- `(int)n`, from a `size_t`
abbrev pub to_int : ℕ → ℤ
to_int n =
    let low = n % int_mod in if ltb low int_limit then pos low else negsuc (int_mod - 1 - low)

pub same_ℤ : (a b : ℤ) → (a ==ℤ b) ≡ true → a ≡ b
same_ℤ (pos a) (pos b) h = ap pos ((==_iff a b).0 h)
same_ℤ (negsuc a) (negsuc b) h = ap negsuc ((==_iff a b).0 h)
same_ℤ (pos a) (negsuc b) h = cc h
same_ℤ (negsuc a) (pos b) h = cc h
