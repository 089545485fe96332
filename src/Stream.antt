-- ===== src/Stream.antt =====
-- What the programs write to a `std::ostream`; it stays written where an exception follows.
use skweltch.Prelude.{[], ◌++◌, Bytes}
use skweltch.Result.{Result, ok, threw, undefined}

-- What has been written so far, and how it ended.
pub record Writing (A : Type 0) : Type 0 where
  pub text : Bytes
  pub out : Result A

infixl 5 ◌>>=◌
unfoldable pub ◌>>=◌ : {A B : Type 0} → Writing A → (A → Writing B) → Writing B
m >>= next = elim m.out [
  | ok a ↦ record { text = m.text ++ (next a).text; out = (next a).out }
  | threw e ↦ record { text = m.text; out = threw e }
  | undefined ↦ record { text = m.text; out = undefined }
]

infixl 5 ◌>>◌
abbrev pub ◌>>◌ : {A B : Type 0} → Writing A → Writing B → Writing B
m >> next = m >>= λ a. next

-- `<<`, and what only reads.
abbrev pub put : Bytes → Writing Unit
put s = record { text = s; out = ok tt }

abbrev pub got : {A : Type 0} → Result A → Writing A
got r = record { text = []; out = r }
