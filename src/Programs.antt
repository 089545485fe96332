-- ===== src/Programs.antt =====
-- core/Main.cpp and the `main` of each program that a machine starts, up to its loop, with the way it
-- ends. What boost::program_options makes of the arguments is `parse`, and json_spirit's reader is
-- `read`. The result of the loop is an argument of each program, by the settings that it has.
pub mod Mains
pub mod Dispatch
pub mod Joins
pub mod Started
pub mod Passing
use skweltch.Prelude.{
  ◌≡◌, ◌⊎◌, inl, inr, refl, ap, Bool, true, false, Option, none, some, List, [], ◌∷◌, ◌++◌, Bytes,
  ℤ, pos, if◌then◌else◌,
}
use skweltch.Result.{Result, ok, threw, undefined, Exception}
use skweltch.Json.{Value}
use skweltch.Ports.{SocketCall, join}

-- What a program does before its loop: the calls of a socket that joins the pipe of a name, and
-- `control.setsockopt(ZMQ_SUBSCRIBE, "", 0)`.
pub data Step : Type 0 where
  joined : Bytes → List SocketCall → Step
  subscribed : Step

-- It goes on with a value, or `main` returns.
pub data Reached (A : Type 0) : Type 0 where
  goes : A → Reached A
  exits : ℤ → Reached A
  fails : Exception → Reached A
  unknown : Reached A

pub Reached-cases :
    {A : Type 0} (e : Reached A)
    → ((a : A) × (e ≡ goes a))
      ⊎ (((c : ℤ) × (e ≡ exits c)) ⊎ (((x : Exception) × (e ≡ fails x)) ⊎ (e ≡ unknown)))
Reached-cases (goes a) = inl (a, refl)
Reached-cases (exits c) = inr (inl (c, refl))
Reached-cases (fails x) = inr (inr (inl (x, refl)))
Reached-cases unknown = inr (inr (inr refl))

abbrev code_of : {A : Type 0} → Reached A → ℤ
code_of (exits c) = c
code_of other = pos 0

pub exit_code : {A : Type 0} {c d : ℤ} → ◌≡◌ {A = Reached A} (exits c) (exits d) → c ≡ d
exit_code {A} e = ap (λ (x : Reached A). code_of x) e

pub record Launch (A : Type 0) : Type 0 where
  pub steps : List Step
  pub out : Reached A

infixl 5 ◌>>=◌ ◌>>◌
unfoldable pub ◌>>=◌ : {A B : Type 0} → Launch A → (A → Launch B) → Launch B
m >>= next = elim m.out [
  | goes a ↦ record { steps = m.steps ++ (next a).steps; out = (next a).out }
  | exits c ↦ record { steps = m.steps; out = exits c }
  | fails e ↦ record { steps = m.steps; out = fails e }
  | unknown ↦ record { steps = m.steps; out = unknown }
]

abbrev pub ◌>>◌ : {A B : Type 0} → Launch A → Launch B → Launch B
m >> next = m >>= λ a. next

abbrev pub quiet : {A : Type 0} → Reached A → Launch A
quiet e = record { steps = []; out = e }

abbrev pub ended : {A : Type 0} → Result A → Reached A
ended (ok a) = goes a
ended (threw e) = fails e
ended undefined = unknown

-- What only reads, and `return 1` where there is nothing.
abbrev pub setting : {A : Type 0} → Result A → Launch A
setting r = quiet (ended r)

abbrev pub or_exit : {A : Type 0} → Option A → Launch A
or_exit none = quiet (exits (pos 1))
or_exit (some a) = quiet (goes a)

unfoldable pub subscribe : Launch Unit
subscribe = record { steps = subscribed ∷ []; out = goes tt }

-- `if (!ports.join(&socket, pipes, name)) return 1;`
abbrev pub after_join : Bytes → Result (List SocketCall × Bool) → Launch Unit
after_join name (ok (calls, true)) = record { steps = joined name calls ∷ []; out = goes tt }
after_join name (ok (calls, false)) = record { steps = joined name calls ∷ []; out = exits (pos 1) }
after_join name (threw e) = quiet (fails e)
after_join name undefined = quiet unknown

-- The variables of the command line.
pub record Options : Type 0 where
  pub help : Bool
  pub pipes : Option Bytes
  pub config : Option Bytes
  pub name : Option Bytes

module _ (decimal : ℤ → Bytes) (accepts : SocketCall → Bool) where
  unfoldable pub join_pipe : {Real : Type 0} → Value Real → Bytes → Launch Unit
  join_pipe pipes name = after_join name (join decimal accepts pipes name)

module _ {Real : Type 0} (parse : List Bytes → Options) (read : Bytes → Option (Value Real)) where
  -- The two texts read, one after the other.
  abbrev pub read_both : Bytes → Bytes → Option (Value Real × Value Real)
  read_both pipes config = elim (read pipes) [
    | none ↦ none
    | some p ↦ elim (read config) [ none ↦ none | some r ↦ some (p, r) ]
  ]

  abbrev pub all_given :
      Bool → Option Bytes → Option Bytes → Option Bytes → Option (Value Real × Value Real)
  all_given false (some pipes) (some config) (some name) = read_both pipes config
  all_given _ _ _ _ = none

  -- `setup_main`, `none` where it returns false; and what the programs without it do themselves.
  unfoldable pub setup_main : List Bytes → Option (Value Real × Value Real)
  setup_main args = let vm = parse args in all_given vm.help vm.pipes vm.config vm.name

  unfoldable pub setup_args : List Bytes → Option (Value Real × Value Real)
  setup_args (pipes ∷ config ∷ name ∷ []) = read_both pipes config
  setup_args _ = none
