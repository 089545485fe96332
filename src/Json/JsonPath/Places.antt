-- ===== src/Json/JsonPath/Places.antt =====
-- What the rounds of the loop of `getPath` leave of the path.
use skweltch.Prelude.{
  ℕ, zero, suc, ◌≤◌, ◌≡◌, refl, inl, inr, Option, some, Option-cases, List, [], ◌∷◌, Bytes, ℤ, ◌==◌,
  Bool-cases, length, arith,
}
use skweltch.Result.{Result, ok, threw, undefined, ◌>>=◌, >>=-ok, Result-cases}
use skweltch.Json.{Value, int, object, LexicalCast}
use skweltch.Json.JsonPath.{
  next_token, get_condition, Place, get_token, only_object, by_condition, step, loop, get_place,
  get_path, set_path_int, pointed, change_at,
}
use skweltch.Json.JsonObject.{get_obj, set_value}

-- A token takes at least its first character, if that is none that ends it.
next_token-length : (cs : Bytes) → length (next_token cs).1 ≤ length cs
next_token-length [] = omega arith
next_token-length (c ∷ cs) = ground (arith, next_token-length cs)

get_condition-length :
    (cs cond rest : Bytes) → get_condition cs ≡ some (cond, rest) → length rest ≤ length cs
unfolding get_condition
get_condition-length [] cond rest e = cc
get_condition-length (c ∷ cs) cond rest e = elim (Option-cases (get_condition cs)) [
  | inl missing ↦ ground arith
  | inr ((a, b), found) ↦ ground (arith, get_condition-length cs a b found)
]

module _ {Real : Type 0} (cast : LexicalCast Real) (split : Bytes → List Bytes) where
  step-length :
      (o : Option (Place Real)) (c : ℕ) (cs : Bytes) (p : Option (Place Real)) (rest : Bytes)
      → step cast split o c cs ≡ ok (p, rest)
      → length rest ≤ length cs
  unfolding step
  step-length o c cs p rest e = elim (Bool-cases (c == b'.')) [
    | inl dot ↦
        let (q, got, more) = >>=-ok (get_token o (next_token cs).0) _ (rw (dot, step) at e) in
        let (u, passed, final) = >>=-ok (only_object q) _ more in
        ground (arith, next_token-length cs)
    | inr no_dot ↦ elim (Bool-cases (c == b'[')) [
      | inl open_bracket ↦ elim (Option-cases (get_condition cs)) [
        | inl missing ↦ cc (rw (no_dot, open_bracket, missing, step) at e)
        | inr ((a, b), found) ↦
            let (q, got, final) =
              >>=-ok (by_condition cast split o a) _
                (rw (no_dot, open_bracket, found, step) at e) in
            ground (arith, get_condition-length cs a b found)
      ]
      | inr letter ↦
          let (q, got, final) =
            >>=-ok (get_token o (c ∷ (next_token cs).0)) _ (rw (no_dot, letter, step) at e) in
          ground (arith, next_token-length cs)
    ]
  ]

  loop-total :
      (fuel : ℕ) (o : Option (Place Real)) (path : Bytes)
      → length path ≤ fuel
      → (r : Result (Option (Place Real))) × (loop cast split fuel o path ≡ some r)
  unfolding loop
  loop-total fuel o [] h = (ok o, refl)
  loop-total zero o (c ∷ cs) h = absurd (omega arith)
  loop-total (suc fuel) o (c ∷ cs) h = elim (Result-cases (step cast split o c cs)) [
    | inl ((p, rest), e) ↦
        rw (loop, e) (loop-total fuel p rest (omega (arith, step-length o c cs p rest e)))
    | inr (inl (x, e)) ↦ (threw x, rw (loop, e) refl)
    | inr (inr e) ↦ (undefined, rw (loop, e) refl)
  ]

  -- `getPath` and `setPathInt` end for every configuration and every path: with a value, an exception
  -- or a pointer that is NULL.
  pub get_path-total :
      (v : Value Real) (path var : Bytes) (n : ℤ)
      → ((r : Result (Value Real)) × (get_path cast split v path ≡ some r))
        × ((r : Result (Value Real)) × (set_path_int cast split v path var n ≡ some r))
  unfolding get_path set_path_int get_place
  get_path-total v path var n =
      let (r, e) =
        loop-total (length path) (some (record { pointer = []; value = v })) path (omega arith) in
      (
        ((r >>= λ o. pointed o >>= λ p. ok p.value), rw (get_path, e) refl),
        (
          (r >>= λ o. pointed o >>= λ p. get_obj p.value >>= λ obj.
              ok (change_at p.pointer (object (set_value obj var (int n))) v)),
          rw (set_path_int, e) refl,
        ),
      )
