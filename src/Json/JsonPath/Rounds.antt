-- ===== src/Json/JsonPath/Rounds.antt =====
-- The rounds of the loop of `getPath` on a path of names.
use skweltch.Prelude.{
  ℕ, zero, suc, ◌≤◌, ◌≡◌, ◌≢◌, refl, ap, sym, ◌∙◌, inl, inr, false, ◌||◌, Option, none, some,
  Option-cases, List, [], ◌∷◌, ◌++◌, Bytes, equal, ◌==◌, if◌then◌else◌, Bool-cases, length, arith,
  All, append_assoc, append-nil, length-append,
}
use skweltch.Result.{Result, ok, threw, undefined, runtime_error, ◌>>=◌}
use skweltch.Json.{Value, object, Object, end_object, pair, LexicalCast}
use skweltch.Json.JsonObject.{get_obj, is_object}
use skweltch.Json.JsonPath.{
  next_token, Place, find_key, get_token, change_pair, step, loop, get_place, pointed,
}

-- A name that a path can hold.
abbrev pub IsName : Bytes → Type 0
IsName = All (λ c. (c == b'.' || c == b'[') ≡ false)

abbrev pub dots : List Bytes → Bytes
dots [] = []
dots (k ∷ ks) = b'.' ∷ (k ++ dots ks)

abbrev pub dotted : Bytes → List Bytes → Bytes
dotted k ks = k ++ dots ks

next_token-name :
    (k : Bytes) (ks : List Bytes) → IsName k → next_token (k ++ dots ks) ≡ (k, dots ks)
next_token-name [] [] h = refl
next_token-name [] (j ∷ ks) h = refl
next_token-name (c ∷ k) ks (h, hs) = rw h (rw (next_token-name k ks hs) refl)

-- A write at the place of a name is found under that name.
pub find_key-change_pair :
    {Real : Type 0} (o : Object Real) (k : Bytes) (i : ℕ) (w : Value Real)
    (f : Value Real → Value Real)
    → find_key o k ≡ some (i, w)
    → find_key (change_pair o i f) k ≡ some (i, f w)
unfolding find_key change_pair
find_key-change_pair end_object k i w f e = cc
find_key-change_pair (pair j v o) k zero w f e = elim (Option-cases (find_key o k)) [
  | inl missing ↦ ground arith
  | inr ((i, u), found) ↦ ground arith
]
find_key-change_pair (pair j v o) k (suc i) w f e = elim (Option-cases (find_key o k)) [
  | inl missing ↦ ground arith
  | inr ((m, u), found) ↦
      let there : find_key o k ≡ some (i, w) = ground (arith, found, e) in
      let past : equal k j ≡ false = ground (arith, found, e) in
      rw (find_key-change_pair o k i w f there, past) refl
]

module _ {Real : Type 0} where
  -- A name that is found has to be an object, and is gone on from.
  abbrev pub into_object :
      Option (ℕ × Value Real) → (Value Real → Result (Value Real)) → Result (Value Real)
  into_object none next = threw runtime_error
  into_object (some (i, w)) next = if is_object w then next w else threw runtime_error

  abbrev pub names_from : Value Real → List Bytes → Result (Value Real)
  names_from v [] = ok v
  names_from v (k ∷ ks) = get_obj v >>= λ o. into_object (find_key o k) (λ w. names_from w ks)

  -- What a path of names stands for: the value of the first name, from which the others go on from
  -- object to object. Where the first name is missing the pointer is NULL.
  abbrev pub first_name :
      Option (ℕ × Value Real) → (Value Real → Result (Value Real)) → Result (Value Real)
  first_name none next = undefined
  first_name (some (i, w)) next = next w

  abbrev pub by_names : Value Real → Bytes → List Bytes → Result (Value Real)
  by_names v k ks = get_obj v >>= λ o. first_name (find_key o k) (λ w. names_from w ks)

  -- The positions of the names.
  abbrev pub next_position : Option (ℕ × Value Real) → (Value Real → List ℕ) → List ℕ
  next_position none next = []
  next_position (some (i, w)) next = i ∷ next w

  abbrev pub positions : Value Real → List Bytes → List ℕ
  positions v [] = []
  positions v (k ∷ ks) = elim (get_obj v) [
    | ok o ↦ next_position (find_key o k) (λ w. positions w ks)
    | _ ↦ []
  ]

  module _ (cast : LexicalCast Real) (split : Bytes → List Bytes) where
    abbrev pub place : List ℕ → Value Real → Place Real
    place is v = record { pointer = is; value = v }

    -- What the loop comes to on further names.
    abbrev pub reached : List ℕ → Value Real → List Bytes → Result (Option (Place Real))
    reached is v ks = names_from v ks >>= λ w. ok (some (place (is ++ positions v ks) w))

    -- One round: a name of an object.
    step-name :
        (is : List ℕ) (obj : Object Real) (k : Bytes) (ks : List Bytes) (i : ℕ) (w : Value Real)
        → IsName k
        → find_key obj k ≡ some (i, w)
        → step cast split (some (place is (object obj))) b'.' (k ++ dots ks) ≡ (
            if is_object w
            then ok (some (place (is ++ i ∷ []) w), dots ks)
            else threw runtime_error)
    unfolding step get_token
    step-name is obj k ks i w h e = elim (Bool-cases (is_object w)) [
      | inl goes ↦ rw (next_token-name k ks h, e, goes) refl
      | inr stops ↦ rw (next_token-name k ks h, e, stops) refl
    ]

    step-no_name :
        (is : List ℕ) (obj : Object Real) (k : Bytes) (ks : List Bytes)
        → IsName k
        → find_key obj k ≡ none
        → step cast split (some (place is (object obj))) b'.' (k ++ dots ks) ≡ threw runtime_error
    unfolding step get_token
    step-no_name is obj k ks h e = rw (next_token-name k ks h, e) refl

    loop-dots :
        (ks : List Bytes) (fuel : ℕ) (is : List ℕ) (v : Value Real)
        → All IsName ks
        → length (dots ks) ≤ fuel
        → loop cast split fuel (some (place is v)) (dots ks) ≡ some (reached is v ks)
    unfolding loop
    loop-dots [] fuel is v h le =
        ap (λ (js : List ℕ). some (ok (some (place js v)))) (sym (append-nil is))
    loop-dots (k ∷ ks) zero is v h le = absurd (omega arith)
    loop-dots (k ∷ ks) (suc fuel) is (object obj) (h, hs) le =
        elim (Option-cases (find_key obj k)) [
          | inl missing ↦ rw (loop, step-no_name is obj k ks h missing, missing) refl
          | inr ((i, w), found) ↦ elim (Bool-cases (is_object w)) [
            | inl goes ↦
                let shorter : length (dots ks) ≤ fuel = omega (arith, length-append k (dots ks)) in
                rw (loop, step-name is obj k ks i w h found, goes, found, goes)
                  (loop-dots ks fuel (is ++ i ∷ []) w hs shorter
                    ∙ ap (λ (js : List ℕ). some (names_from w ks >>= λ u. ok (some (place js u))))
                        (append_assoc is (i ∷ []) (positions w ks)))
            | inr stops ↦ rw (loop, step-name is obj k ks i w h found, stops, found, stops) refl
          ]
        ]
    loop-dots (k ∷ ks) (suc fuel) is v h le = unfold step get_token in refl

    -- A pointer that is NULL is not gone on from.
    loop-null :
        (ks : List Bytes) (fuel : ℕ)
        → All IsName ks
        → length (dots ks) ≤ fuel
        → loop cast split fuel none (dots ks) ≡ some (elim ks [ [] ↦ ok none | j ∷ js ↦ undefined ])
    unfolding loop step get_token
    loop-null [] fuel h le = refl
    loop-null (k ∷ ks) zero h le = absurd (omega arith)
    loop-null (k ∷ ks) (suc fuel) (h, hs) le = refl

    -- The first round.
    step-first :
        (o : Place Real) (c : ℕ) (k : Bytes) (ks : List Bytes)
        → IsName (c ∷ k)
        → step cast split (some o) c (k ++ dots ks)
          ≡ (get_token (some o) (c ∷ k) >>= λ p. ok (p, dots ks))
    unfolding step get_token
    step-first o c k ks h =
        let (no_dot, no_bracket) : ((c == b'.') ≡ false) × ((c == b'[') ≡ false) =
          ground (arith, h.0) in
        rw (step, no_dot, no_bracket, next_token-name k ks h.1) refl

    -- What `getPath` points to on a path of names, the first of them found.
    pub get_place-found :
        (o : Object Real) (k : Bytes) (ks : List Bytes) (i : ℕ) (w : Value Real)
        → k ≢ []
        → IsName k
        → All IsName ks
        → find_key o k ≡ some (i, w)
        → get_place cast split (object o) (dotted k ks) ≡ some (reached (i ∷ []) w ks)
    unfolding get_place loop get_token
    get_place-found o [] ks i w full h hs e = absurd (full refl)
    get_place-found o (c ∷ k) ks i w full h hs e =
        let enough : length (dots ks) ≤ length (k ++ dots ks) =
          omega (arith, length-append k (dots ks)) in
        rw (get_place, loop, step-first (place [] (object o)) c k ks h, e)
          (loop-dots ks (length (k ++ dots ks)) (i ∷ []) w hs enough)

    pub get_place-missing :
        (o : Object Real) (k : Bytes) (ks : List Bytes)
        → k ≢ []
        → IsName k
        → All IsName ks
        → find_key o k ≡ none
        → get_place cast split (object o) (dotted k ks)
          ≡ some (elim ks [ [] ↦ ok none | j ∷ js ↦ undefined ])
    unfolding get_place loop get_token
    get_place-missing o [] ks full h hs e = absurd (full refl)
    get_place-missing o (c ∷ k) ks full h hs e =
        let enough : length (dots ks) ≤ length (k ++ dots ks) =
          omega (arith, length-append k (dots ks)) in
        rw (get_place, loop, step-first (place [] (object o)) c k ks h, e)
          (loop-null ks (length (k ++ dots ks)) hs enough)

    pub null_value :
        (ks : List Bytes)
        → (elim ks [ [] ↦ ok none | j ∷ js ↦ undefined ] >>= λ (o : Option (Place Real)).
            pointed o >>= λ p. ok p.value)
          ≡ undefined
    null_value [] = refl
    null_value (k ∷ ks) = refl

    pub place_value :
        (m : Result (Value Real)) (is : List ℕ)
        → ((m >>= λ w. ok (some (place is w))) >>= λ o. pointed o >>= λ p. ok p.value) ≡ m
    place_value (ok w) is = refl
    place_value (threw e) is = refl
    place_value undefined is = refl
