-- ===== src/Json/JsonPath.antt =====
-- config/JsonPath.cpp: finding a value by a path such as `tasks[name="x"].config`, and changing it.
-- A pointer into the configuration is the list of positions that lead to it from its root, kept with
-- the value that it points to; `none` is NULL. Cutting a condition at `=` is `boost::split`, the
-- argument `split`.
pub mod Places
pub mod Rounds
pub mod Names
use skweltch.Prelude.{
  ℕ, zero, suc, ◌+◌, ◌-◌, Bool, true, false, ◌||◌, Option, none, some, List, [], ◌∷◌, ◌++◌, Bytes,
  equal, ◌==◌, if◌then◌else◌, length, drop, take, ℤ, pos, negsuc, to_size, to_int, ◌==ℤ◌,
}
use skweltch.Result.{Result, ok, threw, undefined, runtime_error, other_error, ◌>>=◌}
use skweltch.Json.{
  Value, null, str, int, array, object, Array, end_array, item, Object, end_object, pair,
  LexicalCast,
}
use skweltch.Json.JsonObject.{get_obj, get_value, set_value, is_object}

-- `find_first_of(".[")`, and the two parts of the text there.
abbrev pub next_token : Bytes → Bytes × Bytes
next_token [] = ([], [])
next_token (c ∷ cs) =
    let (token, rest) = next_token cs in
    if c == b'.' || c == b'[' then ([], c ∷ cs) else (c ∷ token, rest)

-- `getCondition`, `none` where it throws.
pub get_condition : Bytes → Option (Bytes × Bytes)
get_condition [] = none
get_condition (c ∷ cs) = elim (get_condition cs) [
  | none ↦ if c == b']' then some ([], cs) else none
  | some (cond, rest) ↦ if c == b']' then some ([], cs) else some (c ∷ cond, rest)
]

-- `condition.find_first_of("=") != npos`
pub has_equals : Bytes → Bool
has_equals [] = false
has_equals (c ∷ cs) = c == b'=' || has_equals cs

-- The quotes split off a key.
pub unquote : Bytes → Bytes
unquote [] = []
unquote (c ∷ cs) = if c == b'"' then take (length cs - 1) cs else c ∷ cs

pub record Place (Real : Type 0) : Type 0 where
  pub pointer : List ℕ
  pub value : Value Real

module _ {Real : Type 0} where
  -- One position further.
  abbrev pub below : Place Real → ℕ → Value Real → Place Real
  below o i v = record { pointer = o.pointer ++ i ∷ []; value = v }

  -- `get`, the position of a name and its value.
  unfoldable pub find_key : Object Real → Bytes → Option (ℕ × Value Real)
  find_key end_object name = none
  find_key (pair k v o) name = elim (find_key o name) [
    | none ↦ if equal name k then some (0, v) else none
    | some (i, w) ↦ if equal name k then some (0, v) else some (suc i, w)
  ]

  -- `get(&o->get_obj(), token)`
  unfoldable pub get_token : Option (Place Real) → Bytes → Result (Option (Place Real))
  unfolding find_key
  get_token none token = undefined
  get_token (some o) token = do
    obj ← get_obj o.value
    elim (find_key obj token) [ none ↦ ok none | some (i, v) ↦ ok (some (below o i v)) ]

  -- The check of `case '.'`
  abbrev pub only_object : Option (Place Real) → Result (Option (Place Real))
  only_object none = threw runtime_error
  only_object (some o) = if is_object o.value then ok (some o) else threw runtime_error

  -- `*o`
  abbrev pub pointed : Option (Place Real) → Result (Place Real)
  pointed none = undefined
  pointed (some o) = ok o

  -- `a->at(index)`
  pub item_at : Array Real → ℕ → Option (Value Real)
  item_at end_array i = none
  item_at (item v a) zero = some v
  item_at (item v a) (suc i) = item_at a i

  -- A write through a pointer.
  unfoldable pub change_pair : Object Real → ℕ → (Value Real → Value Real) → Object Real
  change_pair end_object i f = end_object
  change_pair (pair k v o) zero f = pair k (f v) o
  change_pair (pair k v o) (suc i) f = pair k v (change_pair o i f)

  unfoldable pub change_item : Array Real → ℕ → (Value Real → Value Real) → Array Real
  change_item end_array i f = end_array
  change_item (item v a) zero f = item (f v) a
  change_item (item v a) (suc i) f = item v (change_item a i f)

  unfoldable pub change_at : List ℕ → Value Real → Value Real → Value Real
  unfolding change_pair change_item
  change_at [] new v = new
  change_at (i ∷ is) new (object o) = object (change_pair o i (change_at is new))
  change_at (i ∷ is) new (array a) = array (change_item a i (change_at is new))
  change_at (i ∷ is) new v = v

  module _ (cast : LexicalCast Real) (split : Bytes → List Bytes) where
    -- `valueMatches`
    pub same_value : Value Real → Bytes → Result Bool
    same_value (int n) text = elim (cast.to_int text) [
      | none ↦ threw other_error
      | some m ↦ ok (to_int (to_size n) ==ℤ m)
    ]
    same_value (str s) text = ok (equal s text)
    same_value _ text = ok false

    pub value_matches : Value Real → Bytes → Bytes → Result Bool
    unfolding find_key same_value
    value_matches v key text = do
      o ← get_obj v
      elim (find_key o key) [ none ↦ ok false | some (i, w) ↦ same_value w text ]

    -- `childMatches`, whose condition has a `=`.
    pub child_matches : Value Real → Bytes → Result Bool
    unfolding value_matches
    child_matches v condition = elim (split condition) [
      | [] ↦ undefined
      | a ∷ rest ↦ elim rest [ [] ↦ undefined | b ∷ more ↦ value_matches v (unquote a) b ]
    ]

    -- `getChildWithCondition`
    pub find_child : Object Real → Bytes → Result (Option (ℕ × Value Real))
    unfolding child_matches
    find_child end_object condition = ok none
    find_child (pair k v o) condition = do
      found ← child_matches v condition
      elim found [
        | true ↦ ok (some (0, v))
        | false ↦ find_child o condition >>= λ r. elim r [
          | none ↦ ok none
          | some (i, w) ↦ ok (some (suc i, w))
        ]
      ]

    -- An index, as the `size_t` of `at`.
    abbrev pub take_index : Place Real → Bytes → Array Real → Result (Option (Place Real))
    take_index o condition a = elim (cast.to_int condition) [
      | none ↦ threw other_error
      | some n ↦ elim (item_at a (to_size n)) [
        | none ↦ threw other_error
        | some v ↦ ok (some (below o (to_size n) v))
      ]
    ]

    pub by_index : Place Real → Bytes → Value Real → Result (Option (Place Real))
    unfolding item_at
    by_index o condition (array a) = take_index o condition a
    by_index o condition _ = threw runtime_error

    pub by_condition : Option (Place Real) → Bytes → Result (Option (Place Real))
    unfolding by_index find_child has_equals
    by_condition none condition = undefined
    by_condition (some o) condition =
        if has_equals condition
        then (get_obj o.value >>= λ obj. find_child obj condition >>= λ r. elim r [
          | none ↦ ok none
          | some (i, v) ↦ ok (some (below o i v))
        ])
        else by_index o condition o.value

    -- One round of the loop at a character of the path: what it points to then, and the text that
    -- remains.
    unfoldable pub step : Option (Place Real) → ℕ → Bytes → Result (Option (Place Real) × Bytes)
    unfolding get_token get_condition by_condition
    step o c cs =
        if c == b'.'
        then (let (token, rest) = next_token cs in
            get_token o token >>= λ p. only_object p >>= λ q. ok (q, rest))
        else if c == b'['
        then elim (get_condition cs) [
          | none ↦ threw runtime_error
          | some (condition, rest) ↦ by_condition o condition >>= λ p. ok (p, rest)
        ]
        else (let (token, rest) = next_token (c ∷ cs) in get_token o token >>= λ p. ok (p, rest))

    -- The loop, on fuel; `none` where that runs out.
    unfoldable pub loop : ℕ → Option (Place Real) → Bytes → Option (Result (Option (Place Real)))
    loop fuel o [] = some (ok o)
    loop zero o (c ∷ cs) = none
    loop (suc fuel) o (c ∷ cs) = elim (step o c cs) [
      | ok (p, rest) ↦ loop fuel p rest
      | threw e ↦ some (threw e)
      | undefined ↦ some undefined
    ]

    -- The private `getPath`, on fuel for each character of the path.
    unfoldable pub get_place : Value Real → Bytes → Option (Result (Option (Place Real)))
    unfolding loop
    get_place v path = loop (length path) (some (record { pointer = []; value = v })) path

    -- `getPath`.
    unfoldable pub get_path : Value Real → Bytes → Option (Result (Value Real))
    unfolding get_place
    get_path v path = elim (get_place v path) [
      | none ↦ none
      | some r ↦ some (r >>= λ o. pointed o >>= λ p. ok p.value)
    ]

    -- `setPathInt`: every pair `var` of the object that the path leads to, changed in its place.
    unfoldable pub set_path_int : Value Real → Bytes → Bytes → ℤ → Option (Result (Value Real))
    unfolding get_place
    set_path_int v path var n = elim (get_place v path) [
      | none ↦ none
      | some r ↦ some (
          r >>= λ o. pointed o >>= λ p. get_obj p.value >>= λ obj.
          ok (change_at p.pointer (object (set_value obj var (int n))) v))
    ]
