-- ===== src/Json/JsonObject.antt =====
-- config/JsonObject.cpp, config/JsonArray.cpp and config/JsonNamePredicate.cpp: objects of named
-- values. A `JsonObject` is its value; what changes it gives the changed value. An iterator is the
-- pair or the value that it stands at.
pub mod Laws
use skweltch.Prelude.{
  ℕ, suc, ◌+◌, Bool, true, false, ◌&&◌, ◌||◌, Option, none, some, List, [], ◌∷◌, ◌++◌, Bytes, codes,
  equal, if◌then◌else◌, ℤ, pos, to_size, to_int,
}
use skweltch.Result.{Result, ok, threw, runtime_error, ◌>>=◌}
use skweltch.Json.{
  Value, null, str, boolean, int, real, array, object, Array, end_array, item, Object, end_object,
  pair, LexicalCast,
}

module _ {Real : Type 0} where
  -- `get_obj`, `get_array` and `get_value` of json_spirit, which throw for another type. An `int` is
  -- the low 32 bits of what the value holds.
  abbrev pub get_obj : Value Real → Result (Object Real)
  get_obj (object o) = ok o
  get_obj _ = threw runtime_error

  abbrev pub get_arr : Value Real → Result (Array Real)
  get_arr (array a) = ok a
  get_arr _ = threw runtime_error

  abbrev pub as_string : Value Real → Result Bytes
  as_string (str s) = ok s
  as_string _ = threw runtime_error

  abbrev pub as_int : Value Real → Result ℤ
  as_int (int n) = ok (to_int (to_size n))
  as_int _ = threw runtime_error

  -- `isObject`, `isArray` and `empty`
  abbrev pub is_object : Value Real → Bool
  is_object (object o) = true
  is_object _ = false

  abbrev pub is_array : Value Real → Bool
  is_array (array a) = true
  is_array _ = false

  abbrev pub is_null : Value Real → Bool
  is_null null = true
  is_null _ = false

  -- The static `has`, `get` and `set`. `set` changes every pair of the name, and adds none.
  unfoldable pub has_pair : Object Real → Bytes → Bool
  has_pair end_object key = false
  has_pair (pair name v o) key = equal key name || has_pair o key

  unfoldable pub get_value : Object Real → Bytes → Value Real
  get_value end_object name = null
  get_value (pair k v o) name = if equal name k then v else get_value o name

  unfoldable pub set_value : Object Real → Bytes → Value Real → Object Real
  set_value end_object name v = end_object
  set_value (pair k w o) name v = pair k (if equal name k then v else w) (set_value o name v)

  unfoldable pub push_back : Object Real → Bytes → Value Real → Object Real
  push_back end_object name v = pair name v end_object
  push_back (pair k w o) name v = pair k w (push_back o name v)

  -- `has`, `getChild`, `getString`, `getInt`, `getBool`, `getArray`
  unfoldable pub has : Value Real → Bytes → Result Bool
  unfolding has_pair
  has v key = do o ← get_obj v; ok (has_pair o key)

  unfoldable pub get_child : Value Real → Bytes → Result (Value Real)
  unfolding get_value
  get_child v key = do o ← get_obj v; ok (get_value o key)

  unfoldable pub get_string : Value Real → Bytes → Result Bytes
  unfolding get_value
  get_string v key = do o ← get_obj v; as_string (get_value o key)

  abbrev pub int_or : Value Real → ℤ → ℤ
  int_or (int n) default_int = to_int (to_size n)
  int_or _ default_int = default_int

  abbrev pub bool_or_false : Value Real → Bool
  bool_or_false (boolean b) = b
  bool_or_false _ = false

  abbrev pub array_or_empty : Value Real → Array Real
  array_or_empty (array a) = a
  array_or_empty _ = end_array

  unfoldable pub get_int : Value Real → Bytes → ℤ → Result ℤ
  unfolding get_value
  get_int v key default_int = do o ← get_obj v; ok (int_or (get_value o key) default_int)

  unfoldable pub get_bool : Value Real → Bytes → Result Bool
  unfolding get_value
  get_bool v key = do o ← get_obj v; ok (bool_or_false (get_value o key))

  unfoldable pub get_array : Value Real → Bytes → Result (Array Real)
  unfolding get_value
  get_array v key = do o ← get_obj v; ok (array_or_empty (get_value o key))

  -- `isDouble` and `isValueDouble`; `getDouble` and `getValueDouble` also take an `int`.
  abbrev pub is_real : Value Real → Bool
  is_real (real x) = true
  is_real _ = false

  abbrev pub as_real : (ℤ → Real) → Value Real → Result Real
  as_real of_int (real x) = ok x
  as_real of_int (int n) = ok (of_int n)
  as_real of_int _ = threw runtime_error

  pub is_double : Value Real → Bytes → Result Bool
  is_double v key = do o ← get_obj v; ok (is_real (get_value o key))

  pub get_double : (ℤ → Real) → Value Real → Bytes → Result Real
  get_double of_int v key = do o ← get_obj v; as_real of_int (get_value o key)

  -- `getValueString`, and `getAsString`
  unfoldable pub value_text : LexicalCast Real → Value Real → Bytes
  value_text cast (str s) = s
  value_text cast (int n) = cast.of_int (to_int (to_size n))
  value_text cast (boolean b) = cast.of_bool b
  value_text cast (real x) = cast.of_real x
  value_text cast _ = b'?' ∷ []

  pub get_as_string : LexicalCast Real → Value Real → Bytes → Result Bytes
  unfolding value_text
  get_as_string cast v key = do o ← get_obj v; ok (value_text cast (get_value o key))

  -- `setString`, `setInt`, `setBool` and `replace`, each with its own kind of value.
  unfoldable pub replace : Bytes → Value Real → Value Real → Result (Value Real)
  unfolding set_value
  replace key x v = do o ← get_obj v; ok (object (set_value o key x))

  abbrev pub set_string : Bytes → Bytes → Value Real → Result (Value Real)
  set_string key s = replace key (str s)

  abbrev pub set_int : Bytes → ℤ → Value Real → Result (Value Real)
  set_int key n = replace key (int n)

  abbrev pub set_bool : Bytes → Bool → Value Real → Result (Value Real)
  set_bool key b = replace key (boolean b)

  -- `add`, the five of them. What is no object becomes an empty one first.
  abbrev pub or_empty : Value Real → Object Real
  or_empty (object o) = o
  or_empty _ = end_object

  unfoldable pub add : Bytes → Value Real → Value Real → Value Real
  unfolding push_back
  add name x v = object (push_back (or_empty v) name x)

  -- `write`, and `getChildAsString`
  unfoldable pub write : (Value Real → Bytes) → Value Real → Bytes
  write writer null = codes "{}"
  write writer v = writer v

  unfoldable pub get_child_as_string : (Value Real → Bytes) → Value Real → Bytes → Result Bytes
  unfolding get_value write
  get_child_as_string writer v key = do o ← get_obj v; ok (write writer (get_value o key))

  -- The methods of `JsonArray` on the value at an iterator.
  unfoldable pub item_int : Value Real → Bytes → Result ℤ
  unfolding get_value
  item_int v name = do
    o ← get_obj v
    let x = get_value o name
    if is_null x then ok (pos 0) else as_int x

  unfoldable pub item_string : Value Real → Bytes → Result Bytes
  unfolding get_value
  item_string v name = do
    o ← get_obj v
    let x = get_value o name
    if is_null x then ok [] else as_string x

  unfoldable pub push_item : Array Real → Value Real → Array Real
  push_item end_array v = item v end_array
  push_item (item w a) v = item w (push_item a v)

  pub item_count : Array Real → ℕ
  item_count end_array = 0
  item_count (item v a) = suc (item_count a)

  pub size : Array Real → ℤ
  unfolding item_count
  size a = to_int (item_count a)

  -- The two loops of `findObj`, the first match of each; `null` is nothing found.
  unfoldable pub find_item : (Value Real → Result Bool) → Array Real → Result (Option (Value Real))
  find_item match end_array = ok none
  find_item match (item v a) = do
    found ← match v
    elim found [ true ↦ ok (some v) | false ↦ find_item match a ]

  unfoldable pub find_here : (Value Real → Result Bool) → Value Real → Result (Option (Value Real))
  unfolding find_item
  find_here match (array a) = find_item match a
  find_here match v = do found ← match v; ok (if found then some v else none)

  unfoldable pub find_pair : (Value Real → Result Bool) → Object Real → Result (Value Real)
  unfolding find_here
  find_pair match end_object = ok null
  find_pair match (pair k v o) = do
    found ← find_here match v
    elim found [ some w ↦ ok w | none ↦ find_pair match o ]

  unfoldable pub find_obj : (Value Real → Result Bool) → Value Real → Result (Value Real)
  unfolding find_pair
  find_obj match v = do o ← get_obj v; find_pair match o

  -- `JsonNamePredicate::match`
  unfoldable pub match_name : Bytes → Value Real → Result Bool
  unfolding get_string
  match_name name v =
      if is_object v then (do s ← get_string v (codes "name"); ok (equal s name)) else ok false
