-- ===== src/Json/JsonObject/Laws.antt =====
-- What is read from an object after a change of it.
use skweltch.Prelude.{
  ◌≡◌, refl, false, ◌||◌, List, [], ◌∷◌, Bytes, equal, equal_sym, equal-equal, if◌then◌else◌, arith,
}
use skweltch.Json.{Value, null, Object, end_object, pair}
use skweltch.Json.JsonObject.{has_pair, get_value, set_value, push_back}

module _ {Real : Type 0} where
  abbrev pub keys : Object Real → List Bytes
  keys end_object = []
  keys (pair k v o) = k ∷ keys o

  -- `set` changes no name, gives a name that is there its value, and leaves the values of all other
  -- names; a name that is not there stays so, without an error.
  pub get_value-set_value :
      (o : Object Real) (name : Bytes) (v : Value Real) (key : Bytes)
      → (get_value (set_value o name v) key
          ≡ (if equal name key then (if has_pair o name then v else null) else get_value o key))
        × (keys (set_value o name v) ≡ keys o)
  unfolding get_value set_value has_pair
  get_value-set_value end_object name v key = ground (arith)
  get_value-set_value (pair k w o) name v key = ground (
    arith,
    get_value-set_value o name v key,
    equal-equal name k key,
    equal-equal key k name,
    equal_sym name key,
    equal_sym k key,
    equal_sym k name,
  )

  -- `add` gives a name its value if it had none; a name that is there already keeps its first value.
  pub get_value-push_back :
      (o : Object Real) (name : Bytes) (v : Value Real) (key : Bytes)
      → get_value (push_back o name v) key
        ≡ (if has_pair o key then get_value o key else if equal name key then v else null)
  unfolding get_value push_back has_pair
  get_value-push_back end_object name v key = ground (arith, equal_sym name key)
  get_value-push_back (pair k w o) name v key = ground (arith, get_value-push_back o name v key)

  pub has_pair-push_back :
      (o : Object Real) (name : Bytes) (v : Value Real) (key : Bytes)
      → has_pair (push_back o name v) key ≡ has_pair o key || equal key name
  unfolding has_pair push_back
  has_pair-push_back end_object name v key = ground arith
  has_pair-push_back (pair k w o) name v key = ground (arith, has_pair-push_back o name v key)

  -- A name that is not there has the value null.
  pub get_value-null :
      (o : Object Real) (key : Bytes) → has_pair o key ≡ false → get_value o key ≡ null
  unfolding get_value has_pair
  get_value-null end_object key h = refl
  get_value-null (pair k w o) key h = ground (arith, get_value-null o key)
