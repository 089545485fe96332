-- ===== src/Tasks/Named.antt =====
-- Which block of a machine is its vent, for machine/TaskMonitor.cpp.
use skweltch.Prelude.{
  ◌≡◌, refl, inl, inr, Bool, false, Bytes, codes, equal, if◌then◌else◌, Bool-cases,
}
use skweltch.Result.{Result, ok, threw, runtime_error, ◌>>=◌}
use skweltch.Json.{Value, null, str, boolean, int, real, array, object, Object, end_object, pair}
use skweltch.Json.JsonObject.{get_value, get_string, has_pair, has, as_string}
use skweltch.Tasks.{is_vent}

module _ {Real : Type 0} where
  abbrev pub text_is : Bytes → Value Real → Result Bool
  text_is name (str s) = ok (equal s name)
  text_is name v = threw runtime_error

  -- Whether a block of this name is the vent of the machine: the first entry `vent` of the
  -- configuration says so, which is to be a text.
  abbrev pub named_vent : Object Real → Bytes → Result Bool
  named_vent end_object name = ok false
  named_vent (pair key v o) name =
      let later = named_vent o name in if equal (codes "vent") key then text_is name v else later

  abbrev pub is_the_vent : Value Real → Bytes → Result Bool
  is_the_vent (object o) name = named_vent o name
  is_the_vent root name = threw runtime_error

  as_string-text_is :
      (name : Bytes) (v : Value Real) → (as_string v >>= λ s. ok (equal s name)) ≡ text_is name v
  as_string-text_is name null = refl
  as_string-text_is name (str s) = refl
  as_string-text_is name (boolean b) = refl
  as_string-text_is name (int n) = refl
  as_string-text_is name (real x) = refl
  as_string-text_is name (array a) = refl
  as_string-text_is name (object o) = refl

  named_vent-has :
      (o : Object Real) (name : Bytes)
      → (if has_pair o (codes "vent")
          then (as_string (get_value o (codes "vent")) >>= λ s. ok (equal s name))
          else ok false)
        ≡ named_vent o name
  unfolding has_pair get_value
  named_vent-has end_object name = refl
  named_vent-has (pair key v o) name = elim (Bool-cases (equal (codes "vent") key)) [
    | inl here ↦ rw (has_pair, get_value, named_vent, here) (as_string-text_is name v)
    | inr other ↦ rw (has_pair, get_value, named_vent, other) (named_vent-has o name)
  ]

  pub is_vent-named : (root : Value Real) (name : Bytes) → is_vent root name ≡ is_the_vent root name
  unfolding is_vent has get_string
  is_vent-named null name = refl
  is_vent-named (str s) name = refl
  is_vent-named (boolean b) name = refl
  is_vent-named (int n) name = refl
  is_vent-named (real x) name = refl
  is_vent-named (array a) name = refl
  is_vent-named (object o) name = named_vent-has o name
