-- ===== src/Graph/Plain.antt =====
-- Configurations whose names and texts hold no `<` and no `>`.
use skweltch.Prelude.{◌≡◌, refl, Bool, true, ◌&&◌, [], ◌∷◌, ◌++◌, Bytes, ℤ, sym, arith}
use skweltch.Result.{Result, ok, threw, undefined, runtime_error, other_error, same_ok, >>=-ok}
use skweltch.Json.{
  Value, null, str, boolean, int, real, array, object, Array, end_array, item, Object, end_object,
  pair, LexicalCast,
}
use skweltch.Json.JsonObject.{
  get_obj, get_value, get_string, get_child, get_array, as_string, array_or_empty, value_text,
}
use skweltch.Graph.{or_no_text}
use skweltch.Graph.Tags.{is_plain}

unfoldable mutual
  pub plain_value : {Real : Type 0} → Value Real → Bool
  plain_value (str s) = is_plain s
  plain_value (array a) = plain_array a
  plain_value (object o) = plain_object o
  plain_value null = true
  plain_value (boolean b) = true
  plain_value (int n) = true
  plain_value (real x) = true

  pub plain_array : {Real : Type 0} → Array Real → Bool
  plain_array end_array = true
  plain_array (item v a) = plain_value v && plain_array a

  pub plain_object : {Real : Type 0} → Object Real → Bool
  plain_object end_object = true
  plain_object (pair k v o) = is_plain k && (plain_value v && plain_object o)

module _ {Real : Type 0} where
  get_value-plain :
      (o : Object Real) (name : Bytes)
      → plain_object o ≡ true
      → plain_value (get_value o name) ≡ true
  unfolding plain_object get_value
  get_value-plain end_object name h = refl
  get_value-plain (pair k v o) name h = ground (arith, get_value-plain o name)

  pub get_obj-plain :
      (v : Value Real) (o : Object Real)
      → plain_value v ≡ true
      → get_obj v ≡ ok o
      → plain_object o ≡ true
  unfolding plain_value
  get_obj-plain (object p) o h e = rw (sym (same_ok e)) h
  get_obj-plain null o h e = cc
  get_obj-plain (str s) o h e = cc
  get_obj-plain (boolean b) o h e = cc
  get_obj-plain (int n) o h e = cc
  get_obj-plain (real x) o h e = cc
  get_obj-plain (array a) o h e = cc

  as_string-plain :
      (v : Value Real) (s : Bytes) → plain_value v ≡ true → as_string v ≡ ok s → is_plain s ≡ true
  unfolding plain_value
  as_string-plain (str t) s h e = rw (sym (same_ok e)) h
  as_string-plain null s h e = cc
  as_string-plain (object o) s h e = cc
  as_string-plain (boolean b) s h e = cc
  as_string-plain (int n) s h e = cc
  as_string-plain (real x) s h e = cc
  as_string-plain (array a) s h e = cc

  pub get_string-plain :
      (v : Value Real) (key s : Bytes)
      → plain_value v ≡ true
      → get_string v key ≡ ok s
      → is_plain s ≡ true
  unfolding get_string
  get_string-plain v key s h e =
      let (o, f, g) = >>=-ok (get_obj v) _ e in
      as_string-plain _ s (get_value-plain o key (get_obj-plain v o h f)) g

  pub get_child-plain :
      (v : Value Real) (key : Bytes) (w : Value Real)
      → plain_value v ≡ true
      → get_child v key ≡ ok w
      → plain_value w ≡ true
  unfolding get_child
  get_child-plain v key w h e =
      let (o, f, g) = >>=-ok (get_obj v) _ e in
      rw (sym (same_ok g)) (get_value-plain o key (get_obj-plain v o h f))

  array_or_empty-plain :
      (v : Value Real) → plain_value v ≡ true → plain_array (array_or_empty v) ≡ true
  unfolding plain_value
  array_or_empty-plain (array a) h = h
  array_or_empty-plain null h = refl
  array_or_empty-plain (str s) h = refl
  array_or_empty-plain (boolean b) h = refl
  array_or_empty-plain (int n) h = refl
  array_or_empty-plain (real x) h = refl
  array_or_empty-plain (object o) h = refl

  pub get_array-plain :
      (v : Value Real) (key : Bytes) (a : Array Real)
      → plain_value v ≡ true
      → get_array v key ≡ ok a
      → plain_array a ≡ true
  unfolding get_array
  get_array-plain v key a h e =
      let (o, f, g) = >>=-ok (get_obj v) _ e in
      rw (sym (same_ok g)) (array_or_empty-plain _ (get_value-plain o key (get_obj-plain v o h f)))

  -- What a stream writes and lexical_cast gives for numbers and truth values holds none either.
  pub value_text-plain :
      (cast : LexicalCast Real)
      → ((n : ℤ) → is_plain (cast.of_int n) ≡ true)
      → ((b : Bool) → is_plain (cast.of_bool b) ≡ true)
      → ((x : Real) → is_plain (cast.of_real x) ≡ true)
      → (v : Value Real) → plain_value v ≡ true
      → is_plain (value_text cast v) ≡ true
  unfolding plain_value value_text
  value_text-plain cast hi hb hr (str s) h = h
  value_text-plain cast hi hb hr (int n) h = hi _
  value_text-plain cast hi hb hr (boolean b) h = hb b
  value_text-plain cast hi hb hr (real x) h = hr x
  value_text-plain cast hi hb hr null h = refl
  value_text-plain cast hi hb hr (array a) h = refl
  value_text-plain cast hi hb hr (object o) h = refl

pub or_no_text-plain :
    (r : Result Bytes) (s : Bytes)
    → ((t : Bytes) → r ≡ ok t → is_plain t ≡ true)
    → or_no_text r ≡ ok s
    → is_plain s ≡ true
or_no_text-plain (ok t) s h e = h s e
or_no_text-plain (threw runtime_error) s h e = rw (sym (same_ok e)) refl
or_no_text-plain (threw other_error) s h e = cc
or_no_text-plain undefined s h e = cc

pub is_plain-append :
    (s t : Bytes) → is_plain s ≡ true → is_plain t ≡ true → is_plain (s ++ t) ≡ true
is_plain-append [] t h k = k
is_plain-append (c ∷ s) t h k = ground (arith, is_plain-append s t)
