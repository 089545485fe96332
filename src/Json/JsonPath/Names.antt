-- ===== src/Json/JsonPath/Names.antt =====
-- A path of names, as `config.connections`, for config/JsonPath.cpp.
use skweltch.Prelude.{
  ◌≡◌, ◌≢◌, refl, ap, sym, ◌∙◌, inl, inr, true, some, Option-cases, List, [], ◌∷◌, Bytes, ℤ,
  Bool-cases, arith, All,
}
use skweltch.Result.{ok}
use skweltch.Json.{Value, int, object, Object, LexicalCast}
use skweltch.Json.JsonObject.{set_value, is_object}
use skweltch.Json.JsonPath.{find_key, change_pair, change_at, get_path, set_path_int}
use skweltch.Json.JsonPath.Rounds.{
  IsName, dotted, find_key-change_pair, names_from, by_names, positions, get_place-found,
  get_place-missing, null_value, place_value,
}

module _ {Real : Type 0} (cast : LexicalCast Real) (split : Bytes → List Bytes) where
  -- A path of names leads from object to object: of an object it gives what its first name has
  -- there, and from that on each name has to be there and to be an object, or a `runtime_error` is
  -- thrown. Where the first name is missing the pointer is NULL, which is not defined.
  pub get_path-dotted :
      (o : Object Real) (k : Bytes) (ks : List Bytes)
      → k ≢ []
      → IsName k
      → All IsName ks
      → get_path cast split (object o) (dotted k ks) ≡ some (by_names (object o) k ks)
  unfolding get_path
  get_path-dotted o k ks full h hs = elim (Option-cases (find_key o k)) [
    | inl missing ↦
        rw (get_path, get_place-missing cast split o k ks full h hs missing, missing)
          (ap some (null_value cast split ks))
    | inr ((i, w), found) ↦
        rw (get_path, get_place-found cast split o k ks i w full h hs found, found)
          (ap some (place_value cast split (names_from w ks) (i ∷ positions w ks)))
  ]

  -- Further names lead to what is written at their place, if it is an object.
  names_from-change_at :
      (ks : List Bytes) (w u : Value Real) (new : Object Real)
      → names_from w ks ≡ ok u
      → is_object u ≡ true
      → is_object w ≡ true
      → (names_from (change_at (positions w ks) (object new) w) ks ≡ ok (object new))
        × (is_object (change_at (positions w ks) (object new) w) ≡ true)
  unfolding change_at
  names_from-change_at [] w u new e hu hw = (refl, refl)
  names_from-change_at (k ∷ ks) (object o) u new e hu hw = elim (Option-cases (find_key o k)) [
    | inl missing ↦ absurd (cc (rw missing at e))
    | inr ((i, v), found) ↦ elim (Bool-cases (is_object v)) [
      | inl goes ↦
          let (later, stays) = names_from-change_at ks v u new (rw (found, goes) at e) hu goes in
          rw
            (
              found,
              find_key-change_pair o k i v (change_at (positions v ks) (object new)) found,
              stays,
            )
            (later, refl)
      | inr stops ↦ absurd (cc (rw (found, stops) at e))
    ]
  ]
  names_from-change_at (k ∷ ks) w u new e hu hw = absurd (cc (hw))

  names_from-is_object :
      (w : Value Real) (ks : List Bytes) (new : Object Real)
      → names_from w ks ≡ ok (object new)
      → is_object w ≡ true
  names_from-is_object w [] new e = let same : w ≡ object new = ground (arith, e) in rw same refl
  names_from-is_object (object o) (k ∷ ks) new e = refl
  names_from-is_object w (k ∷ ks) new e = absurd (cc e)

  -- What `setPathInt` writes into the object that a path of names leads to is what the same path
  -- leads to then: that object with every pair of that name changed.
  pub get_path-set_path_int :
      (o : Object Real) (k : Bytes) (ks : List Bytes) (var : Bytes) (n : ℤ) (new : Object Real)
      → k ≢ []
      → IsName k
      → All IsName ks
      → get_path cast split (object o) (dotted k ks) ≡ some (ok (object new))
      → (v : Value Real) × (set_path_int cast split (object o) (dotted k ks) var n ≡ some (ok v))
        × (get_path cast split v (dotted k ks) ≡ some (ok (object (set_value new var (int n)))))
  unfolding set_path_int
  get_path-set_path_int o k ks var n new full h hs e = elim (Option-cases (find_key o k)) [
    | inl missing ↦ absurd (cc (rw missing at (sym (get_path-dotted o k ks full h hs) ∙ e)))
    | inr ((i, w), found) ↦
        let reads : names_from w ks ≡ ok (object new) =
          cc (rw found at (sym (get_path-dotted o k ks full h hs) ∙ e)) in
        let changed =
          change_at (i ∷ positions w ks) (object (set_value new var (int n))) (object o) in
        (
          changed,
          rw (set_path_int, get_place-found cast split o k ks i w full h hs found, reads) refl,
          unfold change_at in
              (get_path-dotted
                  (change_pair o i
                    (change_at (positions w ks) (object (set_value new var (int n)))))
                  k ks full h hs
                ∙ rw
                    (find_key-change_pair o k i w
                      (change_at (positions w ks) (object (set_value new var (int n)))) found)
                    (ap some
                      (names_from-change_at ks w (object new) (set_value new var (int n)) reads refl
                        (names_from-is_object w ks new reads)).0)),
        )
  ]
