-- ===== src/Pipes/Collected.antt =====
-- Which pipe `collect` gives for the connection of a name.
use skweltch.Prelude.{
  ◌≡◌, refl, ◌∙◌, inl, inr, true, false, List, Bytes, equal, equal_sym, Bool-cases, arith,
}
use skweltch.Result.{Result, ok, >>=-ok}
use skweltch.Json.{Value, Object, end_object, pair, LexicalCast}
use skweltch.Json.JsonObject.{get_value, has_pair, or_empty, add}
use skweltch.Json.JsonObject.Laws.{get_value-push_back, has_pair-push_back}
use skweltch.Pipes.{Built, pipe, stopped, build_pipe, collect_from}

module _ {Real : Type 0} (cast : LexicalCast Real) (split : Bytes → List Bytes)
    (config : Value Real) where
  -- What the pipes `all` have for a name, from the pipes and the connections before.
  abbrev pub Has : Object Real → Value Real → Value Real → Bytes → Type 0
  Has o pipes all name =
      (has_pair (or_empty pipes) name ≡ true
        → get_value (or_empty all) name ≡ get_value (or_empty pipes) name)
      × (has_pair (or_empty pipes) name ≡ false
          → has_pair o name ≡ true
          → (p : Value Real) × (build_pipe cast split config (get_value o name) ≡ ok (pipe p))
            × (get_value (or_empty all) name ≡ p))

  Has-pair :
      (n : Bytes) (val p : Value Real) (o : Object Real) (pipes all : Value Real) (name : Bytes)
      → build_pipe cast split config val ≡ ok (pipe p)
      → Has o (add n p pipes) all name
      → Has (pair n val o) pipes all name
  unfolding has_pair get_value add
  Has-pair n val p o pipes all name made (old, new) =
      let was = has_pair-push_back (or_empty pipes) n p name in
      let gets = get_value-push_back (or_empty pipes) n p name in
      (
        λ there. old (rw (was, there) refl) ∙ rw (gets, there) refl,
        λ missing has. elim (Bool-cases (equal name n)) [
          | inl here ↦ (
            p,
            rw here made,
            old (rw (was, missing, here) refl) ∙ rw (gets, missing, equal_sym n name, here) refl,
          )
          | inr past ↦ rw past (new (rw (was, missing, past) refl) (rw past at has))
        ],
      )

  -- The pipes that there are stay, and a connection of a new name gets the pipe that is built for it.
  pub collect_from-Has :
      (o : Object Real) (pipes all : Value Real) (name : Bytes)
      → collect_from cast split config o pipes ≡ ok (pipe all)
      → Has o pipes all name
  unfolding collect_from has_pair
  collect_from-Has end_object pipes all name e =
      let same : pipes ≡ all = ground (arith, e) in (λ h. rw same refl, λ h k. absurd (cc k))
  collect_from-Has (pair n val o) pipes all name e =
      let (built, made, rest) = >>=-ok (build_pipe cast split config val) _ e in
      next built made rest (λ p. collect_from-Has o (add n p pipes) all name)
    where
      next :
          (built : Built Real)
          → build_pipe cast split config val ≡ ok built
          → (let more : Result (Built Real) = elim built [
            | pipe p ↦ collect_from cast split config o (add n p pipes)
            | stopped v ↦ ok (stopped v)
          ] in
              more)
            ≡ ok (pipe all)
          → ((p : Value Real)
              → collect_from cast split config o (add n p pipes) ≡ ok (pipe all)
              → Has o (add n p pipes) all name)
          → Has (pair n val o) pipes all name
      next (stopped v) made rest later = absurd (cc rest)
      next (pipe p) made rest later = Has-pair n val p o pipes all name made (later p rest)
