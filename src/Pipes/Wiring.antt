-- ===== src/Pipes/Wiring.antt =====
-- The pipes that are built for a connection, and where they stand among the pipes of a block.
use skweltch.Prelude.{
  ◌≡◌, refl, ap, sym, ◌∙◌, inl, inr, ℕ, true, false, some, Option-cases, List, [], ◌∷◌, ◌++◌, Bytes,
  codes, equal, Bool-cases, arith, ℤ, append-nil, suc,
}
use skweltch.Result.{Result, ok, >>=-ok}
use skweltch.Json.{Value, null, Object, end_object, pair, object, LexicalCast}
use skweltch.Json.JsonObject.{
  get_value, get_string, get_int, has_pair, or_empty, is_object, is_null, add, find_obj, match_name,
}
use skweltch.Json.JsonObject.Laws.{get_value-push_back, get_value-null}
use skweltch.Json.JsonPath.{find_key, get_path}
use skweltch.Json.JsonPath.Rounds.{IsName, dotted}
use skweltch.Json.JsonPath.Names.{get_path-dotted}
use skweltch.Pipes.{
  ended, minus_one, Built, pipe, stopped, connect_pipe, bind_pipe, connect_to, build_pipe,
  collect_from, is_above_zero, with_control, finish, collect,
}
use skweltch.Pipes.Collected.{collect_from-Has}

module _ {Real : Type 0} where
  find_key-get_value :
      (o : Object Real) (k : Bytes)
      → has_pair o k ≡ true
      → (i : ℕ) × (find_key o k ≡ some (i, get_value o k))
  unfolding has_pair get_value find_key
  find_key-get_value end_object k h = absurd (cc h)
  find_key-get_value (pair j v o) k h = elim (Bool-cases (equal k j)) [
    | inl here ↦ elim (Option-cases (find_key o k)) [
      | inl missing ↦ (0, rw (missing, here) refl)
      | inr ((i, w), found) ↦ (0, rw (found, here) refl)
    ]
    | inr past ↦
        let (i, found) = find_key-get_value o k (rw past at h) in (suc i, rw (found, past) refl)
  ]

  module _ (cast : LexicalCast Real) (split : Bytes → List Bytes) (config : Value Real) where
    -- What is returned at once is no object.
    connect_to-stopped :
        (b val : Value Real) (mode : Bytes) (v : Value Real)
        → connect_to cast split config b val mode ≡ ok (stopped v)
        → is_object v ≡ false
    unfolding connect_to
    connect_to-stopped b val mode v e = elim (Bool-cases (is_object b)) [
      | inl there ↦
          let (conn, _, r) = >>=-ok (get_string val (codes "connection")) _ (rw there at e) in
          let (c, _, r') =
            >>=-ok (ended (get_path cast split b (codes "connections." ++ conn))) _ r in
          elim (Bool-cases (is_object c)) [
            | inl found ↦
                let (node, _, s) = >>=-ok (get_string b (codes "node")) _ (rw found at r') in
                let (port, _, s') = >>=-ok (get_int c (codes "port") minus_one) _ s in
                absurd (cc s')
            | inr missing ↦
                let same : c ≡ v = ground (arith, rw missing at r') in rw (← same) missing
          ]
      | inr missing ↦ let same : b ≡ v = ground (arith, rw missing at e) in rw (← same) missing
    ]

    build_pipe-stopped :
        (val v : Value Real)
        → build_pipe cast split config val ≡ ok (stopped v)
        → is_object v ≡ false
    unfolding build_pipe
    build_pipe-stopped val v e =
        let (mode, _, r) = >>=-ok (get_string val (codes "mode")) _ e in
        elim (Bool-cases (equal mode (codes "connect"))) [
          | inl connects ↦
              let (block, _, r') = >>=-ok (get_string val (codes "block")) _ (rw connects at r) in
              let (b, _, s) = >>=-ok (find_obj (match_name block) config) _ r' in
              connect_to-stopped b val mode v s
          | inr other ↦ elim (Bool-cases (equal mode (codes "bind"))) [
            | inl binds ↦
                let (address, _, s) =
                  >>=-ok (get_string val (codes "address")) _ (rw (other, binds) at r) in
                let (port, _, s') = >>=-ok (get_int val (codes "port") minus_one) _ s in
                absurd (cc s')
            | inr neither ↦
                let same : null ≡ v = ground (arith, rw (other, neither) at r) in rw (← same) refl
          ]
        ]

    collect_from-stopped :
        (o : Object Real) (pipes v : Value Real)
        → collect_from cast split config o pipes ≡ ok (stopped v)
        → is_object v ≡ false
    unfolding collect_from
    collect_from-stopped end_object pipes v e = absurd (cc e)
    collect_from-stopped (pair n val o) pipes v e =
        let (built, made, rest) = >>=-ok (build_pipe cast split config val) _ e in
        next built made rest (λ p. collect_from-stopped o (add n p pipes) v)
      where
        next :
            (built : Built Real)
            → build_pipe cast split config val ≡ ok built
            → (let more : Result (Built Real) = elim built [
              | pipe p ↦ collect_from cast split config o (add n p pipes)
              | stopped u ↦ ok (stopped u)
            ] in
                more)
              ≡ ok (stopped v)
            → ((p : Value Real)
                → collect_from cast split config o (add n p pipes) ≡ ok (stopped v)
                → is_object v ≡ false)
            → is_object v ≡ false
        next (stopped u) made rest later =
            let same : u ≡ v = ground (arith, rest) in build_pipe-stopped val v (rw (← same) made)
        next (pipe p) made rest later = later p rest

    -- The pipe that the block `a` has for a connection of its own.
    pub collect-build_pipe :
        (a : Value Real) (control : ℤ) (ca : Object Real) (pa p : Value Real) (n : Bytes)
        → ended (get_path cast split a (codes "connections")) ≡ ok (object ca)
        → has_pair ca n ≡ true
        → collect cast split config a control ≡ ok pa
        → is_object pa ≡ true
        → build_pipe cast split config (get_value ca n) ≡ ok (pipe p)
        → is_null p ≡ false
        → get_value (or_empty pa) n ≡ p
    unfolding collect has_pair
    collect-build_pipe a control ca pa p n cs has made there builds full =
        let (built, made', final) =
          >>=-ok (collect_from cast split config ca null) _ (rw cs at made) in
        next built made' (ground (arith, final))
      where
        kept :
            (all p : Value Real)
            → get_value (or_empty all) n ≡ p
            → is_null p ≡ false
            → get_value (or_empty (with_control cast split config control all)) n ≡ p
        kept all p e full = elim (Bool-cases (has_pair (or_empty all) n)) [
          | inl old ↦ elim (Bool-cases (is_above_zero control)) [
            | inl on ↦ rw on (
                unfold add in (get_value-push_back (or_empty all) (codes "control") _ n ∙ rw old e))
            | inr off ↦ rw off e
          ]
          | inr new ↦ absurd (cc (e, full, get_value-null (or_empty all) n new))
        ]

        next :
            (built : Built Real)
            → collect_from cast split config ca null ≡ ok built
            → finish cast split config control built ≡ pa
            → get_value (or_empty pa) n ≡ p
        next (stopped v) e f = absurd (cc (f, there, collect_from-stopped ca null v e))
        next (pipe all) e f =
            let (q, built, found) =
              (collect_from-Has cast split config ca null all n e).1 refl has in
            let same : q ≡ p = ground (arith, built, builds) in
            rw (← f) (kept all p (found ∙ same) full)

    -- The value of a connection, by the path that `build_pipe` looks it up with.
    pub get_path-connection :
        (b cb : Object Real) (conn : Bytes)
        → ended (get_path cast split (object b) (codes "connections")) ≡ ok (object cb)
        → IsName conn
        → has_pair cb conn ≡ true
        → is_object (get_value cb conn) ≡ true
        → ended (get_path cast split (object b) (codes "connections." ++ conn))
          ≡ ok (get_value cb conn)
    get_path-connection b cb conn cs named has there =
        let IsName-connections : IsName (codes "connections") = search in
        let first =
          sym (
            ap ended (
              get_path-dotted cast split b (codes "connections") [] (λ e. cc e) IsName-connections
                tt))
          ∙ cs in
        let both =
          get_path-dotted cast split b (codes "connections") (conn ∷ []) (λ e. cc e)
            IsName-connections (named, tt) in
        let same : get_path cast split (object b) (codes "connections." ++ conn)
            ≡ get_path cast split (object b) (dotted (codes "connections") (conn ∷ [])) =
          rw (append-nil conn) refl in
        let (i, found) = find_key-get_value cb conn has in
        elim (Option-cases (find_key b (codes "connections"))) [
          | inl missing ↦ absurd (cc (rw missing at first))
          | inr ((j, w), here) ↦
              let w_eq : w ≡ object cb = ground (arith, rw here at first) in
              ap ended (same ∙ both) ∙ rw (here, w_eq, found, there) refl
        ]

    pub build_pipe-connect :
        (val b : Value Real) (cb : Object Real) (block conn node : Bytes) (port : ℤ)
        → get_string val (codes "mode") ≡ ok (codes "connect")
        → get_string val (codes "block") ≡ ok block
        → get_string val (codes "connection") ≡ ok conn
        → find_obj (match_name block) config ≡ ok b
        → is_object b ≡ true
        → ended (get_path cast split b (codes "connections." ++ conn)) ≡ ok (get_value cb conn)
        → is_object (get_value cb conn) ≡ true
        → get_string b (codes "node") ≡ ok node
        → get_int (get_value cb conn) (codes "port") minus_one ≡ ok port
        → build_pipe cast split config val ≡ ok (pipe (connect_pipe node port (codes "connect")))
    unfolding build_pipe connect_to equal
    build_pipe-connect val b cb block conn node port m bl co f ob path oc nd po =
        rw (build_pipe, connect_to, m, bl, f, ob, co, path, oc, nd, po) refl

    pub build_pipe-bind :
        (val : Value Real) (address : Bytes) (port : ℤ)
        → get_string val (codes "mode") ≡ ok (codes "bind")
        → get_string val (codes "address") ≡ ok address
        → get_int val (codes "port") minus_one ≡ ok port
        → build_pipe cast split config val ≡ ok (pipe (bind_pipe address port (codes "bind")))
    unfolding build_pipe equal
    build_pipe-bind val address port m ad po = rw (build_pipe, m, ad, po) refl
