-- ===== src/Ports/Joined.antt =====
-- core/Ports.cpp and machine/PipeBuilder.cpp: where the sockets of two blocks of a machine go.
use skweltch.Prelude.{
  ◌≡◌, refl, ℕ, Bool, true, List, Bytes, codes, equal, arith, ℤ, to_int, to_size,
}
use skweltch.Result.{ok, >>=-ok}
use skweltch.Json.{Value, null, str, boolean, int, real, array, Object, object, LexicalCast}
use skweltch.Json.JsonObject.{
  get_obj, get_child, get_value, get_string, get_int, int_or, has_pair, or_empty, is_object, add,
  push_back, find_obj, match_name,
}
use skweltch.Json.JsonPath.{get_path}
use skweltch.Json.JsonPath.Rounds.{IsName}
use skweltch.Pipes.{ended, minus_one, connect_pipe, bind_pipe, collect}
use skweltch.Pipes.Wiring.{
  collect-build_pipe, get_path-connection, build_pipe-connect, build_pipe-bind,
}
use skweltch.Ports.{SocketCall, bind_to, connect_to, endpoint, call_and_linger, join}

-- An `int` that is stored is read back.
to_int-to_size : (s : ℕ) → to_int (to_size (to_int s)) ≡ to_int s
to_int-to_size s = ground arith

module _ {Real : Type 0} where
  int_or-stored : (w : Value Real) → to_int (to_size (int_or w minus_one)) ≡ int_or w minus_one
  int_or-stored (int m) = to_int-to_size (to_size m)
  int_or-stored null = refl
  int_or-stored (str s) = refl
  int_or-stored (boolean x) = refl
  int_or-stored (real x) = refl
  int_or-stored (array x) = refl
  int_or-stored (object x) = refl

  get_int-stored :
      (v : Value Real) (key : Bytes) (port : ℤ)
      → get_int v key minus_one ≡ ok port
      → to_int (to_size port) ≡ port
  unfolding get_int
  get_int-stored v key port e =
      let (o, _, r) = >>=-ok (get_obj v) _ e in
      let same : int_or (get_value o key) minus_one ≡ port = ground (arith, r) in
      rw (← same) (int_or-stored (get_value o key))

  get_string-is_object :
      (v : Value Real) (key s : Bytes) → get_string v key ≡ ok s → is_object v ≡ true
  unfolding get_string
  get_string-is_object (object o) key s e = refl
  get_string-is_object v key s e = absurd (cc e)

  module _ (decimal : ℤ → Bytes) (accepts : SocketCall → Bool) where
    join-connect :
        (v : Value Real) (n node : Bytes) (port : ℤ)
        → is_object v ≡ true
        → get_value (or_empty v) n ≡ connect_pipe node port (codes "connect")
        → to_int (to_size port) ≡ port
        → join decimal accepts v n
          ≡ ok (call_and_linger decimal accepts (connect_to (endpoint decimal node port)))
    unfolding join get_child get_value get_string get_int equal add push_back
    join-connect (object o) n node port there e stored = rw (join, get_child, e, stored) refl
    join-connect v n node port there e stored = cc

    join-bind :
        (v : Value Real) (n address : Bytes) (port : ℤ)
        → is_object v ≡ true
        → get_value (or_empty v) n ≡ bind_pipe address port (codes "bind")
        → to_int (to_size port) ≡ port
        → join decimal accepts v n
          ≡ ok (call_and_linger decimal accepts (bind_to (endpoint decimal address port)))
    unfolding join get_child get_value get_string get_int equal add push_back
    join-bind (object o) n address port there e stored = rw (join, get_child, e, stored) refl
    join-bind v n address port there e stored = cc

module _ {Real : Type 0} (cast : LexicalCast Real) (split : Bytes → List Bytes)
    (config : Value Real) (decimal : ℤ → Bytes) (accepts : SocketCall → Bool) where
  -- A block `a` has a connection `n` that connects to the connection `conn` of a block `b`, which
  -- binds. Where both blocks get pipes, a program of `a` that joins `n` connects its socket to the
  -- node of `b`, and a program of `b` that joins `conn` binds its own to the address that is given
  -- there, on the same port; the linger time is set after it.
  pub join-collect :
      (a b ca cb : Object Real) (n block conn node address : Bytes) (port control_a control_b : ℤ)
      (pa pb : Value Real)
      → ended (get_path cast split (object a) (codes "connections")) ≡ ok (object ca)
      → has_pair ca n ≡ true
      → get_string (get_value ca n) (codes "mode") ≡ ok (codes "connect")
      → get_string (get_value ca n) (codes "block") ≡ ok block
      → get_string (get_value ca n) (codes "connection") ≡ ok conn
      → find_obj (match_name block) config ≡ ok (object b)
      → get_string (object b) (codes "node") ≡ ok node
      → ended (get_path cast split (object b) (codes "connections")) ≡ ok (object cb)
      → IsName conn
      → has_pair cb conn ≡ true
      → get_string (get_value cb conn) (codes "mode") ≡ ok (codes "bind")
      → get_string (get_value cb conn) (codes "address") ≡ ok address
      → get_int (get_value cb conn) (codes "port") minus_one ≡ ok port
      → collect cast split config (object a) control_a ≡ ok pa
      → is_object pa ≡ true
      → collect cast split config (object b) control_b ≡ ok pb
      → is_object pb ≡ true
      → (join decimal accepts pa n
          ≡ ok (call_and_linger decimal accepts (connect_to (endpoint decimal node port))))
        × (join decimal accepts pb conn
            ≡ ok (call_and_linger decimal accepts (bind_to (endpoint decimal address port))))
  unfolding add
  join-collect a b ca cb n block conn node address port control_a control_b pa pb cs has m bl co
        found nd cs' named has' m' ad po made there made' there' =
      let fits : is_object (get_value cb conn) ≡ true =
        get_string-is_object (get_value cb conn) (codes "mode") (codes "bind") m' in
      let path = get_path-connection cast split config b cb conn cs' named has' fits in
      let connects =
        build_pipe-connect cast split config (get_value ca n) (object b) cb block conn node port m
          bl co found refl path fits nd po in
      let binds = build_pipe-bind cast split config (get_value cb conn) address port m' ad po in
      let stored = get_int-stored (get_value cb conn) (codes "port") port po in
      let at_n =
        collect-build_pipe cast split config (object a) control_a ca pa _ n cs has made there
          connects refl in
      let at_conn =
        collect-build_pipe cast split config (object b) control_b cb pb _ conn cs' has' made' there'
          binds refl in
      (
        join-connect decimal accepts pa n node port there at_n stored,
        join-bind decimal accepts pb conn address port there' at_conn stored,
      )
