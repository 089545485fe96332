-- ===== src/Pipes.antt =====
-- machine/PipeBuilder.cpp: the pipes of a block, which tell its program where to bind its sockets and
-- what to connect them to.
pub mod Collected
pub mod Wiring
use skweltch.Prelude.{
  ℕ, zero, suc, Bool, true, false, Option, none, some, ◌++◌, Bytes, codes, equal, if◌then◌else◌,
  List, ℤ, pos, negsuc,
}
use skweltch.Result.{Result, ok, threw, undefined, ◌>>=◌}
use skweltch.Json.{Value, null, str, int, object, Object, end_object, pair, LexicalCast}
use skweltch.Json.JsonObject.{get_obj, get_string, get_int, is_object, add, find_obj, match_name}
use skweltch.Json.JsonPath.{get_path}

-- A path's value, where the fuel was enough.
abbrev pub ended : {A : Type 0} → Option (Result A) → Result A
ended none = undefined
ended (some r) = r

abbrev pub minus_one : ℤ
minus_one = negsuc 0

-- What is made of a connection: its pipe, or what `collect` returns at once.
pub data Built (Real : Type 0) : Type 0 where
  pipe : Value Real → Built Real
  stopped : Value Real → Built Real

abbrev pub is_above_zero : ℤ → Bool
is_above_zero (pos zero) = false
is_above_zero (pos (suc n)) = true
is_above_zero (negsuc n) = false

module _ {Real : Type 0} where
  -- The pipe to a block's connection, and the pipe that is bound.
  abbrev pub connect_pipe : Bytes → ℤ → Bytes → Value Real
  connect_pipe node port mode =
      add (codes "mode") (str mode)
        (add (codes "port") (int port) (add (codes "node") (str node) null))

  abbrev pub bind_pipe : Bytes → ℤ → Bytes → Value Real
  bind_pipe address port mode =
      add (codes "mode") (str mode)
        (add (codes "port") (int port) (add (codes "address") (str address) null))

  module _ (cast : LexicalCast Real) (split : Bytes → List Bytes) (config : Value Real) where
    -- `if (mode == "connect") …`, from the other block on.
    unfoldable pub connect_to : Value Real → Value Real → Bytes → Result (Built Real)
    connect_to b val mode =
        if is_object b
        then (do
          conn ← get_string val (codes "connection")
          c ← ended (get_path cast split b (codes "connections." ++ conn))
          if is_object c
              then (do
                node ← get_string b (codes "node")
                port ← get_int c (codes "port") minus_one
                ok (pipe (connect_pipe node port mode)))
              else ok (stopped c))
        else ok (stopped b)

    unfoldable pub build_pipe : Value Real → Result (Built Real)
    unfolding connect_to
    build_pipe val = do
      mode ← get_string val (codes "mode")
      if equal mode (codes "connect")
          then (do
            block ← get_string val (codes "block")
            b ← find_obj (match_name block) config
            connect_to b val mode)
          else if equal mode (codes "bind")
          then (do
            address ← get_string val (codes "address")
            port ← get_int val (codes "port") minus_one
            ok (pipe (bind_pipe address port mode)))
          else ok (stopped null)

    -- The loop over the connections, from the pipes that there are.
    unfoldable pub collect_from : Object Real → Value Real → Result (Built Real)
    unfolding build_pipe
    collect_from end_object pipes = ok (pipe pipes)
    collect_from (pair name val o) pipes = build_pipe val >>= λ built. elim built [
      | pipe p ↦ collect_from o (add name p pipes)
      | stopped v ↦ ok (stopped v)
    ]

    -- The control pipe, after the others.
    abbrev pub with_control : ℤ → Value Real → Value Real
    with_control control pipes =
        if is_above_zero control
        then add (codes "control")
            (add (codes "port") (int control) (
              add (codes "node") (str (codes "localhost"))
                (add (codes "mode") (str (codes "connect")) null)))
            pipes
        else pipes

    abbrev pub finish : ℤ → Built Real → Value Real
    finish control (pipe pipes) = with_control control pipes
    finish control (stopped v) = v

    -- `collect`
    unfoldable pub collect : Value Real → ℤ → Result (Value Real)
    unfolding collect_from
    collect block control = do
      connections ← ended (get_path cast split block (codes "connections"))
      o ← get_obj connections
      built ← collect_from o null
      ok (finish control built)
