-- ===== src/Blocks/Mock.antt =====
-- util/mockblock.cpp and listen.cpp: programs that listen in the place of a block. How a stream writes
-- an `int` is `decimal`, and which calls of a socket throw nothing is `accepts`.
use skweltch.Prelude.{
  Bool, true, false, Option, none, some, List, [], ◌∷◌, Bytes, codes, equal, ℤ, negsuc,
  if◌then◌else◌,
}
use skweltch.Result.{Result, ok, threw, other_error, ◌>>=◌}
use skweltch.Json.{Value, Array, end_array, item, LexicalCast, Object, end_object, pair}
use skweltch.Json.JsonObject.{get_obj, get_string, get_int, get_array}
use skweltch.Pipes.{collect}
use skweltch.Ports.{SocketCall, bind_to, connect_to, endpoint}

module _ {Real : Type 0} (decimal : ℤ → Bytes) (accepts : SocketCall → Bool) where
  -- The call of the socket for a pipe, `none` for a bad mode.
  unfoldable pub mock_call : Value Real → Result (Option SocketCall)
  mock_call val = do
    mode ← get_string val (codes "mode")
    port ← get_int val (codes "port") (negsuc 0)
    if equal mode (codes "bind")
        then (do
          address ← get_string val (codes "address")
          ok (some (bind_to (endpoint decimal address port))))
        else if equal mode (codes "connect")
        then (do
          node ← get_string val (codes "node")
          ok (some (connect_to (endpoint decimal node port))))
        else ok none

  -- The loop over the pipes, up to the first of a bad mode, where `main` returns 1, or to one whose
  -- call throws.
  unfoldable pub mock_sockets : Object Real → Result (Option (List (Bytes × SocketCall)))
  unfolding mock_call
  mock_sockets end_object = ok (some [])
  mock_sockets (pair name val rest) = mock_call val >>= λ c. elim c [
    | none ↦ ok none
    | some call ↦ elim (accepts call) [
      | false ↦ threw other_error
      | true ↦ mock_sockets rest >>= λ more. elim more [
        | none ↦ ok none
        | some calls ↦ ok (some ((name, call) ∷ calls))
      ]
    ]
  ]

  -- `main`, behind its arguments: the sockets in the place of the first block of the name, of which
  -- there is none where nothing has the name.
  module _ (cast : LexicalCast Real) (split : Bytes → List Bytes) where
    unfoldable pub mock_first :
        Value Real → ℤ → Bytes → Array Real → Result (Option (List (Bytes × SocketCall)))
    unfolding mock_sockets
    mock_first config control block end_array = ok (some [])
    mock_first config control block (item obj rest) = do
      name ← get_string obj (codes "name")
      elim (equal name block) [
        | true ↦ do pipes ← collect cast split config obj control; o ← get_obj pipes; mock_sockets o
        | false ↦ mock_first config control block rest
      ]

    unfoldable pub mock_block : Value Real → ℤ → Bytes → Result (Option (List (Bytes × SocketCall)))
    unfolding mock_first
    mock_block config control block = do
      blocks ← get_array config (codes "blocks")
      mock_first config control block blocks

-- listen.cpp with its two arguments: the call of its socket; `none` is a socket that is on no port.
unfoldable pub listen_call : Bytes → Bytes → Option SocketCall
listen_call how port =
    if equal how (codes "bind")
    then some (bind_to port)
    else if equal how (codes "connect")
    then some (connect_to port)
    else none
