-- ===== src/Ports.antt =====
-- core/Ports.cpp: a program's socket joins the pipe of a name. The calls that are made of the socket
-- are listed; `accepts` says which of them throw nothing.
pub mod Joined
use skweltch.Prelude.{Bool, true, false, List, [], ◌∷◌, ◌++◌, Bytes, codes, equal, if◌then◌else◌, ℤ}
use skweltch.Result.{Result, ok, ◌>>=◌}
use skweltch.Json.{Value}
use skweltch.Json.JsonObject.{get_child, get_string, get_int, is_object}
use skweltch.Pipes.{minus_one}

pub data SocketCall : Type 0 where
  bind_to : Bytes → SocketCall
  connect_to : Bytes → SocketCall
  set_linger : SocketCall

-- `"tcp://" << host << ":" << port`
abbrev pub endpoint : (ℤ → Bytes) → Bytes → ℤ → Bytes
endpoint decimal host port = codes "tcp://" ++ (host ++ (b':' ∷ decimal port))

module _ (decimal : ℤ → Bytes) (accepts : SocketCall → Bool) where
  -- A call, and the setting of the linger time after it.
  abbrev pub call_and_linger : SocketCall → List SocketCall × Bool
  call_and_linger c =
      if accepts c then (c ∷ set_linger ∷ [], accepts set_linger) else (c ∷ [], false)

  -- `join`
  unfoldable pub join : {Real : Type 0} → Value Real → Bytes → Result (List SocketCall × Bool)
  join ports name = do
    p ← get_child ports name
    if is_object p
        then (do
          port ← get_int p (codes "port") minus_one
          mode ← get_string p (codes "mode")
          if equal mode (codes "bind")
              then (do
                address ← get_string p (codes "address")
                ok (call_and_linger (bind_to (endpoint decimal address port))))
              else if equal mode (codes "connect")
              then (do
                node ← get_string p (codes "node")
                ok (call_and_linger (connect_to (endpoint decimal node port))))
              else ok ([], false))
        else ok ([], true)
