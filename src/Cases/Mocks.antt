-- ===== src/Cases/Mocks.antt =====
-- The pipes of a block, listened to by hand.
use skweltch.Prelude.{◌≡◌, refl, true, [], ◌∷◌, codes, equal, ℕ, List, Bytes, pos}
use skweltch.Result.{ok}
use skweltch.Json.{Object, str, int, object, end_object, pair}
use skweltch.Json.JsonObject.{get_string, get_int, get_value}
use skweltch.Cases.Machines.{show_unary}
use skweltch.Ports.{SocketCall, bind_to, connect_to, endpoint}
use skweltch.Blocks.{write_listens}
use skweltch.Blocks.Mock.{mock_sockets, mock_call}
use skweltch.Blocks.Tested.{AllTested, lines_of, mock_sockets-AllTested}

-- A pipe that is bound, and one to another block.
abbrev two_pipes : Object ℕ
two_pipes =
    pair (codes "pullFrom")
      (object (
        pair (codes "address") (str (codes "*")) (
          pair (codes "port") (int (pos 5)) (pair (codes "mode") (str (codes "bind")) end_object))))
      (pair (codes "pushTo")
        (object (
          pair (codes "node") (str (codes "host")) (
            pair (codes "port") (int (pos 6))
              (pair (codes "mode") (str (codes "connect")) end_object))))
        end_object)

abbrev two_calls : List (Bytes × SocketCall)
two_calls =
    (codes "pullFrom", bind_to (endpoint show_unary (codes "*") (pos 5)))
    ∷ (codes "pushTo", connect_to (endpoint show_unary (codes "host") (pos 6)))
    ∷ []

mock_sockets-AllTested_example :
    (write_listens show_unary two_pipes ≡ record { text = lines_of two_calls; out = ok tt })
    × AllTested show_unary (λ c. true) two_pipes two_calls
unfolding equal
mock_sockets-AllTested_example =
    mock_sockets-AllTested show_unary (λ c. true) two_pipes two_calls
      (unfold mock_sockets mock_call get_string get_int get_value in refl)
