-- ===== src/Msg.antt =====
-- core/Msg.hpp, core/SinkMsg.hpp and core/KillMsg.hpp: the messages between the programs of a
-- machine. How msgpack lays a message out in a `zmq::message_t` is not this repository's code: it is
-- a `Codec`, of which the programs rely on reading back what was packed.
use skweltch.Prelude.{◌≡◌, Option, some, List, [], Bytes, ℤ, pos}

-- `Msg<Type>`: the constructor from a message is `unpack` (`none` where msgpack throws), `set` is
-- `pack`.
pub record Codec (Message Type' : Type 0) : Type 0 where
  pub pack : Type' → Message
  pub unpack : Message → Option Type'
  pub unpack-pack : (d : Type') → unpack (pack d) ≡ some d

-- `msgpack::type::tuple<int, int, std::vector<std::string> >`
pub record SinkMsg : Type 0 where
  pub code : ℤ
  pub id : ℤ
  pub payload : List Bytes

-- `SinkMsg()`, and the three ways to fill it.
abbrev pub empty_msg : SinkMsg
empty_msg = record { code = pos 0; id = pos 0; payload = [] }

abbrev pub first_msg : ℤ → SinkMsg → SinkMsg
first_msg id m = record m { code = pos 1; id = id }

abbrev pub last_msg : ℤ → SinkMsg → SinkMsg
last_msg id m = record m { code = pos 3; id = id }

abbrev pub data_msg : ℤ → List Bytes → SinkMsg → SinkMsg
data_msg id d m = record m { code = pos 2; id = id; payload = d }

-- `KillMsg()`, an `int`.
abbrev pub kill_value : ℤ
kill_value = pos 0
