-- ===== src/Http/Server.antt =====
-- ui/server.cpp and ui/connection_manager.cpp: the web server between its accepts. A connection is the
-- number of the accept that it waits for; its sockets and what asio does with them are left out, and
-- the handlers that it calls are the events.
pub mod Stopped
use skweltch.Prelude.{ℕ, ◌+◌, Bool, true, false, ◌||◌, List, [], ◌∷◌, ◌++◌, ◌==◌, if◌then◌else◌}
use skweltch.Http.Connection.{ErrorCode, success, operation_aborted, other_error}

abbrev pub among : ℕ → List ℕ → Bool
among c [] = false
among c (d ∷ ds) = c == d || among c ds

-- `std::set`, of which the order makes no difference here.
abbrev pub insert : ℕ → List ℕ → List ℕ
insert c ds = if among c ds then ds else c ∷ ds

unfoldable pub erase : ℕ → List ℕ → List ℕ
erase c [] = []
erase c (d ∷ ds) = let rest = erase c ds in if c == d then rest else d ∷ rest

-- `acceptor_`, `connections_` and `new_connection_`, and which connections `start` and `stop` have been
-- called of.
pub record WebServer : Type 0 where
  pub is_open : Bool
  pub connections : List ℕ
  pub new_connection : ℕ
  pub started : List ℕ
  pub shut : List ℕ

-- `connection_manager::start`, `stop` and `stop_all`
unfoldable pub start_connection : ℕ → WebServer → WebServer
start_connection c s = record s { connections = insert c s.connections; started = c ∷ s.started }

unfoldable pub stop_connection : ℕ → WebServer → WebServer
unfolding erase
stop_connection c s = record s { connections = erase c s.connections; shut = c ∷ s.shut }

unfoldable pub stop_all : WebServer → WebServer
stop_all s = record s { connections = []; shut = s.connections ++ s.shut }

-- `start_accept`
unfoldable pub start_accept : WebServer → WebServer
start_accept s = record s { new_connection = s.new_connection + 1 }

unfoldable pub if_success : ErrorCode → WebServer → WebServer
unfolding start_connection
if_success success s = start_connection s.new_connection s
if_success operation_aborted s = s
if_success other_error s = s

-- `handle_accept`
unfoldable pub handle_accept : ErrorCode → WebServer → WebServer
unfolding if_success start_accept
handle_accept e s = if s.is_open then start_accept (if_success e s) else s

-- `handle_stop`
unfoldable pub handle_stop : WebServer → WebServer
unfolding stop_all
handle_stop s = stop_all (record s { is_open = false })

-- The constructor, once the acceptor listens.
unfoldable pub new_web_server : WebServer
unfolding start_accept
new_web_server =
    start_accept
      (record { is_open = true; connections = []; new_connection = 0; started = []; shut = [] })

-- An accept that completes, a signal, and a connection that is through with its reply or its errors.
pub data WebEvent : Type 0 where
  accepts : ErrorCode → WebEvent
  signals : WebEvent
  finishes : ℕ → WebEvent

unfoldable pub on_event : WebEvent → WebServer → WebServer
unfolding handle_accept handle_stop stop_connection
on_event (accepts e) s = handle_accept e s
on_event signals s = handle_stop s
on_event (finishes c) s = stop_connection c s

-- `run`
unfoldable pub on_events : List WebEvent → WebServer → WebServer
unfolding on_event
on_events [] s = s
on_events (e ∷ es) s = on_events es (on_event e s)
