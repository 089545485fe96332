-- ===== src/Http/Server/Stopped.antt =====
-- A web server that has been signalled.
use skweltch.Prelude.{
  ℕ, ◌≡◌, refl, ap, All, ◌∙◌, Bool, true, false, ◌||◌, List, [], ◌∷◌, ◌++◌, ◌==◌, if◌then◌else◌,
  arith,
}
use skweltch.Http.Connection.{ErrorCode, success, operation_aborted, other_error}
use skweltch.Http.Server.{
  among, insert, erase, WebServer, start_connection, stop_connection, stop_all, start_accept,
  if_success, handle_accept, handle_stop, new_web_server, WebEvent, accepts, signals, finishes,
  on_event, on_events,
}

among-append : (d : ℕ) (xs ys : List ℕ) → among d (xs ++ ys) ≡ among d xs || among d ys
among-append d [] ys = refl
among-append d (x ∷ xs) ys = ground (arith, among-append d xs ys)

among-erase : (d c : ℕ) (xs : List ℕ) → among d xs ≡ true → (among d (erase c xs) || d == c) ≡ true
unfolding erase
among-erase d c [] h = cc
among-erase d c (x ∷ xs) h = ground (arith, among-erase d c xs)

among-insert :
    (d c : ℕ) (xs : List ℕ)
    → (among d xs ≡ true → among d (insert c xs) ≡ true) × (among c (insert c xs) ≡ true)
among-insert d c xs = ground arith

-- Every connection that has been started is one of the manager's or has been closed.
abbrev Kept : WebServer → Type 0
Kept s = (d : ℕ) → among d s.started ≡ true → (among d s.connections || among d s.shut) ≡ true

Kept-on_event : (e : WebEvent) (s : WebServer) → Kept s → Kept (on_event e s)
unfolding on_event handle_accept handle_stop stop_connection if_success start_connection stop_all
    start_accept
Kept-on_event (accepts success) s k d =
    ground (arith, k d, among-insert d s.new_connection s.connections)
Kept-on_event (accepts operation_aborted) s k d = ground (arith, k d)
Kept-on_event (accepts other_error) s k d = ground (arith, k d)
Kept-on_event signals s k d = ground (arith, k d, among-append d s.connections s.shut)
Kept-on_event (finishes c) s k d = ground (arith, k d, among-erase d c s.connections)

Kept-on_events : (es : List WebEvent) (s : WebServer) → Kept s → Kept (on_events es s)
unfolding on_events
Kept-on_events [] s k = k
Kept-on_events (e ∷ es) s k = Kept-on_events es (on_event e s) (Kept-on_event e s k)

Kept-new_web_server : Kept new_web_server
unfolding new_web_server start_accept
Kept-new_web_server d h = cc h

-- Once the acceptor is closed and no connection is left, that stays so, and none is started.
abbrev IsDown : WebServer → Type 0
IsDown s = (s.is_open ≡ false) × (s.connections ≡ [])

handle_accept-closed : (e : ErrorCode) (s : WebServer) → s.is_open ≡ false → handle_accept e s ≡ s
unfolding handle_accept
handle_accept-closed e s o = ap (λ (b : Bool). if b then start_accept (if_success e s) else s) o

IsDown-on_events :
    (es : List WebEvent) (s : WebServer)
    → IsDown s
    → IsDown (on_events es s) × ((on_events es s).started ≡ s.started)
unfolding on_events on_event handle_stop stop_connection stop_all erase
IsDown-on_events [] s h = (h, refl)
IsDown-on_events (accepts e ∷ es) s (o, c) =
    let same : on_events (accepts e ∷ es) s ≡ on_events es s =
      ap (on_events es) (handle_accept-closed e s o) in
    rw same (IsDown-on_events es s (o, c))
IsDown-on_events (signals ∷ es) s (o, c) = IsDown-on_events es (handle_stop s) (refl, refl)
IsDown-on_events (finishes d ∷ es) s (o, c) =
    IsDown-on_events es (stop_connection d s) (o, ap (erase d) c)

on_events-append :
    (es fs : List WebEvent) (s : WebServer) → on_events (es ++ fs) s ≡ on_events fs (on_events es s)
unfolding on_events
on_events-append [] fs s = refl
on_events-append (e ∷ es) fs s = on_events-append es fs (on_event e s)

only_closed :
    (d : ℕ) (xs ys : List ℕ) → xs ≡ [] → (among d xs || among d ys) ≡ true → among d ys ≡ true
only_closed d [] ys e h = h
only_closed d (x ∷ xs) ys e h = absurd (cc e)

All-among :
    (xs ys : List ℕ)
    → ((d : ℕ) → among d xs ≡ true → among d ys ≡ true)
    → All (λ (d : ℕ). among d ys ≡ true) xs
All-among [] ys h = tt
All-among (x ∷ xs) ys h = (h x (ground arith), All-among xs ys (λ d k. h d (ground (arith, k))))

-- Whatever a new web server among accepted before a signal and whatever comes after it, in whatever
-- order: no connection is left, every one that has been started has been closed, and none has been
-- started after the signal.
pub on_events-closed :
    (es fs : List WebEvent)
    → ((on_events (es ++ (signals ∷ fs)) new_web_server).connections ≡ [])
      × All
          (λ (d : ℕ). among d (on_events (es ++ (signals ∷ fs)) new_web_server).shut ≡ true)
          (on_events (es ++ (signals ∷ fs)) new_web_server).started
      × ((on_events (es ++ (signals ∷ fs)) new_web_server).started
          ≡ (on_events es new_web_server).started)
unfolding on_events on_event handle_stop stop_all
on_events-closed es fs =
    let before = on_events es new_web_server in
    let kept = Kept-on_events (es ++ (signals ∷ fs)) new_web_server Kept-new_web_server in
    let e = on_events-append es (signals ∷ fs) new_web_server in
    let ((o, c), same) = IsDown-on_events fs (handle_stop before) (refl, refl) in
    let none_left : (on_events (es ++ (signals ∷ fs)) new_web_server).connections ≡ [] =
      ap (λ (t : WebServer). t.connections) e ∙ c in
    (
      none_left,
      All-among _ _ (λ d h. only_closed d _ _ none_left (kept d h)),
      ap (λ (t : WebServer). t.started) e ∙ same,
    )
