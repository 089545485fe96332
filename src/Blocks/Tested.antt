-- ===== src/Blocks/Tested.antt =====
-- What blockinfo, mockblock, listen and the programs themselves make of the pipes of a block.
use mathlib.Core.Path.{subst}
use skweltch.Prelude.{
  ◌≡◌, refl, sym, ap, ◌∙◌, Bool, true, false, Option, none, some, List, [], ◌∷◌, ◌++◌, Bytes, codes,
  equal, equal_self, equal_iff, ◌⊎◌, ℤ, negsuc, append_assoc, Bool-cases, Option-cases, inl, inr,
}
use skweltch.Result.{Result, ok, threw, undefined, other_error, same_ok, >>=-ok, ◌>>=◌}
use skweltch.Json.{Value, Object, end_object, pair, object}
use skweltch.Json.JsonObject.{get_string, get_int, get_child, get_value}
use skweltch.Stream.{Writing, put, got}
use skweltch.Stream as Stream
use skweltch.Ports.{SocketCall, bind_to, connect_to, set_linger, endpoint, join, call_and_linger}
use skweltch.Blocks.{write_host, write_listen, write_listens}
use skweltch.Blocks.Mock.{mock_call, mock_sockets, listen_call}

-- The two words behind `./listen` for a call.
abbrev pub words_of : SocketCall → Bytes × Bytes
words_of (bind_to e) = (codes "bind", e)
words_of (connect_to e) = (codes "connect", e)
words_of set_linger = ([], [])

abbrev pub line_of : SocketCall → Bytes
line_of c = codes "./listen " ++ ((words_of c).0 ++ (b' ' ∷ ((words_of c).1 ++ codes "\n")))

abbrev some_or : {A : Type 0} → A → Option A → A
some_or a none = a
some_or a (some b) = b

same_some : {A : Type 0} {a b : A} → some a ≡ some b → a ≡ b
same_some {a = a} e = ap (some_or a) e

abbrev pub lines_of : List (Bytes × SocketCall) → Bytes
lines_of [] = []
lines_of ((n, c) ∷ cs) = line_of c ++ lines_of cs

-- Behind a call that goes without an exception come the calls for the other pipes.
accepted_more :
    (b : Bool) (c : SocketCall) (others : Result (Option (List (Bytes × SocketCall)))) (n : Bytes)
    (cs : List (Bytes × SocketCall))
    → ◌≡◌ {A = Result (Option (List (Bytes × SocketCall)))}
        (elim b [
          | false ↦ threw other_error
          | true ↦ others >>= λ more. elim more [
            | none ↦ ok none
            | some calls ↦ ok (some ((n, c) ∷ calls))
          ]
        ])
        (ok (some cs))
    → (calls : List (Bytes × SocketCall)) × (others ≡ ok (some calls)) × (cs ≡ (n, c) ∷ calls)
accepted_more false c others n cs h = absurd (cc h)
accepted_more true c (ok none) n cs h = absurd (cc h)
accepted_more true c (ok (some calls)) n cs h = (calls, refl, sym (same_some (same_ok h)))
accepted_more true c (threw e) n cs h = absurd (cc h)
accepted_more true c undefined n cs h = absurd (cc h)

module _ {Real : Type 0} (decimal : ℤ → Bytes) (accepts : SocketCall → Bool) where
  -- What a pipe holds for a call of the socket.
  abbrev Holds : Value Real → Bytes → Bytes → Bytes → ℤ → Type 0
  Holds v mode key host port =
      (get_string v (codes "mode") ≡ ok mode)
      × (get_int v (codes "port") (negsuc 0) ≡ ok port)
      × (get_string v key ≡ ok host)

  mock_call-Holds :
      (v : Value Real) (c : SocketCall)
      → mock_call decimal accepts v ≡ ok (some c)
      → (host : Bytes) × (port : ℤ) × ((Holds v (codes "bind") (codes "address") host port
            × (c ≡ bind_to (endpoint decimal host port)))
          ⊎ (Holds v (codes "connect") (codes "node") host port
              × (c ≡ connect_to (endpoint decimal host port))))
  unfolding mock_call
  mock_call-Holds v c h =
      let (mode, m, h1) = >>=-ok (get_string v (codes "mode")) _ h in
      let (port, p, h2) = >>=-ok (get_int v (codes "port") (negsuc 0)) _ h1 in
      elim (Bool-cases (equal mode (codes "bind"))) [
        | inl b ↦
            let (host, a, h3) = >>=-ok (get_string v (codes "address")) _ (rw b at h2) in
            (
              host,
              port,
              inl (
                (m ∙ ap ok ((equal_iff mode (codes "bind")).0 b), p, a),
                sym (same_some (same_ok h3)),
              ),
            )
        | inr nb ↦ elim (Bool-cases (equal mode (codes "connect"))) [
          | inl b ↦
              let (host, a, h3) = >>=-ok (get_string v (codes "node")) _ (rw (nb, b) at h2) in
              (
                host,
                port,
                inr (
                  (m ∙ ap ok ((equal_iff mode (codes "connect")).0 b), p, a),
                  sym (same_some (same_ok h3)),
                ),
              )
          | inr nc ↦
              let w : ◌≡◌ {A = Result (Option SocketCall)} (ok none) (ok (some c)) =
                rw (nb, nc) at h2 in
              cc
        ]
      ]

  -- One pipe: the line, the words on it, and the program of the block.
  abbrev Tested : Bytes → Value Real → SocketCall → Type 0
  Tested n v c =
      (write_listen decimal v ≡ record { text = line_of c; out = ok tt })
      × (listen_call (words_of c).0 (words_of c).1 ≡ some c)
      × (join decimal accepts (object (pair n v end_object)) n
          ≡ ok (call_and_linger decimal accepts c))

  write_listen-host :
      (v : Value Real) (mode key host : Bytes) (port : ℤ)
      → Holds v mode key host port
      → write_host decimal v mode ≡ record { text = codes " tcp://" ++ host; out = ok tt }
      → write_listen decimal v ≡ record {
        text = codes "./listen " ++ (mode ++ (b' ' ∷ (endpoint decimal host port ++ codes "\n")));
        out = ok tt;
      }
  unfolding write_listen Stream.◌>>=◌
  write_listen-host v mode key host port (m, p, a) h =
      rw
        (
          write_listen,
          Stream.◌>>=◌,
          m,
          h,
          p,
          h,
          append_assoc host (b':' ∷ decimal port) (codes "\n"),
        )
        refl

  bind-Tested :
      (n : Bytes) (o : Object Real) (host : Bytes) (port : ℤ)
      → Holds (object o) (codes "bind") (codes "address") host port
      → Tested n (object o) (bind_to (endpoint decimal host port))
  unfolding write_host listen_call join get_child get_value equal Stream.◌>>=◌
  bind-Tested n o host port (m, p, a) = (
    write_listen-host (object o) _ _ host port (m, p, a) (rw (write_host, Stream.◌>>=◌, a) refl),
    refl,
    rw (join, equal_self n, p, m, a) refl,
  )

  connect-Tested :
      (n : Bytes) (o : Object Real) (host : Bytes) (port : ℤ)
      → Holds (object o) (codes "connect") (codes "node") host port
      → Tested n (object o) (connect_to (endpoint decimal host port))
  unfolding write_host listen_call join get_child get_value equal Stream.◌>>=◌
  connect-Tested n o host port (m, p, a) = (
    write_listen-host (object o) _ _ host port (m, p, a) (rw (write_host, Stream.◌>>=◌, a) refl),
    refl,
    rw (join, equal_self n, p, m, a) refl,
  )

  mock_call-Tested :
      (n : Bytes) (v : Value Real) (c : SocketCall)
      → mock_call decimal accepts v ≡ ok (some c)
      → Tested n v c
  unfolding get_string
  mock_call-Tested n (object o) c h =
      let (host, port, either) = mock_call-Holds (object o) c h in
      elim either [
        | inl (p, e) ↦ rw e (bind-Tested n o host port p)
        | inr (p, e) ↦ rw e (connect-Tested n o host port p)
      ]
  mock_call-Tested n v c h =
      let (host, port, either) = mock_call-Holds v c h in
      elim either [ inl ((m, p, a), e) ↦ absurd (cc m) | inr ((m, p, a), e) ↦ absurd (cc m) ]

  -- For each pipe, the words of its line and the program of the block that joins it.
  abbrev pub AllTested : Object Real → List (Bytes × SocketCall) → Type 0
  AllTested end_object [] = Unit
  AllTested (pair name v rest) ((n, c) ∷ cs) =
      (name ≡ n)
      × (listen_call (words_of c).0 (words_of c).1 ≡ some c)
      × (join decimal accepts (object (pair name v end_object)) name
          ≡ ok (call_and_linger decimal accepts c))
      × AllTested rest cs
  AllTested _ _ = ⊥

  write_listens-pair :
      (n m : Bytes) (v : Value Real) (rest : Object Real) (c : SocketCall)
      (calls cs : List (Bytes × SocketCall))
      → cs ≡ (m, c) ∷ calls
      → write_listen decimal v ≡ record { text = line_of c; out = ok tt }
      → write_listens decimal rest ≡ record { text = lines_of calls; out = ok tt }
      → write_listens decimal (pair n v rest) ≡ record { text = lines_of cs; out = ok tt }
  unfolding write_listens Stream.◌>>=◌
  write_listens-pair n m v rest c calls cs k line lines =
      rw (k, write_listens, Stream.◌>>=◌, line, lines, line) refl

  -- Where mockblock opens its sockets for the pipes of a block, blockinfo writes a line for each of
  -- them, in order. The program listen with the two words on it makes the same call of its socket, and
  -- so does a program of the block that joins this pipe, if it is given to it alone.
  pub mock_sockets-AllTested :
      (o : Object Real) (cs : List (Bytes × SocketCall))
      → mock_sockets decimal accepts o ≡ ok (some cs)
      → (write_listens decimal o ≡ record { text = lines_of cs; out = ok tt }) × AllTested o cs
  unfolding mock_sockets write_listens
  mock_sockets-AllTested end_object cs h = rw (sym (same_some (same_ok h))) (refl, tt)
  mock_sockets-AllTested (pair n v rest) cs h =
      let (called, e, h1) = >>=-ok (mock_call decimal accepts v) _ h in
      elim (Option-cases called) [
        | inl f ↦
            let w : ◌≡◌ {A = Result (Option (List (Bytes × SocketCall)))} (ok none) (ok (some cs)) =
              rw f at h1 in
            cc
        | inr (c, f) ↦
            let (calls, g, k) =
              accepted_more (accepts c) c (mock_sockets decimal accepts rest) n cs (rw f at h1) in
            let (lines, all) = mock_sockets-AllTested rest calls g in
            let (line, words, joins) = mock_call-Tested n v c (e ∙ ap ok f) in
            (
              write_listens-pair n n v rest c calls cs k line lines,
              subst (AllTested (pair n v rest)) (sym k) (refl, words, joins, all),
            )
      ]
