-- ===== src/Machine/History.antt =====
-- Which programs of a machine are there, from what has been started and killed.
use skweltch.Prelude.{
  ℕ, ◌≡◌, refl, ap, Bool, true, false, Option, none, some, ◌||◌, Bytes, if◌then◌else◌, ◌∙◌, List,
  [], ◌∷◌, ◌++◌, ℤ, pos, ◌==ℤ◌,
}
use skweltch.Result.{Result, ok, threw, undefined}
use skweltch.Json.{Value, LexicalCast}
use skweltch.Machine.{
  Mode, idle, running, Loaded, not_found, unreadable, loaded, load_throws, Happening,
  programs_started, programs_killed, Server, Round, Outcome, goes_on, exits, breaks, quit_msg,
  new_server, killed, stop, stop_running, by_mode, then_on, concluded, MachineMsg, after_start,
  start_machine, load_and_start, vent_machine, obey, step_server, run_server,
}

-- A history in which programs are only started when none are left, and all that have been started
-- are killed together; with the programs that are left.
pub data Balanced : List Happening → List ℕ → Type 0 where
  nothing : Balanced [] []
  began : {h : List Happening} (ps : List ℕ) → Balanced h [] → Balanced (programs_started ps ∷ h) ps
  ended : {h : List Happening} {ps : List ℕ} → Balanced h ps → Balanced (programs_killed ps ∷ h) []

module _ {Real : Type 0} where
  -- The programs that are left are those whose pids the server has; an idle one has none.
  pub record Inv (s : Server Real) : Type 0 where
    pub balanced : Balanced s.history s.pids
    pub none_idle : s.mode ≡ idle → s.pids ≡ []

  -- A round in which a quit message comes.
  abbrev pub quit_round : (Bytes → Loaded Real) → (Bytes → Loaded Real) → Round Real
  quit_round query file = record {
    interrupted = false;
    received = some quit_msg;
    query = query;
    file = file;
    kill_sent = true;
  }

  new_server-Inv : Inv new_server
  new_server-Inv = record { balanced = nothing; none_idle = λ h. refl }

  killed-Inv : (s : Server Real) → Inv s → Inv (killed s)
  killed-Inv s inv = record { balanced = ended inv.balanced; none_idle = λ h. refl }

  -- What holds of the server that goes on, and what of one that has returned.
  abbrev pub Kept : Outcome Real → Type 0
  Kept (goes_on s) = Inv s
  Kept (exits n s) = Balanced s.history s.pids
  Kept (breaks s) = Balanced s.history s.pids

  by_mode-Kept :
      (m : Mode) (resting busy : Outcome Real)
      → (m ≡ idle → Kept resting)
      → Kept busy
      → Kept (by_mode m resting busy)
  by_mode-Kept idle resting busy h k = h refl
  by_mode-Kept running resting busy h k = k

  if-Kept : (b : Bool) (o p : Outcome Real) → Kept o → Kept p → Kept (if b then o else p)
  if-Kept true o p h k = h
  if-Kept false o p h k = k

  concluded-Kept :
      (r : Result Bool) (tried went : Server Real)
      → Balanced tried.history tried.pids
      → Inv went
      → Kept (concluded r tried went)
  concluded-Kept (ok true) tried went h k = k
  concluded-Kept (ok false) tried went h k = h
  concluded-Kept (threw e) tried went h k = h
  concluded-Kept undefined tried went h k = h

  then_on-Kept :
      (o : Outcome Real) (next : Server Real → Outcome Real)
      → Kept o
      → ((t : Server Real) → Inv t → Kept (next t))
      → Kept (then_on o next)
  then_on-Kept (goes_on s) next h k = k s h
  then_on-Kept (exits n s) next h k = h
  then_on-Kept (breaks s) next h k = h

  stop-Kept :
      (sent : Bool) (s : Server Real) (next : Server Real → Outcome Real)
      → Inv s
      → Kept (next (killed s))
      → Kept (stop sent s next)
  stop-Kept true s next inv h = h
  stop-Kept false s next inv h = inv.balanced

  stop_running-Kept :
      (sent : Bool) (s : Server Real) (next : Server Real → Outcome Real)
      → Inv s
      → ((t : Server Real) → Inv t → t.pids ≡ [] → Kept (next t))
      → Kept (stop_running sent s next)
  stop_running-Kept sent s next inv h =
      by_mode-Kept s.mode (next s) (stop sent s next) (λ e. h s inv (inv.none_idle e))
        (stop-Kept sent s next inv (h (killed s) (killed-Inv s inv) refl))

  module _ (writer : Value Real → Bytes) (cast : LexicalCast Real) (split : Bytes → List Bytes)
      (control : ℤ) (decimal : ℤ → Bytes) (spawn : List Bytes → Bytes → ℕ) where
    load_and_start-Kept :
        (l : Loaded Real) (s : Server Real)
        → Inv s
        → s.pids ≡ []
        → Kept (load_and_start writer cast split control decimal spawn l s)
    unfolding load_and_start start_machine after_start
    load_and_start-Kept not_found s inv none_left =
        concluded-Kept _ _ _ (began _ (rw (← none_left) inv.balanced)) (record {
          balanced = began _ (rw (← none_left) inv.balanced);
          none_idle = λ h. absurd (cc h);
        })
    load_and_start-Kept (unreadable v) s inv none_left = record {
      balanced = inv.balanced;
      none_idle = inv.none_idle;
    }
    load_and_start-Kept (loaded v) s inv none_left =
        concluded-Kept _ _ _ (began _ (rw (← none_left) inv.balanced)) (record {
          balanced = began _ (rw (← none_left) inv.balanced);
          none_idle = λ h. absurd (cc h);
        })
    load_and_start-Kept load_throws s inv none_left = inv.balanced

    vent_machine-Kept :
        (s : Server Real) → Inv s → Kept (vent_machine writer cast split control decimal spawn s)
    unfolding vent_machine
    vent_machine-Kept s inv =
        concluded-Kept _ _ _ inv.balanced
          (record { balanced = inv.balanced; none_idle = inv.none_idle })

    obey-Kept :
        (r : Round Real) (code : ℤ) (text : Bytes) (s : Server Real)
        → Inv s
        → Kept (obey writer cast split control decimal spawn r (code, text) s)
    unfolding obey
    obey-Kept r code text s inv =
        if-Kept (code ==ℤ pos 1 || code ==ℤ pos 2) _ _
          (stop_running-Kept r.kill_sent s
            (load_and_start writer cast split control decimal spawn (wanted code)) inv
            (load_and_start-Kept (wanted code)))
          (if-Kept (code ==ℤ pos 3) _ _
            (by_mode-Kept s.mode (goes_on s) _ (λ e. inv) (vent_machine-Kept s inv))
            (if-Kept (code ==ℤ pos 4) _ _
              (by_mode-Kept s.mode (goes_on s) _ (λ e. inv)
                (stop-Kept r.kill_sent s (λ t. goes_on (record t { mode = idle })) inv
                  (record { balanced = ended inv.balanced; none_idle = λ h. refl })))
              (if-Kept (code ==ℤ pos 5) _ (goes_on s)
                (stop_running-Kept r.kill_sent s (λ t. exits 0 t) inv (λ t i none_left. i.balanced))
                inv)))
      where
        wanted : ℤ → Loaded Real
        wanted c = if c ==ℤ pos 1 then r.query text else r.file text

    step_server-Kept :
        (r : Round Real) (s : Server Real)
        → Inv s
        → Kept (step_server writer cast split control decimal spawn r s)
    unfolding step_server
    step_server-Kept r s inv = if-Kept r.interrupted _ _ inv.balanced (by_message r.received)
      where
        by_message :
            (m : Option MachineMsg)
            → Kept (elim m [
              | none ↦ exits 0 s
              | some m' ↦ obey writer cast split control decimal spawn r m' s
            ])
        by_message none = inv.balanced
        by_message (some (code, text)) = obey-Kept r code text s inv

    run_server-Kept :
        (rs : List (Round Real)) (s : Server Real)
        → Inv s
        → Kept (run_server writer cast split control decimal spawn rs s)
    unfolding run_server
    run_server-Kept [] s inv = inv
    run_server-Kept (r ∷ rs) s inv =
        then_on-Kept (step_server writer cast split control decimal spawn r s)
          (λ t. run_server writer cast split control decimal spawn rs t) (step_server-Kept r s inv)
          (λ t i. run_server-Kept rs t i)

    -- Whatever comes in, a new server only starts programs when all that it has started before have
    -- been sent the kill message and waited for, together; the pids that it has, while it goes on and
    -- when it returns, are those of the programs that are left. A server that goes on and is idle has
    -- left none.
    pub run_server-Balanced :
        (rs : List (Round Real))
        → Kept (run_server writer cast split control decimal spawn rs new_server)
    run_server-Balanced rs = run_server-Kept rs new_server new_server-Inv

    run_server-append :
        (rs later : List (Round Real)) (s : Server Real)
        → run_server writer cast split control decimal spawn (rs ++ later) s
          ≡ then_on
              (run_server writer cast split control decimal spawn rs s)
              (λ t. run_server writer cast split control decimal spawn later t)
    unfolding run_server
    run_server-append [] later s = refl
    run_server-append (r ∷ rs) later s =
        through (step_server writer cast split control decimal spawn r s)
          (λ t. run_server-append rs later t)
      where
        through :
            (o : Outcome Real)
            → ((t : Server Real)
                → run_server writer cast split control decimal spawn (rs ++ later) t
                  ≡ then_on
                      (run_server writer cast split control decimal spawn rs t)
                      (λ u. run_server writer cast split control decimal spawn later u))
            → then_on o (λ t. run_server writer cast split control decimal spawn (rs ++ later) t)
              ≡ then_on
                  (then_on o (λ t. run_server writer cast split control decimal spawn rs t))
                  (λ u. run_server writer cast split control decimal spawn later u)
        through (goes_on t) h = h t
        through (exits n t) h = refl
        through (breaks t) h = refl

    quits-Balanced :
        (s : Server Real) (m : Mode)
        → (m ≡ idle → s.pids ≡ [])
        → Balanced s.history s.pids
        → (t : Server Real) × (by_mode m (exits 0 s) (exits 0 (killed s)) ≡ exits 0 t)
          × Balanced t.history []
    quits-Balanced s idle none_left balanced = (s, refl, rw (← none_left refl) balanced)
    quits-Balanced s running none_left balanced = (killed s, refl, ended balanced)

    -- A quit message ends a new server that still goes on after whatever has come in, if the control
    -- socket takes the kill message: it returns 0, without reading what comes later, and all the
    -- programs that it has started have been killed.
    pub run_server-quit :
        (rs later : List (Round Real)) (query file : Bytes → Loaded Real) (s : Server Real)
        → run_server writer cast split control decimal spawn rs new_server ≡ goes_on s
        → (t : Server Real) × (run_server writer cast split control decimal spawn
              (rs ++ (quit_round query file ∷ later))
              new_server
            ≡ exits 0 t)
          × Balanced t.history []
    unfolding run_server step_server obey
    run_server-quit rs later query file s went =
        let kept = run_server-Balanced rs in
        let inv : Inv s = rw went at kept in
        let (t, quits, balanced) = quits-Balanced s s.mode inv.none_idle inv.balanced in
        (
          t,
          run_server-append rs (quit_round query file ∷ later) new_server
              ∙ rw went (
                  ap
                    (λ (o : Outcome Real).
                      then_on o (λ u. run_server writer cast split control decimal spawn later u))
                    quits),
          balanced,
        )
