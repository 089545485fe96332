-- ===== src/Programs/Started.antt =====
-- A program whose loop starts has joined all its sockets, and one that does not start says so.
use skweltch.Prelude.{
  ◌≡◌, refl, Bool, true, false, Option, none, some, List, [], ◌∷◌, ◌++◌, Bytes, codes,
  if◌then◌else◌, ℤ, pos, inl, inr, ◌∙◌, Option-cases, sym,
}
use skweltch.Result.{Result, ok, threw, undefined, runtime_error}
use skweltch.Json.{Value}
use skweltch.Ports.{SocketCall, join}
use skweltch.Programs.{
  Reached, Reached-cases, exit_code, goes, exits, fails, unknown, Launch, ◌>>=◌, ◌>>◌, quiet,
  setting, or_exit, subscribe, after_join, join_pipe, Options,
}
use skweltch.Programs.Mains.{
  join_three, run_workcharcount, run_workcharfreq, run_worksleep, run_workxpath, run_sinkavg,
  run_sinkcharfreq, run_sinkstrings, run_sinkelapsed, run_ventrandomnum, run_ventwords, run_ventxml,
  do_work, run_workbash, run_sinkbuild, run_polldir, run_pollgit, run_pipecount, run_pipedump,
}
use skweltch.Programs.Dispatch.{
  Program, workcharcount, workcharfreq, worksleep, workxpath, sinkavg, sinkcharfreq, sinkstrings,
  sinkelapsed, ventrandomnum, ventwords, ventxml, workbash, sinkbuild, polldir, pollgit, pipecount,
  pipedump, run_program, set_up, main,
}
use skweltch.Programs.Joins.{Plan, joins, subscribes, plan_of, Done, Done-append}

module _ {Real : Type 0} (decimal : ℤ → Bytes) (accepts : SocketCall → Bool)
    (pipes : Value Real) where
  -- A part that goes on has done its plan, and one that leaves `main` returns 1.
  record Does {A : Type 0} (m : Launch A) (plan : List Plan) : Type 0 where
    whole : (a : A) → m.out ≡ goes a → Done decimal accepts pipes plan m.steps
    early : (c : ℤ) → m.out ≡ exits c → c ≡ pos 1

  Does-bind :
      {A B : Type 0} {m : Launch A} {next : A → Launch B} {p q : List Plan}
      → Does m p
      → ((a : A) → Does (next a) q)
      → Does (m >>= next) (p ++ q)
  unfolding ◌>>=◌
  Does-bind {A} {B} {m} {next} {p} {q} h k = record {
    whole = λ b e. elim (Reached-cases m.out) [
      | inl (a, f) ↦ rw f (
          Done-append decimal accepts pipes p q m.steps (next a).steps (h.whole a f)
            ((k a).whole b (rw f at e)))
      | inr (inl (c, f)) ↦ let w : ◌≡◌ {A = Reached B} (exits c) (goes b) = rw f at e in cc
      | inr (inr (inl (x, f))) ↦ let w : ◌≡◌ {A = Reached B} (fails x) (goes b) = rw f at e in cc
      | inr (inr (inr f)) ↦ let w : ◌≡◌ {A = Reached B} unknown (goes b) = rw f at e in cc
    ];
    early = λ c e. elim (Reached-cases m.out) [
      | inl (a, f) ↦ (k a).early c (rw f at e)
      | inr (inl (d, f)) ↦
          let w : ◌≡◌ {A = Reached B} (exits d) (exits c) = rw f at e in
          sym (exit_code w) ∙ h.early d f
      | inr (inr (inl (x, f))) ↦ let w : ◌≡◌ {A = Reached B} (fails x) (exits c) = rw f at e in cc
      | inr (inr (inr f)) ↦ let w : ◌≡◌ {A = Reached B} unknown (exits c) = rw f at e in cc
    ];
  }

  join_pipe-Does : (name : Bytes) → Does (join_pipe decimal accepts pipes name) (joins name ∷ [])
  unfolding join_pipe
  join_pipe-Does name = by_case (join decimal accepts pipes name) refl
    where
      by_case :
          (r : Result (List SocketCall × Bool))
          → join decimal accepts pipes name ≡ r
          → Does (after_join name r) (joins name ∷ [])
      by_case (ok (calls, true)) e = record { whole = λ a f. (refl, e, tt); early = λ c f. cc }
      by_case (ok (calls, false)) e = record { whole = λ a f. cc; early = λ c f. exit_code (sym f) }
      by_case (threw x) e = record { whole = λ a f. cc; early = λ c f. cc }
      by_case undefined e = record { whole = λ a f. cc; early = λ c f. cc }

  subscribe-Does : Does subscribe (subscribes ∷ [])
  unfolding subscribe
  subscribe-Does = record { whole = λ a f. tt; early = λ c f. cc }

  setting-Does : {A : Type 0} (r : Result A) → Does (setting r) []
  setting-Does (ok a) = record { whole = λ b f. tt; early = λ c f. cc }
  setting-Does (threw e) = record { whole = λ b f. tt; early = λ c f. cc }
  setting-Does undefined = record { whole = λ b f. tt; early = λ c f. cc }

  or_exit-Does : {A : Type 0} (o : Option A) → Does (or_exit o) []
  or_exit-Does (some a) = record { whole = λ b f. tt; early = λ c f. cc }
  or_exit-Does none = record { whole = λ b f. tt; early = λ c f. exit_code (sym f) }

  goes-Does : {A : Type 0} (a : A) → Does (quiet (goes a)) []
  goes-Does a = record { whole = λ b f. tt; early = λ c f. cc }

  entered-Does : (b : Bool) → Does (quiet (if b then goes tt else fails runtime_error)) []
  entered-Does true = record { whole = λ b f. tt; early = λ c f. cc }
  entered-Does false = record { whole = λ b f. tt; early = λ c f. cc }

  reads :
      {A B : Type 0} {next : A → Launch B} {q : List Plan} (r : Result A)
      → ((a : A) → Does (next a) q)
      → Does (setting r >>= next) q
  reads r k = Does-bind (setting-Does r) k

  join_three-Does :
      (first last : Bytes)
      → Does
          (join_three decimal accepts pipes first last)
          (joins first ∷ joins (codes "control") ∷ subscribes ∷ joins last ∷ [])
  join_three-Does first last = Does-bind (join_pipe-Does first) λ a.
      Does-bind (join_pipe-Does (codes "control"))
        λ a. Does-bind subscribe-Does λ a. join_pipe-Does last

  joins_then :
      {first last : Bytes} {m : Launch ℤ}
      → Does m []
      → Does
          (join_three decimal accepts pipes first last >> m)
          (joins first ∷ joins (codes "control") ∷ subscribes ∷ joins last ∷ [])
  joins_then {first} {last} k = Does-bind (join_three-Does first last) λ a. k

  run_program-Does :
      (p : Program) (root : Value Real)
      → Does (run_program decimal accepts p pipes root) (plan_of p)
  unfolding run_program run_workcharcount run_workcharfreq run_worksleep run_workxpath run_sinkavg
      run_sinkcharfreq run_sinkstrings run_sinkelapsed run_ventrandomnum run_ventwords run_ventxml
      do_work run_workbash run_sinkbuild run_polldir run_pollgit run_pipecount run_pipedump
  run_program-Does workcharcount root = joins_then (goes-Does _)
  run_program-Does workcharfreq root = joins_then (goes-Does _)
  run_program-Does worksleep root = joins_then (goes-Does _)
  run_program-Does workxpath root = joins_then (reads _ λ a. goes-Does _)
  run_program-Does (sinkavg done) root = joins_then (goes-Does _)
  run_program-Does (sinkcharfreq done) root = joins_then (goes-Does _)
  run_program-Does (sinkstrings done) root = joins_then (goes-Does _)
  run_program-Does (sinkelapsed done) root = joins_then (goes-Does _)
  run_program-Does (ventrandomnum process) root =
      reads _ λ low. reads _ λ high. joins_then (reads _ λ count. reads _ λ s. goes-Does _)
  run_program-Does (ventwords open_file process) root =
      reads _ λ name. joins_then (Does-bind (or_exit-Does _) λ f. goes-Does _)
  run_program-Does (ventxml open_file process) root = reads _ λ name.
      Does-bind (or_exit-Does _)
        λ f. joins_then (reads _ λ s. reads _ λ e. reads _ λ x. goes-Does _)
  run_program-Does (workbash enter) root = Does-bind (join_pipe-Does _) λ a.
      Does-bind (join_pipe-Does _) λ a. Does-bind (join_pipe-Does _) λ a. reads _ λ dir.
        Does-bind (entered-Does (enter dir))
          λ a. reads _ λ cmd. reads _ λ log. reads _ λ s. goes-Does _
  run_program-Does sinkbuild root =
      Does-bind (join_pipe-Does _) λ a. Does-bind (join_pipe-Does _) λ a. goes-Does _
  run_program-Does (polldir get_crc process) root =
      Does-bind (join_pipe-Does _) λ a. reads _ λ dir. reads _ λ s. reads _ λ crc. goes-Does _
  run_program-Does (pollgit process) root =
      Does-bind (join_pipe-Does _) λ a. reads _ λ f. reads _ λ r. reads _ λ s. goes-Does _
  run_program-Does pipecount root = reads _ λ n.
      Does-bind (join_pipe-Does _)
        λ a. Does-bind (join_pipe-Does _) λ a. Does-bind (join_pipe-Does _) λ a. goes-Does _
  run_program-Does pipedump root = reads _ λ n.
      Does-bind (join_pipe-Does _)
        λ a. Does-bind (join_pipe-Does _) λ a. Does-bind (join_pipe-Does _) λ a. goes-Does _

module _ {Real : Type 0} (decimal : ℤ → Bytes) (accepts : SocketCall → Bool)
    (parse : List Bytes → Options) (read : Bytes → Option (Value Real)) where
  -- When the loop of a program has run, its texts were read, and by then each socket that the program
  -- has, and no other, had joined the pipe of its name by the calls of `join`, in the order of its
  -- plan, with the subscription, where there is one, right after the control socket.
  pub main-Done :
      (p : Program) (args : List Bytes) (code : ℤ)
      → (main parse read decimal accepts p args).out ≡ goes code
      → (pipes : Value Real) × (root : Value Real) × (set_up parse read p args ≡ some (pipes, root))
        × Done decimal accepts pipes (plan_of p) (main parse read decimal accepts p args).steps
  unfolding main ◌>>=◌
  main-Done p args code h = elim (Option-cases (set_up parse read p args)) [
    | inl e ↦ let w : ◌≡◌ {A = Reached ℤ} (exits (pos 1)) (goes code) = rw (main, e) at h in cc
    | inr ((pipes, root), e) ↦ (
      pipes,
      root,
      e,
      rw (main, e) ((run_program-Does decimal accepts pipes p root).whole code (rw (main, e) at h)),
    )
  ]

  -- A program that leaves `main` before its loop, for its arguments, a text, a file or a socket that
  -- does not join, returns 1.
  pub main-exits :
      (p : Program) (args : List Bytes) (code : ℤ)
      → (main parse read decimal accepts p args).out ≡ exits code
      → code ≡ pos 1
  unfolding main ◌>>=◌
  main-exits p args code h = elim (Option-cases (set_up parse read p args)) [
    | inl e ↦
        let w : ◌≡◌ {A = Reached ℤ} (exits (pos 1)) (exits code) = rw (main, e) at h in
        sym (exit_code w)
    | inr ((pipes, root), e) ↦
        (run_program-Does decimal accepts pipes p root).early code (rw (main, e) at h)
  ]
