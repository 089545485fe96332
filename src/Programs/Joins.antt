-- ===== src/Programs/Joins.antt =====
-- The sockets that a program has joined when its loop starts.
use skweltch.Prelude.{◌≡◌, Bool, true, List, [], ◌∷◌, ◌++◌, Bytes, codes, ℤ}
use skweltch.Result.{ok}
use skweltch.Json.{Value}
use skweltch.Ports.{SocketCall, join}
use skweltch.Programs.{Step, joined, subscribed}
use skweltch.Programs.Dispatch.{
  Program, workcharcount, workcharfreq, worksleep, workxpath, sinkavg, sinkcharfreq, sinkstrings,
  sinkelapsed, ventrandomnum, ventwords, ventxml, workbash, sinkbuild, polldir, pollgit, pipecount,
  pipedump,
}

-- What a program is to do with its sockets, in order.
pub data Plan : Type 0 where
  joins : Bytes → Plan
  subscribes : Plan

abbrev pub work_plan : List Plan
work_plan =
    joins (codes "pullFrom") ∷ joins (codes "control") ∷ subscribes ∷ joins (codes "pushTo") ∷ []

abbrev pub sink_plan : List Plan
sink_plan =
    joins (codes "pullFrom") ∷ joins (codes "control") ∷ subscribes ∷ joins (codes "resultsTo") ∷ []

abbrev pub vent_plan : List Plan
vent_plan =
    joins (codes "pushTo") ∷ joins (codes "control") ∷ subscribes ∷ joins (codes "syncTo") ∷ []

abbrev pub pipe_plan : List Plan
pipe_plan = joins (codes "pipeFrom") ∷ joins (codes "control") ∷ joins (codes "pipeTo") ∷ []

-- The programs for builds, and the two on a pipe, do not subscribe to what the control socket gets.
abbrev pub plan_of : Program → List Plan
plan_of workcharcount = work_plan
plan_of workcharfreq = work_plan
plan_of worksleep = work_plan
plan_of workxpath = work_plan
plan_of (sinkavg done) = sink_plan
plan_of (sinkcharfreq done) = sink_plan
plan_of (sinkstrings done) = sink_plan
plan_of (sinkelapsed done) = sink_plan
plan_of (ventrandomnum process) = vent_plan
plan_of (ventwords open_file process) = vent_plan
plan_of (ventxml open_file process) = vent_plan
plan_of (workbash enter) =
    joins (codes "pullFrom") ∷ joins (codes "control") ∷ joins (codes "pushTo") ∷ []
plan_of sinkbuild = joins (codes "pullFrom") ∷ joins (codes "control") ∷ []
plan_of (polldir get_crc process) = joins (codes "pushTo") ∷ []
plan_of (pollgit process) = joins (codes "pushTo") ∷ []
plan_of pipecount = pipe_plan
plan_of pipedump = pipe_plan

module _ {Real : Type 0} (decimal : ℤ → Bytes) (accepts : SocketCall → Bool)
    (pipes : Value Real) where
  -- Each socket has joined the pipe of its name, by the calls that `join` makes.
  abbrev pub Done : List Plan → List Step → Type 0
  Done [] [] = Unit
  Done (joins name ∷ plan) (joined other calls ∷ steps) =
      (other ≡ name) × (join decimal accepts pipes name ≡ ok (calls, true)) × Done plan steps
  Done (subscribes ∷ plan) (subscribed ∷ steps) = Done plan steps
  Done _ _ = ⊥

  pub Done-append :
      (p q : List Plan) (s t : List Step) → Done p s → Done q t → Done (p ++ q) (s ++ t)
  Done-append [] q [] t h k = k
  Done-append (joins n ∷ p) q (joined m c ∷ s) t (e, f, h) k = (e, f, Done-append p q s t h k)
  Done-append (subscribes ∷ p) q (subscribed ∷ s) t h k = Done-append p q s t h k
  Done-append [] q (x ∷ s) t h k = absurd h
  Done-append (joins n ∷ p) q [] t h k = absurd h
  Done-append (joins n ∷ p) q (subscribed ∷ s) t h k = absurd h
  Done-append (subscribes ∷ p) q [] t h k = absurd h
  Done-append (subscribes ∷ p) q (joined m c ∷ s) t h k = absurd h
