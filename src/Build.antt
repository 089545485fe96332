-- ===== src/Build.antt =====
-- build/MakeAnalyser.cpp: what a build has come to, from the lines of its log. Whether a line matches
-- a regular expression is the argument `matches`; the end of the list is the end of the stream.
pub mod Verdict
use skweltch.Prelude.{Bool, true, false, List, [], ◌∷◌, Bytes, if◌then◌else◌}

pub data State : Type 0 where
  start building installing testing finished : State

-- The five regular expressions.
pub data Pattern : Type 0 where
  re_building re_installing re_testing re_good re_bad : Pattern

pub record BuildStatus : Type 0 where
  pub success : Bool
  pub work_done : Bool

-- The variables of `analyse`.
pub record Analysis : Type 0 where
  pub state : State
  pub status : BuildStatus

module _ (matches : Pattern → Bytes → Bool) where
  -- `matchOne`: whether the line matches, and the state then.
  abbrev pub match_one : Bytes → Pattern → State → State → Bool × State
  match_one line re state next = if matches re line then (true, next) else (false, state)

  -- The `switch`
  pub analyse_line : Bytes → Analysis → Analysis
  analyse_line line a = elim a.state [
    | start ↦ record { state = (match_one line re_building start building).1; status = a.status }
    | building ↦ record {
      state = (match_one line re_installing building installing).1;
      status = record { success = a.status.success; work_done = true };
    }
    | installing ↦ record {
      state = (match_one line re_testing installing testing).1;
      status = a.status;
    }
    | testing ↦
        let (good, next) = match_one line re_good testing finished in
        if good
        then record {
          state = next;
          status = record { success = true; work_done = a.status.work_done };
        }
        else record { state = (match_one line re_bad next finished).1; status = a.status }
    | finished ↦ a
  ]

  -- The loop.
  pub analyse_from : List Bytes → Analysis → BuildStatus
  unfolding analyse_line
  analyse_from [] a = a.status
  analyse_from (line ∷ lines) a =
      let rest = analyse_from lines (analyse_line line a) in
      elim a.state [ finished ↦ a.status | _ ↦ rest ]

  -- `analyse`
  unfoldable pub analyse : List Bytes → BuildStatus
  unfolding analyse_from
  analyse lines =
      analyse_from lines
        (record { state = start; status = record { success = false; work_done = false } })
