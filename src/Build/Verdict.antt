-- ===== src/Build/Verdict.antt =====
-- When a build is taken as one that has succeeded, and as one that did some work.
use skweltch.Prelude.{
  ◌≡◌, refl, ◌∙◌, inl, inr, Bool, true, false, Option, none, some, List, [], ◌∷◌, Bytes,
  if◌then◌else◌, Bool-cases, arith,
}
use skweltch.Build.{
  State, start, building, installing, testing, finished, Pattern, re_building, re_installing,
  re_testing, re_good, re_bad, BuildStatus, Analysis, analyse_line, analyse_from, analyse,
}

module _ (matches : Pattern → Bytes → Bool) where
  -- The lines after the first that matches.
  abbrev pub after : Pattern → List Bytes → Option (List Bytes)
  after re [] = none
  after re (line ∷ lines) = if matches re line then some lines else after re lines

  -- Whether the first line that says how the tests went says that they went well.
  abbrev pub tests_good : List Bytes → Bool
  tests_good [] = false
  tests_good (line ∷ lines) =
      if matches re_good line then true else if matches re_bad line then false else tests_good lines

  abbrev pub follows : Option (List Bytes) → (List Bytes → Bool) → Bool
  follows none test = false
  follows (some lines) test = test lines

  abbrev pub is_nonempty : List Bytes → Bool
  is_nonempty [] = false
  is_nonempty (line ∷ lines) = true

  abbrev tested : List Bytes → Bool
  tested lines = follows (after re_testing lines) tests_good

  abbrev installed : List Bytes → Bool
  installed lines = follows (after re_installing lines) tested

  abbrev at_state : State → Bool → Bool → Analysis
  at_state s good worked = record {
    state = s;
    status = record { success = good; work_done = worked };
  }

  abbrev verdict : Bool → Bool → BuildStatus
  verdict good worked = record { success = good; work_done = worked }

  from_finished :
      (lines : List Bytes) (good worked : Bool)
      → analyse_from matches lines (at_state finished good worked) ≡ verdict good worked
  unfolding analyse_from
  from_finished [] good worked = refl
  from_finished (line ∷ lines) good worked = refl

  from_testing :
      (lines : List Bytes)
      → analyse_from matches lines (at_state testing false true) ≡ verdict (tests_good lines) true
  unfolding analyse_from analyse_line
  from_testing [] = refl
  from_testing (line ∷ lines) = elim (Bool-cases (matches re_good line)) [
    | inl good ↦ rw (analyse_from, analyse_line, good) (from_finished lines true true)
    | inr other ↦ elim (Bool-cases (matches re_bad line)) [
      | inl bad ↦ rw (analyse_from, analyse_line, other, bad) (from_finished lines false true)
      | inr neither ↦ rw (analyse_from, analyse_line, other, neither) (from_testing lines)
    ]
  ]

  from_installing :
      (lines : List Bytes)
      → analyse_from matches lines (at_state installing false true) ≡ verdict (tested lines) true
  unfolding analyse_from analyse_line
  from_installing [] = refl
  from_installing (line ∷ lines) = elim (Bool-cases (matches re_testing line)) [
    | inl found ↦ rw (analyse_from, analyse_line, found) (from_testing lines)
    | inr other ↦ rw (analyse_from, analyse_line, other) (from_installing lines)
  ]

  from_building :
      (lines : List Bytes) (worked : Bool)
      → analyse_from matches lines (at_state building false worked)
        ≡ verdict (installed lines) (if is_nonempty lines then true else worked)
  unfolding analyse_from analyse_line
  from_building [] worked = refl
  from_building (line ∷ lines) worked = elim (Bool-cases (matches re_installing line)) [
    | inl found ↦ rw (analyse_from, analyse_line, found) (from_installing lines)
    | inr other ↦
        rw (analyse_from, analyse_line, other) (from_building lines true ∙ worked_already lines)
  ]
    where
      worked_already :
          (ls : List Bytes)
          → verdict (installed ls) (if is_nonempty ls then true else true)
            ≡ verdict (installed ls) true
      worked_already [] = refl
      worked_already (l ∷ ls) = refl

  from_start :
      (ls : List Bytes)
      → ((analyse_from matches ls (at_state start false false)).success
          ≡ follows (after re_building ls) installed)
        × ((analyse_from matches ls (at_state start false false)).work_done
            ≡ follows (after re_building ls) is_nonempty)
  unfolding analyse_from analyse_line
  from_start [] = (refl, refl)
  from_start (line ∷ ls) = elim (Bool-cases (matches re_building line)) [
    | inl found ↦
        rw (analyse_from, analyse_line, found, from_building ls false) (refl, ground arith)
    | inr other ↦ rw (analyse_from, analyse_line, other) (from_start ls)
  ]

  -- A build has succeeded if, after the first line of a target that is built, there is one of the
  -- installation, after the first of these one of the tests, and after the first of these the first
  -- line that gives a result gives a good one. Work was done if there is any line after that of the
  -- first target.
  pub analyse-verdict :
      (lines : List Bytes)
      → ((analyse matches lines).success
          ≡ follows
              (after re_building lines)
              (λ l. follows (after re_installing l) (λ m. follows (after re_testing m) tests_good)))
        × ((analyse matches lines).work_done ≡ follows (after re_building lines) is_nonempty)
  unfolding analyse
  analyse-verdict lines = from_start lines
