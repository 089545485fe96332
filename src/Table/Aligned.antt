-- ===== src/Table/Aligned.antt =====
-- The rows of the table fit its headers.
use skweltch.Prelude.{
  ℕ, zero, suc, ◌+◌, ◌≡◌, Bool, true, false, Bytes, codes, if◌then◌else◌, List, [], ◌∷◌, ◌++◌, ℤ,
  pos, arith,
}
use skweltch.Result.{Exception, runtime_error, other_error}
use skweltch.Tuner.{Double}
use skweltch.Tuner.Variables.{tabs, tabs-append}
use skweltch.Runner.{Report}
use skweltch.Table.{
  Flow, goes_on, leaves, logged, dies, waits, on_exception, state, after_loop, in_loop,
}
use skweltch.Table.Lines.{
  Line, header, soak_header, row, column, column_names, average, median, show_line,
}

tabs-column : (s rest : Bytes) → tabs (column s rest) ≡ suc (tabs s + tabs rest)
tabs-column s rest = let split_there = tabs-append s (9 ∷ rest) in omega (arith, split_there)

module _ {Real : Type 0} (decimal : ℤ → Bytes) (show_real : Real → Bytes) (double : Double Real)
    (plus : Real → Real → Real) where
  abbrev shown : Line → Bytes
  shown = show_line decimal show_real double plus

  -- How many tabs the last header has, of a table with its last line first.
  abbrev pub width : List Line → ℕ
  width [] = 0
  width (header n ∷ ls) = tabs (show_line decimal show_real double plus (header n))
  width (soak_header ∷ ls) = tabs (show_line decimal show_real double plus soak_header)
  width (row r ∷ ls) = width ls

  -- Each row has as many tabs as the header above it.
  abbrev pub Aligned : List Line → Type 0
  Aligned [] = Unit
  Aligned (header n ∷ ls) = Aligned ls
  Aligned (soak_header ∷ ls) = Aligned ls
  Aligned (row r ∷ ls) =
      (tabs (show_line decimal show_real double plus (row r)) ≡ width ls) × Aligned ls

  module _ (plain : (n : ℤ) → tabs (decimal n) ≡ 0)
      (plain_real : (x : Real) → tabs (show_real x) ≡ 0) where
    tabs-column_names :
        (j n : ℕ) (rest : Bytes)
        → tabs (column_names decimal show_real double plus j n rest) ≡ n + tabs rest
    unfolding column_names
    tabs-column_names j zero rest = omega arith
    tabs-column_names j (suc n) rest =
        let this =
          tabs-column (codes "v" ++ decimal (pos (j + 1)))
            (column_names decimal show_real double plus (suc j) n rest) in
        omega (arith, this, plain (pos (j + 1)), tabs-column_names (suc j) n rest)

    pub tabs-header : (n : ℕ) → tabs (shown (header n)) ≡ n + 7
    unfolding show_line
    tabs-header n =
        let columns = tabs-column_names 0 n (
          column (codes "n") (
            column (codes "low") (
              column (codes "high")
                (column (codes "fail") (column (codes "avg") (codes "med")))))) in
        omega (arith, columns)

    pub tabs-row : (r : Report) → tabs (shown (row r)) ≡ tabs r.vars + 8
    unfolding show_line
    tabs-row r =
        rw
          (
            tabs-column (decimal r.group),
            tabs-column (decimal r.iter),
            tabs-column r.vars,
            tabs-column (decimal r.iterations),
            tabs-column (decimal r.stats.low),
            tabs-column (decimal r.stats.high),
            tabs-column (decimal (pos r.stats.fail)),
            tabs-column (show_real (average decimal show_real double plus r)),
            plain r.group,
            plain r.iter,
            plain r.iterations,
            plain r.stats.low,
            plain r.stats.high,
            plain (pos r.stats.fail),
            plain_real (average decimal show_real double plus r),
            plain_real (median decimal show_real double plus r),
          )
          (omega arith)

-- What holds of the state before and after each part of a loop holds after_loop it.
module _ {S : Type 0} (Q : S → Type 0) where
  pub on_exception-state : (e : Exception) (s : S) → Q s → Q (state (on_exception e s))
  on_exception-state runtime_error s h = h
  on_exception-state other_error s h = h

  pub in_loop-state :
      (x : Flow S) (next : S → Flow S)
      → Q (state x)
      → ((t : S) → Q t → Q (state (next t)))
      → Q (state (in_loop x next))
  in_loop-state (goes_on s) next h k = k s h
  in_loop-state (leaves s) next h k = h
  in_loop-state (logged s) next h k = h
  in_loop-state (dies s) next h k = h
  in_loop-state (waits s) next h k = h

  pub after_loop-state :
      (x : Flow S) (next : S → Flow S)
      → Q (state x)
      → ((t : S) → Q t → Q (state (next t)))
      → Q (state (after_loop x next))
  after_loop-state (goes_on s) next h k = k s h
  after_loop-state (leaves s) next h k = k s h
  after_loop-state (logged s) next h k = h
  after_loop-state (dies s) next h k = h
  after_loop-state (waits s) next h k = h

  pub if-state :
      (b : Bool) (x y : Flow S) → Q (state x) → Q (state y) → Q (state (if b then x else y))
  if-state true x y h k = h
  if-state false x y h k = k
