-- ===== src/Table/Lines.antt =====
-- machine/Results.cpp, and the headers that machine/tune.cpp and machine/soak.cpp write. What numbers
-- look like in a stream is a parameter.
use skweltch.Prelude.{
  ℕ, zero, suc, ◌+◌, Option, none, some, Bytes, codes, List, ◌∷◌, ◌++◌, ℤ, pos, ◌-ℤ◌,
}
use skweltch.Tuner.{Double}
use skweltch.Runner.{Report}

-- A line of the table: the header of a group, with its number of variables, that of soak, or a run.
pub data Line : Type 0 where
  header : ℕ → Line
  soak_header : Line
  row : Report → Line

-- A text and a tab.
abbrev pub column : Bytes → Bytes → Bytes
column s rest = s ++ (9 ∷ rest)

module _ {Real : Type 0} (decimal : ℤ → Bytes) (show_real : Real → Bytes) (double : Double Real)
    (plus : Real → Real → Real) where
  -- The loop over `n` columns from a number on, and what follows.
  unfoldable pub column_names : ℕ → ℕ → Bytes → Bytes
  column_names j zero rest = rest
  column_names j (suc n) rest =
      column (codes "v" ++ decimal (pos (j + 1))) (column_names (suc j) n rest)

  abbrev pub average : Report → Real
  average r = double.divide (double.of_int r.stats.sum) (double.of_int r.iterations)

  abbrev pub median : Report → Real
  median r =
      plus (double.of_int r.stats.low)
        (double.divide (double.of_int (r.stats.high -ℤ r.stats.low)) (double.of_int (pos 2)))

  -- A line without its end; a row is `StreamResults::write`.
  unfoldable pub show_line : Line → Bytes
  unfolding column_names
  show_line (header n) = column (codes "group") (
      column (codes "i") (
        column_names 0 n (
          column (codes "n") (
            column (codes "low") (
              column (codes "high")
                (column (codes "fail") (column (codes "avg") (codes "med"))))))))
  show_line soak_header = column (codes "group") (
      column (codes "i") (
        column (codes "vars") (
          column (codes "n") (
            column (codes "low") (
              column (codes "high")
                (column (codes "fail") (column (codes "avg") (codes "med"))))))))
  show_line (row r) = column (decimal r.group) (
      column (decimal r.iter) (
        column r.vars (
          column (decimal r.iterations) (
            column (decimal r.stats.low) (
              column (decimal r.stats.high) (
                column (decimal (pos r.stats.fail))
                  (column (show_real (average r)) (show_real (median r)))))))))

abbrev pub with_report : Option Report → List Line → List Line
with_report none ls = ls
with_report (some r) ls = row r ∷ ls
