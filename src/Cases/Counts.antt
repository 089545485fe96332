-- ===== src/Cases/Counts.antt =====
-- A build's log, and the letters of two words.
use skweltch.Prelude.{
  ℕ, ◌≤◌, ◌<◌, ◌≡◌, refl, Bool, true, List, [], ◌∷◌, Bytes, codes, ℤ, pos, equal, length, arith,
  int_limit,
}
use skweltch.Result.{ok}
use skweltch.Json.{int}
use skweltch.Json.JsonObject.{get_value, or_empty}
use skweltch.Build.{Pattern, re_building, re_installing, re_testing, re_good, re_bad, analyse}
use skweltch.Build.Verdict.{analyse-verdict}
use skweltch.Letters.{no_counts, report}
use skweltch.Letters.Words.{IsLower, occurrences}
use skweltch.Letters.Sums.{total, pass_words, report-pass_words}

-- Each expression is matched by one line.
abbrev line_of : Pattern → Bytes
line_of re_building = codes "[ 50%] Built target core"
line_of re_installing = codes "Install the project..."
line_of re_testing = codes "Running tests..."
line_of re_good = codes "100% tests passed, 0 tests failed out of 3"
line_of re_bad = codes "66% tests passed, 1 tests failed out of 3"

abbrev is_line : Pattern → Bytes → Bool
is_line re line = equal line (line_of re)

abbrev build_log : List Bytes
build_log =
    codes "make"
    ∷ line_of re_building
    ∷ line_of re_installing
    ∷ codes "-- done"
    ∷ line_of re_testing
    ∷ line_of re_good
    ∷ []

analyse-verdict_example :
    ((analyse is_line build_log).success ≡ true) × ((analyse is_line build_log).work_done ≡ true)
unfolding equal
analyse-verdict_example = analyse-verdict is_line build_log

occurrences-length : (l : ℕ) (word : Bytes) → occurrences l word ≤ length word
occurrences-length l [] = omega arith
occurrences-length l (c ∷ word) = ground (arith, occurrences-length l word)

abbrev IsFew : Bytes → Type 0
IsFew word = (l : ℕ) → occurrences l word ≤ 15

ab-IsFew : IsFew (codes "ab")
ab-IsFew l = omega (arith, occurrences-length l (codes "ab"))

b-IsFew : IsFew (codes "b")
b-IsFew l = omega (arith, occurrences-length l (codes "b"))

abbrev two_words : List (ℤ × Bytes)
two_words = (pos 1, codes "ab") ∷ (pos 0, codes "b") ∷ []

two_words-total : (l : ℕ) → total l two_words < int_limit
two_words-total l =
    omega (arith, occurrences-length l (codes "ab"), occurrences-length l (codes "b"))

report-pass_words_example :
    (counts : List ℕ) × (pass_words two_words no_counts ≡ ok counts)
    × ((report {Real = ℕ} (pos 7) counts).1 ≡ no_counts)
    × (get_value (or_empty (report {Real = ℕ} (pos 7) counts).0) (codes "elapsed") ≡ int (pos 7))
    × ((l : ℕ)
        → IsLower l
        → get_value (or_empty (report {Real = ℕ} (pos 7) counts).0) (l ∷ [])
          ≡ int (pos (total l two_words)))
report-pass_words_example =
    report-pass_words two_words (pos 7)
      (((refl, (refl, tt)), ab-IsFew), (((refl, tt), b-IsFew), tt)) two_words-total
