-- ===== src/Elapsed.antt =====
-- core/Elapsed.cpp: a stop watch over `gettimeofday`. The time of the day is an argument.
-- It does not go back, and the milliseconds stay below 2^31, those of some 24 days: the source's `int`
-- is negative for an end before the start, where this is 0 or the borrow alone, and wraps for more.
use skweltch.Prelude.{ℕ, ◌+◌, ◌-◌, ◌*◌, ◌/◌, ◌≤◌, ◌<◌, ◌≡◌, ltb, if◌then◌else◌, arith}

-- `struct timeval`
pub record Timeval : Type 0 where
  pub sec : ℕ
  pub usec : ℕ

-- `tdiff`, the difference of two times: the `else` branch, and the borrow of a second.
pub difference : Timeval → Timeval → Timeval
difference start end =
    if ltb end.usec start.usec
    then record { sec = end.sec - start.sec - 1; usec = 1000000 + end.usec - start.usec }
    else record { sec = end.sec - start.sec; usec = end.usec - start.usec }

-- `getTotal`, in milliseconds.
unfoldable pub get_total : Timeval → Timeval → ℕ
unfolding difference
get_total start end = let tdiff = difference start end in tdiff.sec * 1000 + tdiff.usec / 1000

abbrev micros : Timeval → ℕ
micros t = t.sec * 1000000 + t.usec

-- For two proper times in order, `getTotal` is the number of whole milliseconds between them.
pub get_total-micros :
    (start end : Timeval)
    → start.usec < 1000000
    → end.usec < 1000000
    → micros start ≤ micros end
    → get_total start end ≡ (micros end - micros start) / 1000
unfolding get_total
get_total-micros start end a b h = ground arith
