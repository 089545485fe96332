-- ===== src/Letters.antt =====
-- work/workcharfreq.cpp and sink/sinkcharfreq.cpp: how often each letter stands in a word, as 26
-- hexadecimal digits, and the sums of these over all the words of a batch.
pub mod Digits
pub mod Words
pub mod Sums
use skweltch.Prelude.{
  ℕ, zero, suc, ◌+◌, ◌-◌, Bool, true, false, ◌&&◌, ◌||◌, Option, none, some, Bytes, codes, ltb, leb,
  if◌then◌else◌, List, [], ◌∷◌, ℤ, pos, length, get_elem?, set, replicate, int_limit,
}
use skweltch.Result.{Result, ok, threw, undefined, runtime_error, ◌>>=◌}
use skweltch.Json.{Value, null, int}
use skweltch.Json.JsonObject.{add}
use skweltch.Msg.{SinkMsg, data_msg, empty_msg}

-- `sscanf(ss, "%x", &c)` of one character; `none` where `c` is not written.
abbrev pub scan_hex : ℕ → Option ℕ
scan_hex c =
    if leb b'0' c && leb c b'9'
    then some (c - b'0')
    else if leb b'a' c && leb c b'f'
    then some (c - b'a' + 10)
    else if leb b'A' c && leb c b'F'
    then some (c - b'A' + 10)
    else none

-- `sprintf(ss, "%x", c)` into the two characters of `ss`, which a second digit would overrun.
abbrev pub print_hex : ℕ → Result ℕ
print_hex c =
    if ltb c 10 then ok (b'0' + c) else if ltb c 16 then ok (b'a' + (c - 10)) else undefined

-- A letter of the word is counted.
pub count_letter : Bytes → ℕ → Result Bytes
count_letter result c =
    if leb b'a' c && leb c b'z'
    then elim (get_elem? result (c - b'a')) [
      | none ↦ undefined
      | some digit ↦ elim (scan_hex digit) [
        | none ↦ undefined
        | some n ↦
            if ltb 16 (suc n)
            then threw runtime_error
            else (print_hex (suc n) >>= λ d. ok (set result (c - b'a') d))
      ]
    ]
    else threw runtime_error

pub count_letters : Bytes → Bytes → Result Bytes
unfolding count_letter
count_letters [] result = ok result
count_letters (c ∷ word) result = count_letter result c >>= λ r. count_letters word r

-- `WWorker::processMsg`, of the id and the payload of the message: what is sent to the sink.
unfoldable pub process_word : ℤ → Bytes → Result SinkMsg
unfolding count_letters
process_word id word = do
  result ← count_letters word (replicate 26 b'0')
  ok (data_msg id (result ∷ []) empty_msg)

-- `SWorker::init`
abbrev pub no_counts : List ℕ
no_counts = replicate 26 0

-- The loop of `SWorker::process`; the sum of two `int` is not defined beyond the limit.
pub add_counts : List ℕ → Bytes → Result (List ℕ)
add_counts [] text = ok []
add_counts (n ∷ counts) [] = undefined
add_counts (n ∷ counts) (digit ∷ text) = elim (scan_hex digit) [
  | none ↦ undefined
  | some c ↦
      if ltb (n + c) int_limit
      then (add_counts counts text >>= λ rest. ok ((n + c) ∷ rest))
      else undefined
]

unfoldable pub process_data : List Bytes → List ℕ → Result (List ℕ)
unfolding add_counts
process_data [] counts = undefined
process_data (text ∷ more) counts =
    if ltb 26 (length text) then threw runtime_error else add_counts counts text

-- The object that `SWorker::results` writes, and the state behind it.
pub add_letters : {Real : Type 0} → ℕ → List ℕ → Value Real → Value Real
add_letters c [] r = r
add_letters c (n ∷ counts) r = add_letters (suc c) counts (add (c ∷ []) (int (pos n)) r)

unfoldable pub report : {Real : Type 0} → ℤ → List ℕ → Value Real × List ℕ
unfolding add_letters
report total_ms counts =
    (add_letters b'a' counts (add (codes "elapsed") (int total_ms) null), no_counts)
