-- ===== src/Words.antt =====
-- vent/WordSplitter.cpp and vent/ventwords.cpp: a text is cut at white space, and each word is sent in
-- lower case, without what it ends in if that is no letter or digit. Characters are those of the C
-- locale.
pub mod Sent
use skweltch.Prelude.{
  ℕ, zero, suc, ◌+◌, ◌-◌, Bool, true, false, Option, none, some, ◌&&◌, ◌||◌, leb, ◌==◌,
  if◌then◌else◌, List, [], ◌∷◌, ◌++◌, Bytes, map, ℤ, pos, ◌-ℤ◌,
}
use skweltch.Result.{Result, ok, undefined, ◌>>=◌}
use skweltch.Vent.{StringMsg, Vent, send_one}

-- `isspace`, `isalnum` and `tolower`
abbrev pub is_white : ℕ → Bool
is_white c = c == b' ' || (leb 9 c && leb c 13)

abbrev pub is_upper : ℕ → Bool
is_upper c = leb b'A' c && leb c b'Z'

abbrev pub is_alnum : ℕ → Bool
is_alnum c = is_upper c || ((leb b'a' c && leb c b'z') || (leb b'0' c && leb c b'9'))

abbrev pub to_lower : ℕ → ℕ
to_lower c = if is_upper c then c + 32 else c

-- The last character of a word is left out if it is no letter or digit.
unfoldable pub cut_last : Bytes → Bytes
cut_last [] = []
cut_last (c ∷ cs) = elim cs [ [] ↦ if is_alnum c then c ∷ [] else [] | d ∷ ds ↦ c ∷ cut_last cs ]

abbrev pub clean : Bytes → Bytes
clean word = map to_lower (cut_last word)

-- `IWord::word`, on the state of what it is told.
abbrev pub Tell : Type 0 → Type 0
Tell S = Bytes → S → S × Bool

-- The loop, from the characters of a word that have been read. A word that is empty is read before its
-- start.
pub split_words : {S : Type 0} → Tell S → Bytes → Bytes → S → Result (S × Bool)
unfolding cut_last
split_words tell [] [] s = undefined
split_words tell [] (b ∷ bs) s = ok (tell (clean (b ∷ bs)) s)
split_words tell (c ∷ cs) [] s =
    if is_white c then split_words tell cs [] s else split_words tell cs (c ∷ []) s
split_words tell (c ∷ cs) (b ∷ bs) s =
    let (t, more) = tell (clean (b ∷ bs)) s in
    if is_white c
    then (if more then split_words tell cs [] t else ok (t, false))
    else split_words tell cs (b ∷ (bs ++ (c ∷ []))) s

-- `process`
unfoldable pub process_text : {S : Type 0} → Tell S → Bytes → S → Result (S × Bool)
unfolding split_words
process_text tell input s = split_words tell input [] s

-- `SendWord`
pub record SendWord : Type 0 where
  pub id : ℕ
  pub vent : Vent

module _ (interrupted : List StringMsg → Bool) (clock : List StringMsg → ℤ) where
  -- `SendWord::word`, without sleeping; a vent that does not sleep always gives a result.
  pub send_word : Tell SendWord
  unfolding send_one
  send_word s w =
      elim (send_one interrupted clock (pos 0) (pos 0)
        (record { id = w.id; time = clock w.vent.sent; payload = s }) w.vent) [
          | none ↦ (w, false)
          | some (v, more) ↦ (record { id = w.id + 1; vent = v }, more)
        ]

  -- `sendAll`, with the vent then.
  unfoldable pub send_words : Bytes → Vent → Result (Vent × ℤ)
  unfolding process_text send_word
  send_words input v = process_text send_word input (record { id = 0; vent = v }) >>= λ r.
      ok (r.0.vent, pos r.0.id -ℤ pos 1)
