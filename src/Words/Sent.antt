-- ===== src/Words/Sent.antt =====
-- The messages that are sent for a text.
use skweltch.Prelude.{
  ℕ, suc, ◌+◌, ◌≡◌, ◌≢◌, refl, ap, sym, ◌∙◌, inl, inr, Bool, true, false, if◌then◌else◌, List, [],
  ◌∷◌, ◌++◌, Bytes, map, length, ℤ, pos, ◌-ℤ◌, All, Bool-cases, append_assoc, append-nil, arith,
}
use skweltch.Result.{Result, ok, ◌>>=◌}
use skweltch.Vent.{StringMsg, Vent, send_one, slept}
use skweltch.Msg.{SinkMsg}
use skweltch.Words.{
  is_white, clean, Tell, split_words, process_text, SendWord, send_word, send_words,
}

-- A word, and a text of words with a space between two of them.
abbrev pub IsWord : Bytes → Type 0
IsWord word = (word ≢ []) × All (λ (c : ℕ). is_white c ≡ false) word

abbrev pub more_words : List Bytes → Bytes
more_words [] = []
more_words (word ∷ words) = b' ' ∷ (word ++ more_words words)

abbrev pub spaced : Bytes → List Bytes → Bytes
spaced word words = word ++ more_words words

module _ {S : Type 0} (tell : Tell S) where
  -- Words are told up to the first that ends it.
  abbrev pub tell_all : List Bytes → S → S × Bool
  tell_all [] s = (s, true)
  tell_all (word ∷ words) s =
      let (t, more) = tell word s in if more then tell_all words t else (t, false)

  tell_all-one : (word : Bytes) (s : S) → tell word s ≡ tell_all (word ∷ []) s
  tell_all-one word s = either (tell word s)
    where
      either : (p : S × Bool) → p ≡ (if p.1 then (p.0, true) else (p.0, false))
      either (t, true) = refl
      either (t, false) = refl

  split_words-append :
      (word rest : Bytes) (b : ℕ) (bs : Bytes) (s : S)
      → All (λ (c : ℕ). is_white c ≡ false) word
      → split_words tell (word ++ rest) (b ∷ bs) s ≡ split_words tell rest (b ∷ (bs ++ word)) s
  unfolding split_words
  split_words-append [] rest b bs s black =
      ap (λ (cur : Bytes). split_words tell rest (b ∷ cur) s) (sym (append-nil bs))
  split_words-append (c ∷ word) rest b bs s (black, blacks) =
      rw (split_words, black)
        (split_words-append word rest b (bs ++ (c ∷ [])) s blacks
          ∙ ap (λ (cur : Bytes). split_words tell rest (b ∷ cur) s) (append_assoc bs (c ∷ []) word))

  split_words-more :
      (words : List Bytes) (b : ℕ) (bs : Bytes) (s : S)
      → All IsWord words
      → split_words tell (more_words words) (b ∷ bs) s
        ≡ ok (tell_all (map clean ((b ∷ bs) ∷ words)) s)
  unfolding split_words
  split_words-more [] b bs s fine = ap ok (tell_all-one (clean (b ∷ bs)) s)
  split_words-more ([] ∷ words) b bs s ((full, black), fine) = absurd (full refl)
  split_words-more ((c ∷ word) ∷ words) b bs s ((full, (black, blacks)), fine) =
      elim (Bool-cases (tell (clean (b ∷ bs)) s).1) [
        | inl more ↦
            rw (split_words, more, black)
              (split_words-append word (more_words words) c [] (tell (clean (b ∷ bs)) s).0 blacks
                ∙ split_words-more words c word (tell (clean (b ∷ bs)) s).0 fine)
        | inr stop ↦ rw (split_words, stop) refl
      ]

  process_text-spaced :
      (word : Bytes) (words : List Bytes) (s : S)
      → IsWord word
      → All IsWord words
      → process_text tell (spaced word words) s ≡ ok (tell_all (map clean (word ∷ words)) s)
  unfolding process_text split_words
  process_text-spaced [] words s (full, black) fine = absurd (full refl)
  process_text-spaced (c ∷ word) words s (full, (black, blacks)) fine =
      rw (process_text, split_words, black)
        (split_words-append word (more_words words) c [] s blacks
          ∙ split_words-more words c word s fine)

length-map : (words : List Bytes) → length (map clean words) ≡ length words
length-map [] = refl
length-map (word ∷ words) = ap suc (length-map words)

pub last_id : (n : ℕ) → pos (0 + suc n) -ℤ pos 1 ≡ pos n
last_id n = ground arith

module _ (interrupted : List StringMsg → Bool) (clock : List StringMsg → ℤ)
    (runs : (ms : List StringMsg) → interrupted ms ≡ false) where
  abbrev pub message : ℕ → List StringMsg → Bytes → StringMsg
  message i before word = record { id = i; time = clock before; payload = word }

  -- The messages for words, numbered from `i` on, after those that have been sent.
  abbrev pub messages : ℕ → List StringMsg → List Bytes → List StringMsg
  messages i before [] = []
  messages i before (word ∷ words) =
      message i before word ∷ messages (i + 1) (before ++ (message i before word ∷ [])) words

  abbrev sending : ℕ → ℕ → List StringMsg → List SinkMsg → SendWord
  sending i count sent told = record {
    id = i;
    vent = record { count = count; sent = sent; told_sink = told };
  }

  same_sending :
      (i j count count' : ℕ) (sent sent' : List StringMsg) {told : List SinkMsg}
      → i ≡ j
      → count ≡ count'
      → sent ≡ sent'
      → sending i count sent told ≡ sending j count' sent' told
  same_sending i j count count' sent sent' a b c = rw (a, b, c) refl

  send_word-sending :
      (word : Bytes) (i count : ℕ) (sent : List StringMsg) (told : List SinkMsg)
      → send_word interrupted clock word (sending i count sent told)
        ≡ (sending (i + 1) (count + 1) (sent ++ (message i sent word ∷ [])) told, true)
  unfolding send_word send_one slept
  send_word-sending word i count sent told =
      rw (send_word, send_one, runs (sent ++ (message i sent word ∷ []))) refl

  tell_all-sending :
      (words : List Bytes) (i count : ℕ) (sent : List StringMsg) (told : List SinkMsg)
      → tell_all (send_word interrupted clock) words (sending i count sent told) ≡ (
        sending (i + length words) (count + length words) (sent ++ messages i sent words) told,
        true,
      )
  tell_all-sending [] i count sent told =
      ap (λ (w : SendWord). (w, true))
        (same_sending _ _ _ _ _ _ (omega arith) (omega arith) (sym (append-nil sent)))
  tell_all-sending (word ∷ words) i count sent told =
      rw (send_word-sending word i count sent told) (
        tell_all-sending words (i + 1) (count + 1) (sent ++ (message i sent word ∷ [])) told
        ∙ ap (λ (w : SendWord). (w, true))
            (same_sending _ _ _ _ _ _ (omega arith) (omega arith) (
              append_assoc sent (message i sent word ∷ [])
                (messages (i + 1) (sent ++ (message i sent word ∷ [])) words))))

  -- Words that are not empty and hold no white space, with a space between two of them: without an
  -- interrupt a message is sent for each, in order, with the ids from 0 on and the words in lower case
  -- and without a last character that is no letter or digit, and the last id is given to the vent.
  pub send_words-spaced :
      (word : Bytes) (words : List Bytes) (v : Vent)
      → IsWord word
      → All IsWord words
      → send_words interrupted clock (spaced word words) v
        ≡ ok (
          record {
            count = v.count + suc (length words);
            sent = v.sent ++ messages 0 v.sent (map clean (word ∷ words));
            told_sink = v.told_sink;
          },
          pos (length words),
        )
  unfolding send_words
  send_words-spaced word words v fine fines =
      ap (λ (r : Result (SendWord × Bool)). r >>= λ p. ok (p.0.vent, pos p.0.id -ℤ pos 1))
        (process_text-spaced (send_word interrupted clock) word words (record { id = 0; vent = v })
            fine fines
          ∙ ap ok (tell_all-sending (map clean (word ∷ words)) 0 v.count v.sent v.told_sink))
      ∙ rw (length-map words, last_id (length words)) refl
