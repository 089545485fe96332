-- ===== src/Watch/Changes.antt =====
-- What the worker of build/polldir.cpp sends messages for.
use skweltch.Prelude.{
  ℕ, suc, ◌+◌, ◌≡◌, refl, ap, sym, ◌∙◌, inl, inr, Bool, true, false, some, Bytes, codes, equal,
  if◌then◌else◌, List, [], ◌∷◌, ◌++◌, length, leb, All, append-nil, append_assoc, ℤ, ◌==ℤ◌,
  Bool-cases, All-append, same_ℤ, arith, map,
}
use skweltch.Result.{ok}
use skweltch.Vent.{StringMsg}
use skweltch.Vent.Numbered.{sent_ids, upto, sent_ids-append}
use skweltch.Poll.{Poll, send_poll, PollRound, PollEnd, polls, process_poll, new_poll}
use skweltch.Watch.{
  Crc, Node, file_node, dir_node, Nodes, end_dir, node, to_long, long_to_int, is_source, crc_text,
  crc_node, crc_nodes, get_crc, DirWorker, new_dir_worker, dir_worker, watch_dir, send_change,
}

-- How often a number differs from the one before it.
abbrev pub changes : ℤ → List ℤ → ℕ
changes c [] = 0
changes c (d ∷ ds) = let rest = changes d ds in if d ==ℤ c then rest else suc rest

module _ (crc : Crc) (extension : Bytes → Bytes) (show_file : Bytes → ℤ → Bytes) where
  -- The texts of the files with a source's extension that are not below a directory `bin`.
  unfoldable mutual
    pub texts : Node → List Bytes
    texts (file_node name time) =
        if is_source crc extension show_file name then show_file name time ∷ [] else []
    texts (dir_node name ns) =
        let rest = texts_in ns in if equal name (codes "bin") then [] else rest

    pub texts_in : Nodes → List Bytes
    texts_in end_dir = []
    texts_in (node n ns) = texts n ++ texts_in ns

  abbrev pub joined : List Bytes → Bytes
  joined [] = []
  joined (s ∷ ss) = s ++ joined ss

  -- Texts that fit in the buffer.
  abbrev pub Short : List Bytes → Type 0
  Short ss = All (λ (s : Bytes). leb 64 (length s) ≡ false) ss

  -- The checksum of the texts, in one part.
  abbrev pub sum_of : Node → ℤ
  sum_of n = to_long (crc.checksum (crc.process_bytes crc.fresh (joined (texts n))))

  Short-append : (ss ts : List Bytes) → Short (ss ++ ts) → Short ss × Short ts
  Short-append [] ts h = (tt, h)
  Short-append (s ∷ ss) ts (h, hs) = let (a, b) = Short-append ss ts hs in ((h, a), b)

  joined-append : (ss ts : List Bytes) → joined (ss ++ ts) ≡ joined ss ++ joined ts
  joined-append [] ts = refl
  joined-append (s ∷ ss) ts =
      ap (λ (t : Bytes). s ++ t) (joined-append ss ts)
      ∙ sym (append_assoc s (joined ss) (joined ts))

  mutual
    unfolding crc_node texts crc_text

    crc_node-texts :
        (n : Node) (c : crc.State)
        → Short (texts n)
        → crc_node crc extension show_file n c ≡ ok (crc.process_bytes c (joined (texts n)))
    crc_node-texts (file_node name time) c h =
        elim (Bool-cases (is_source crc extension show_file name)) [
          | inl yes_source ↦
              rw (yes_source, crc_text, append-nil (show_file name time), (rw yes_source at h).0)
                refl
          | inr other ↦ rw (other, crc.process-nil c) refl
        ]
    crc_node-texts (dir_node name ns) c h = elim (Bool-cases (equal name (codes "bin"))) [
      | inl skipped ↦ rw (skipped, crc.process-nil c) refl
      | inr read ↦ rw read (crc_nodes-texts ns c (rw read at h))
    ]

    crc_nodes-texts :
        (ns : Nodes) (c : crc.State)
        → Short (texts_in ns)
        → crc_nodes crc extension show_file ns c ≡ ok (crc.process_bytes c (joined (texts_in ns)))
    crc_nodes-texts end_dir c h = rw (crc.process-nil c) refl
    crc_nodes-texts (node n ns) c h =
        let (a, b) = Short-append (texts n) (texts_in ns) h in
        rw (crc_node-texts n c a) (
          crc_nodes-texts ns (crc.process_bytes c (joined (texts n))) b
          ∙ ap ok (
              crc.process-append c (joined (texts n)) (joined (texts_in ns))
              ∙ ap (crc.process_bytes c) (sym (joined-append (texts n) (texts_in ns)))))

  -- A directory whose files fit.
  abbrev pub Readable : Node → Type 0
  Readable (file_node name time) = ⊥
  Readable (dir_node name ns) = Short (texts (dir_node name ns))

  get_crc-sum_of : (n : Node) → Readable n → get_crc crc extension show_file n ≡ ok (sum_of n)
  unfolding get_crc
  get_crc-sum_of (file_node name time) h = absurd h
  get_crc-sum_of (dir_node name ns) h = rw (crc_node-texts (dir_node name ns) crc.fresh h) refl

  -- A round that sees one, without an interrupt after it.
  abbrev pub Plain : PollRound Node → Type 0
  Plain r = Readable r.seen × (r.quit ≡ false)

  -- How often the checksums change from a number on.
  abbrev pub changes_of : ℤ → List (PollRound Node) → ℕ
  changes_of c rs = changes c (map (λ (r : PollRound Node). sum_of r.seen) rs)

  -- Messages of ids from 0 on, of a folder.
  abbrev pub Told : Bytes → ℕ → Poll → Type 0
  Told folder n p = (sent_ids p.sent ≡ upto n) × All (λ (m : StringMsg). m.payload ≡ folder) p.sent

  append-Told :
      (folder : Bytes) (m : StringMsg) (n count : ℕ) (p : Poll)
      → (m.id ≡ n)
      → (m.payload ≡ folder)
      → Told folder n p
      → Told folder (n + 1) (record { count = count; sent = p.sent ++ (m ∷ []) })
  append-Told folder m n count p numbered named (ids, payloads) =
      let next : n + 1 ≡ suc n = omega arith in
      rw next (
        sent_ids-append p.sent m ∙ rw numbered (ap (λ (ns : List ℕ). ns ++ (n ∷ [])) ids),
        All-append (λ (x : StringMsg). x.payload ≡ folder) p.sent (m ∷ []) payloads (named, tt),
      )

  send_change-Told :
      (folder : Bytes) (time : ℤ) (quit : Bool) (n : ℕ) (p : Poll) (w : DirWorker)
      → Told folder n p
      → (q : Poll) × (send_change folder time quit n p w ≡ some (n + 1, q)) × Told folder (n + 1) q
  unfolding send_poll
  send_change-Told folder time true n p w told = (
    _,
    refl,
    append-Told folder (record { id = n; time = time; payload = folder }) n p.count p refl refl
        told,
  )
  send_change-Told folder time false n p w told = (
    _,
    refl,
    append-Told folder (record { id = n; time = time; payload = folder }) n (p.count + 1) p refl
        refl told,
  )

  process_poll-waits :
      (folder : Bytes) (r : PollRound Node) (rs : List (PollRound Node)) (n : ℕ) (p : Poll) (c : ℤ)
      → Readable r.seen
      → (sum_of r.seen ==ℤ c) ≡ true
      → process_poll
          (dir_worker crc extension show_file folder)
          (r ∷ rs)
          n
          p
          (record { last_crc = c })
        ≡ process_poll (dir_worker crc extension show_file folder) rs n p (record { last_crc = c })
  unfolding process_poll
  process_poll-waits folder r rs n p c fits same =
      rw (process_poll, get_crc-sum_of r.seen fits, same) refl

  process_poll-happens :
      (folder : Bytes) (r : PollRound Node) (rs : List (PollRound Node)) (n : ℕ) (p q : Poll)
      (c : ℤ)
      → Plain r
      → (sum_of r.seen ==ℤ c) ≡ false
      → send_change {W = DirWorker} folder r.time r.quit_sending n p
          (record { last_crc = sum_of r.seen })
        ≡ some (n + 1, q)
      → process_poll
          (dir_worker crc extension show_file folder)
          (r ∷ rs)
          n
          p
          (record { last_crc = c })
        ≡ process_poll
            (dir_worker crc extension show_file folder)
            rs
            (n + 1)
            q
            (record { last_crc = sum_of r.seen })
  unfolding process_poll
  process_poll-happens folder r rs n p q c (fits, quiet) other sent =
      rw (process_poll, get_crc-sum_of r.seen fits, other, sent, quiet) refl

  -- What the loop ends in, after a number of messages.
  abbrev pub Watched : Bytes → ℕ → PollEnd DirWorker → Type 0
  Watched folder n e = (q : Poll) × (w : DirWorker) × (e ≡ polls n q w) × Told folder n q

  process_poll-changes :
      (folder : Bytes) (rs : List (PollRound Node)) (n : ℕ) (p : Poll) (c : ℤ)
      → All Plain rs
      → Told folder n p
      → Watched folder (n + changes_of c rs) (
          process_poll (dir_worker crc extension show_file folder) rs n p (record { last_crc = c }))
  unfolding process_poll
  process_poll-changes folder [] n p c h told =
      let none_more : n + 0 ≡ n = omega arith in
      rw none_more (p, record { last_crc = c }, refl, told)
  process_poll-changes folder (r ∷ rs) n p c ((fits, quiet), h) told =
      elim (Bool-cases (sum_of r.seen ==ℤ c)) [
        | inl same ↦
            rw (process_poll-waits folder r rs n p c fits same, same, same_ℤ (sum_of r.seen) c same)
              (process_poll-changes folder rs n p c h told)
        | inr other ↦
            let (q, sent, more) =
              send_change-Told folder r.time r.quit_sending n p
                (record { last_crc = sum_of r.seen }) told in
            rw
              (
                process_poll-happens folder r rs n p q c (fits, quiet) other sent,
                other,
                counted n (changes_of (sum_of r.seen) rs),
              )
              (process_poll-changes folder rs (n + 1) q (sum_of r.seen) h more)
      ]
    where
      counted : (n m : ℕ) → n + suc m ≡ n + 1 + m
      counted n m = omega arith

  -- Of a directory that is there, each source file below it with a text that fits, and without an
  -- interrupt after a message, polldir sends a message each time the checksum of the texts
  -- of the source files outside `bin` differs from that before it, with the ids from 0 on and the name
  -- of the directory; before the first round it has the checksum at the start, cut down to an `int`.
  pub watch_dir-changes :
      (folder : Bytes) (start : Node) (rs : List (PollRound Node))
      → Readable start
      → All Plain rs
      → Watched folder
          (changes_of (long_to_int (sum_of start)) rs)
          (watch_dir crc extension show_file folder start rs)
  unfolding watch_dir
  watch_dir-changes folder start rs fits h =
      let watched : Watched folder (0 + changes_of (long_to_int (sum_of start)) rs) (
          process_poll (dir_worker crc extension show_file folder) rs 0 new_poll
            (new_dir_worker (sum_of start))) =
        process_poll-changes folder rs 0 new_poll (long_to_int (sum_of start)) h (refl, tt) in
      rw (watch_dir, get_crc-sum_of start fits)
        (rw (from_zero (changes_of (long_to_int (sum_of start)) rs)) at watched)
    where
      from_zero : (n : ℕ) → 0 + n ≡ n
      from_zero n = omega arith
