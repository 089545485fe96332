-- ===== src/Splitter/Keeps.antt =====
-- What the receiver of chunks keeps, a whole run of the splitter keeps.
use skweltch.Prelude.{
  ◌-◌, ◌&&◌, inl, inr, List, ◌∷◌, [], ◌++◌, Bytes, ltb, ◌==◌, length, Bool-cases,
}
use skweltch.Xml.{Event, start_tag, end_tag}
use skweltch.Xml.Invariant.{process-keeps}
use skweltch.Splitter.{
  Chunk, Splitter, initial, is_at, add, on_start, on_match, on_end, splitter, split_process,
}

module _ {ℓ} {T : Type 0} (ch : Chunk T) (P : T → Type ℓ)
    (keep : (s : Bytes) (t : T) → P t → P (ch s t).0) where
  on_match-keeps : (p : Splitter T) → P p.out → P (on_match ch p).0.out
  unfolding on_match
  on_match-keeps p h = elim (Bool-cases (p.spos == length p.stack)) [
    | inl whole ↦ elim (Bool-cases (ch p.chunk p.out).1) [
      | inl more ↦ rw (whole, more) (keep p.chunk p.out h)
      | inr over ↦ rw (whole, over) (keep p.chunk p.out h)
    ]
    | inr partial ↦ rw partial h
  ]

  on_end-keeps : (s : Bytes) (p : Splitter T) → P p.out → P (on_end ch s p).0.out
  unfolding on_end
  on_end-keeps s p h =
      let q = add (b'<' ∷ b'/' ∷ (s ++ b'>' ∷ [])) p in
      elim (Bool-cases (ltb 0 q.spos && is_at q.stack (q.spos - 1) s)) [
        | inl up ↦ rw up (on_match-keeps q h)
        | inr same ↦ rw same h
      ]

  on_start-keeps : (s : Bytes) (p : Splitter T) → P p.out → P (on_start s p).out
  unfolding on_start
  on_start-keeps s p h = elim (Bool-cases (ltb p.spos (length p.stack) && is_at p.stack p.spos s)) [
    | inl deeper ↦ rw deeper h
    | inr same ↦ rw same h
  ]

  splitter-keeps : (e : Event) (p : Splitter T) → P p.out → P (splitter ch e p).0.out
  unfolding splitter
  splitter-keeps (start_tag s) p h = on_start-keeps s p h
  splitter-keeps (end_tag s) p h = on_end-keeps s p h
  splitter-keeps _ p h = h

  pub split_process-keeps :
      (split : Bytes → List Bytes) (xpath input : Bytes) (out : T)
      → P out
      → P (split_process ch split xpath input out).0.out
  unfolding split_process
  split_process-keeps split xpath input out h =
      process-keeps (splitter ch) (λ p. P p.out) splitter-keeps input (initial (split xpath) out) h
