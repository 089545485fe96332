-- ===== src/Splitter.antt =====
-- vent/XPathSplitter.cpp: the element that cuts a document into the chunks at a simple path.
-- `boost::split` of the path at `/` is not this repository's code: the path comes as its parts.
pub mod Bounds
pub mod Chunks
pub mod Element
pub mod Keeps
pub mod Elements
pub mod Whole
use skweltch.Prelude.{
  ℕ, suc, ◌+◌, ◌-◌, Bool, true, false, ◌&&◌, Option, none, some, List, [], ◌∷◌, ◌++◌, Bytes, equal,
  ltb, ◌==◌, if◌then◌else◌, length, get_elem?,
}
use skweltch.Xml.{Event, pi, start_tag, attr, end_attr, end_tag, content, XmlElement, process}

-- `IChunk`: the next state of the receiver, and whether to go on.
abbrev pub Chunk : Type 0 → Type 0
Chunk T = Bytes → T → T × Bool

-- `XPathSplitterElem`, with the receiver's own state.
pub record Splitter (T : Type 0) : Type 0 where
  pub stack : List Bytes
  pub spos : ℕ
  pub chunk : Bytes
  pub out : T

abbrev pub initial : {T : Type 0} → List Bytes → T → Splitter T
initial stack out = record { stack = stack; spos = 0; chunk = []; out = out }

-- `s == stack[i]`. A place beyond the stack equals nothing here; no such place is read.
pub is_at : List Bytes → ℕ → Bytes → Bool
is_at stack i s = elim (get_elem? stack i) [ none ↦ false | some t ↦ equal s t ]

module _ {T : Type 0} where
  abbrev pub add : Bytes → Splitter T → Splitter T
  add s p = record p { chunk = p.chunk ++ s }

  pub on_start : Bytes → Splitter T → Splitter T
  unfolding is_at
  on_start s p =
      let matched = ltb p.spos (length p.stack) && is_at p.stack p.spos s in
      let q = if matched then record p { spos = p.spos + 1; chunk = [] } else p in add (b'<' ∷ s) q

  module _ (ch : Chunk T) where
    -- The end tag of the element at `stack[spos-1]`: at the whole path its chunk is handed over.
    pub on_match : Splitter T → Splitter T × Bool
    on_match p =
        let up = λ (q : Splitter T). record q { spos = q.spos - 1 } in
        if p.spos == length p.stack
        then (let (t, more) = ch p.chunk p.out in
            let q = record p { out = t } in if more then (up q, true) else (q, false))
        else (up p, true)

    pub on_end : Bytes → Splitter T → Splitter T × Bool
    unfolding is_at on_match
    on_end s p =
        let q = add (b'<' ∷ b'/' ∷ (s ++ b'>' ∷ [])) p in
        if ltb 0 p.spos && is_at p.stack (p.spos - 1) s then on_match q else (q, true)

    unfoldable pub splitter : XmlElement (Splitter T)
    unfolding on_start on_end
    splitter (pi s) p = (p, true)
    splitter (start_tag s) p = (on_start s p, true)
    splitter (attr s) p = (add (b' ' ∷ s) p, true)
    splitter end_attr p = (add (b'>' ∷ []) p, true)
    splitter (end_tag s) p = on_end s p
    splitter (content s) p = (add s p, true)

    -- `XPathSplitter::process`
    pub split_process : (Bytes → List Bytes) → Bytes → Bytes → T → Splitter T × Bool
    unfolding splitter
    split_process split xpath input out = process splitter input (initial (split xpath) out)
