-- ===== src/Splitter/Bounds.antt =====
-- The splitter reads its path only where there is one.
use skweltch.Prelude.{◌≤◌, ◌≡◌, refl, List, Bytes, length, arith}
use skweltch.Xml.{Event, start_tag, end_tag}
use skweltch.Xml.Invariant.{process-keeps}
use skweltch.Splitter.{
  Chunk, Splitter, initial, on_start, on_match, on_end, splitter, split_process,
}

-- `spos` is a depth of the path, so that `stack[spos]` is read only below the path's length, and
-- `stack[spos-1]` always within it; and the path stays.
pub record Inv {T : Type 0} (stack : List Bytes) (p : Splitter T) : Type 0 where
  pub path : p.stack ≡ stack
  pub depth : p.spos ≤ length p.stack

module _ {T : Type 0} (ch : Chunk T) (stack : List Bytes) where
  on_match-Inv : (p : Splitter T) → Inv stack p → Inv stack (on_match ch p).0
  unfolding on_match
  on_match-Inv p v = record { path = ground arith; depth = ground arith }

  splitter-Inv : (e : Event) (p : Splitter T) → Inv stack p → Inv stack (splitter ch e p).0
  unfolding splitter on_start on_end
  splitter-Inv (start_tag s) p v = record { path = ground arith; depth = ground arith }
  splitter-Inv (end_tag s) p v = ground (arith, on_match-Inv (record p { chunk = _ }) v)
  splitter-Inv _ p v = record { path = v.path; depth = v.depth }

-- Whatever the input, the position stays within the path.
pub split_process-Inv :
    {T : Type 0} (ch : Chunk T) (split : Bytes → List Bytes) (xpath input : Bytes) (out : T)
    → Inv (split xpath) (split_process ch split xpath input out).0
unfolding split_process
split_process-Inv ch split xpath input out =
    process-keeps (splitter ch) (Inv (split xpath)) (splitter-Inv ch (split xpath)) input
      (initial (split xpath) out) (record { path = refl; depth = omega arith })
