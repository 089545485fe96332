-- ===== src/Splitter/Elements.antt =====
-- A whole document through the splitter: the elements at the end of its path, one after another.
use skweltch.Prelude.{
  ◌≡◌, refl, ap, ◌∙◌, Bool, true, false, inl, inr, Bool-cases, List, [], ◌∷◌, ◌++◌, Bytes,
  if◌then◌else◌, All, map,
}
use skweltch.Xml.{Event}
use skweltch.Xml.Document.{Node, events}
use skweltch.Xml.RoundTrip.{tell_all-append}
use skweltch.Splitter.{Chunk, Splitter, splitter}
use skweltch.Splitter.Chunks.{AllInner, told}
use skweltch.Splitter.Element.{
  Element, element_nodes, element_text, events-append, Before, hand_over, told_element,
}

-- An element with the text before it.
pub record Placed : Type 0 where
  pub gap : Bytes
  pub elem : Element

abbrev pub elements_nodes : Bytes → List Placed → List Node
elements_nodes leaf [] = []
elements_nodes leaf (e ∷ es) = element_nodes leaf e.gap e.elem ++ elements_nodes leaf es

-- The receiver is given chunks in order, up to the first at which it stops.
abbrev pub deliver : {T : Type 0} → Chunk T → List Bytes → T → T × Bool
deliver ch [] t = (t, true)
deliver ch (s ∷ ss) t =
    let (u, more) = ch s t in let later = deliver ch ss u in if more then later else (u, false)

abbrev pub texts : Bytes → List Placed → List Bytes
texts leaf = map (λ e. element_text leaf e.elem)

module _ {T : Type 0} (ch : Chunk T) (leaf : Bytes) where
  -- What is done at the end leaves the receiver, and goes on.
  abbrev pub Passes : Splitter T → (Splitter T → Splitter T × Bool) → Type 0
  Passes p k =
      (c : Bytes) (t : T)
      → let q : Splitter T = record p { chunk = c; out = t } in ((k q).0.out ≡ t) × ((k q).1 ≡ true)

  pub told_elements :
      (es : List Placed) (p : Splitter T) (k : Splitter T → Splitter T × Bool)
      → Before ch leaf p
      → All (λ e. AllInner leaf e.elem.inner) es
      → Passes p k
      → let ended = told ch leaf (events (elements_nodes leaf es)) p k in
        (ended.0.out ≡ (deliver ch (texts leaf es) p.out).0)
        × (ended.1 ≡ (deliver ch (texts leaf es) p.out).1)
  told_elements [] p k v h pass = pass p.chunk p.out
  told_elements (e ∷ es) p k v (hi, hs) pass =
      let text = element_text leaf e.elem in
      let nodes = element_nodes leaf e.gap e.elem in
      let more = elements_nodes leaf es in
      let next : Splitter T = record p { chunk = text; out = (ch text p.out).0 } in
      let first_done : told ch leaf (events (nodes ++ more)) p k
          ≡ hand_over ch leaf text p (λ q. told ch leaf (events more) q k) =
        ap (λ (x : List Event). told ch leaf x p k) (events-append nodes more)
        ∙ tell_all-append (splitter ch) (events nodes) (events more) p k
        ∙ told_element ch leaf e.gap e.elem p (λ q. told ch leaf (events more) q k) v hi in
      let rest =
        told_elements es next k (record { depth = v.depth; at_leaf = v.at_leaf }) hs pass in
      elim (Bool-cases (ch text p.out).1) [
        | inl goes ↦ rw (first_done, goes) rest
        | inr stops ↦ rw (first_done, stops) (refl, refl)
      ]
