-- ===== src/Cases/Documents.antt =====
-- Documents for vent/XmlParser.cpp and vent/XPathSplitter.cpp.
use skweltch.Prelude.{◌≡◌, refl, true, List, [], ◌∷◌, Bytes, codes}
use skweltch.Xml.{Event, XmlElement, process, is_end}
use skweltch.Xml.Document.{
  opening, closing, instruction, Node, render, events, tell_all, IsDocument,
}
use skweltch.Xml.RoundTrip.{process-render}
use skweltch.Splitter.{Chunk, split_process}
use skweltch.Splitter.Elements.{Placed, elements_nodes, deliver, texts}
use skweltch.Splitter.Whole.{Parent, wrap, split_process-wrap}

-- An element that writes down what it is told, the last event first.
abbrev diary : XmlElement (List Event)
diary e s = (e ∷ s, true)

-- `<?xml?><a b>text</a>`
abbrev small : List Node
small =
    record { before = []; tag = instruction (codes "xml") }
    ∷ record { before = []; tag = opening (codes "a") (codes "b" ∷ []) }
    ∷ record { before = codes "text"; tag = closing (codes "a") }
    ∷ []

process-render_example :
    process diary (render small (codes "\n")) [] ≡ tell_all diary (events small) [] (λ s. (s, true))
unfolding is_end
process-render_example =
    process-render diary small (codes "\n") []
      (
        (tt, (refl, (refl, (refl, tt)))),
        (
          (tt, ((refl, tt), refl, ((refl, tt), tt))),
          (((refl, (refl, (refl, (refl, tt)))), (refl, tt)), tt),
        ),
      )
      (refl, tt)

-- A receiver that keeps every chunk, the last one first.
abbrev collect : Chunk (List Bytes)
collect c out = (c ∷ out, true)

abbrev pub outer : List Parent
outer = record { name = codes "r"; gap = codes " "; attrs = []; rest = codes "." } ∷ []

-- `<r><b>x</b>, <b c>y</b>.</r>`
abbrev pub inside_outer : List Placed
inside_outer =
    record { gap = []; elem = record { attrs = []; inner = []; rest = codes "x" } }
    ∷ record {
      gap = codes ", ";
      elem = record { attrs = codes "c" ∷ []; inner = []; rest = codes "y" };
    }
    ∷ []

abbrev pub names : Bytes → List Bytes
names path = codes "r" ∷ codes "b" ∷ []

pub outer-IsDocument : IsDocument (wrap outer (elements_nodes (codes "b") inside_outer))
unfolding is_end
outer-IsDocument = (
  ((refl, tt), ((refl, tt), refl, tt)),
  (
    (tt, ((refl, tt), refl, tt)),
    (
      ((refl, tt), (refl, tt)),
      (
        ((refl, (refl, tt)), ((refl, tt), refl, ((refl, tt), tt))),
        (((refl, tt), (refl, tt)), (((refl, tt), (refl, tt)), tt)),
      ),
    ),
  ),
)

split_process-wrap_example :
    ((split_process collect names
        (codes "r/b")
        (render (wrap outer (elements_nodes (codes "b") inside_outer)) [])
        []).0.out
      ≡ (deliver collect (texts (codes "b") inside_outer) []).0)
    × ((split_process collect names
          (codes "r/b")
          (render (wrap outer (elements_nodes (codes "b") inside_outer)) [])
          []).1
        ≡ (deliver collect (texts (codes "b") inside_outer) []).1)
unfolding is_end
split_process-wrap_example =
    split_process-wrap collect (codes "b") names (codes "r/b") [] outer inside_outer [] refl
      outer-IsDocument tt (tt, (tt, tt))
