-- ===== src/Rest/Drawn.antt =====
-- What the picture of the machine, of ui/rest/nodesHandler.cpp, is drawn from.
use skweltch.Prelude.{
  ℕ, suc, ◌≡◌, ap, sym, ◌∙◌, inl, inr, true, Bytes, codes, List, [], ◌∷◌, ◌++◌, ℤ, pos, Bool-cases,
  Option-cases, Option, some, length,
}
use skweltch.Result.{Result, ok, >>=-ok, same_ok}
use skweltch.Json.{Value, null, Array, LexicalCast}
use skweltch.Json.JsonObject.{get_array, get_child, get_string}
use skweltch.Rest.{
  Frame, Ids, blocks_of, give_ids, all_edges, all_nodes, with_links, read_frame, nodes_handler,
}
use skweltch.Rest.Context.{RestContext, RestAnswer, answered}
use skweltch.Rest.Edges.{ids_of, all_nodes-ids_of}
use skweltch.Rest.Shown.{Shows, all_nodes-Shows, Shows-with_entries}
use skweltch.Rest.Linked.{Links, all_nodes-Links}
use skweltch.Rest.Connected.{picture_shown, with_links-shown}

module _ {Real : Type 0} (cast : LexicalCast Real) (split_path : Bytes → List Bytes)
    (split : ℕ → Bytes → List Bytes)
    (layout : ℕ → List (ℕ × ℕ) → Frame → Option (List (ℤ × ℤ))) where
  -- The blocks are numbered from `i` on, and a number is kept with the name of its block, the last one
  -- first.
  abbrev pub Given : ℕ → List (Value Real × Bytes) → Ids → Ids → Type 0
  Given i [] before ids = ids ≡ before
  Given i ((block, type) ∷ blocks) before ids =
      (name : Bytes) × (get_string block (codes "name") ≡ ok name)
      × Given (suc i) blocks ((name, i) ∷ before) ids

  give_ids-Given :
      (blocks : List (Value Real × Bytes)) (i : ℕ) (before ids : Ids)
      → give_ids cast split_path blocks i before ≡ ok ids
      → Given i blocks before ids
  unfolding give_ids
  give_ids-Given [] i before ids e = sym (same_ok e)
  give_ids-Given ((block, type) ∷ blocks) i before ids e =
      let (name, named, later) = >>=-ok (get_string block (codes "name")) _ e in
      (name, named, give_ids-Given blocks (suc i) ((name, i) ∷ before) ids later)

  -- A picture of the blocks that the root has: each is shown at the center that is laid out for the id
  -- of its name, and the edges of the layout are the connections that the picture shows, with an id for
  -- each name.
  pub record Drawn (root picture : Value Real) : Type 0 where
    pub vent : Value Real
    pub background : Array Real
    pub reap : Value Real
    pub ids : Ids
    pub edges : List (ℕ × ℕ)
    pub frame : Frame
    pub centers : List (ℤ × ℤ)
    pub links : List (Bytes × Bytes)
    pub entries : List (Bytes × Value Real)
    pub has_vent : get_child root (codes "vent") ≡ ok vent
    pub has_background : get_array root (codes "background") ≡ ok background
    pub has_reap : get_child root (codes "reap") ≡ ok reap
    pub given :
        Given 0
          ((vent, codes "vent")
            ∷ (blocks_of cast split_path background ++ ((reap, codes "reap") ∷ [])))
          []
          ids
    pub laid :
        layout
          (length (
            (vent, codes "vent")
            ∷ (blocks_of cast split_path background ++ ((reap, codes "reap") ∷ []))))
          edges
          frame
        ≡ some centers
    pub linked :
        Links cast split_path
          ((vent, codes "vent")
            ∷ (blocks_of cast split_path background ++ ((reap, codes "reap") ∷ [])))
          links
    pub ends : ids_of ids links ≡ ok edges
    pub shows :
        Shows ids centers
          ((vent, codes "vent")
            ∷ (blocks_of cast split_path background ++ ((reap, codes "reap") ∷ [])))
          entries
    pub shown : picture ≡ picture_shown entries links

  abbrev answered_part : Value Real → Result (RestAnswer (Value Real)) → Value Real
  answered_part v (ok (answered picture)) = picture
  answered_part v _ = v

  -- Where the handler answers with a picture there is a configuration, and the picture has one entry
  -- for each of its blocks, the vent, those of the background and the reap, in this order: the block's
  -- name, type and positive count, and a rectangle of 100 by 100 at the center that the layout gives for
  -- the name's id. Behind the entries, if there are any, are the connections that the blocks direct to
  -- others. The edges that the layout is given are, in their order, the ids of their ends.
  pub nodes_handler-Drawn :
      (args : Bytes) (context : RestContext Real) (picture : Value Real)
      → nodes_handler cast split_path split layout args context ≡ ok (answered picture)
      → (context.loaded ≡ true) × Drawn context.root picture
  unfolding nodes_handler
  nodes_handler-Drawn args context picture e = elim (Bool-cases context.loaded) [
    | inr unloaded ↦ absurd (cc (rw unloaded at e))
    | inl loaded ↦ (loaded, drawn (rw loaded at e))
  ]
    where
      drawn :
          nodes_handler cast split_path split layout args
              (record { loaded = true; root = context.root })
            ≡ ok (answered picture)
          → Drawn context.root picture
      drawn e =
          let (frame, framed, e1) =
            >>=-ok
              (read_frame cast split_path split (split b'&' args)
                (record { size = pos 300; center_x = pos 150; center_y = pos 150 }))
              _ e in
          let (background, has_background, e2) =
            >>=-ok (get_array context.root (codes "background")) _ e1 in
          let (vent, has_vent, e3) = >>=-ok (get_child context.root (codes "vent")) _ e2 in
          let (reap, has_reap, e4) = >>=-ok (get_child context.root (codes "reap")) _ e3 in
          let blocks : List (Value Real × Bytes) =
            (vent, codes "vent")
            ∷ (blocks_of cast split_path background ++ ((reap, codes "reap") ∷ [])) in
          let (ids, given, e5) = >>=-ok (give_ids cast split_path blocks 0 []) _ e4 in
          let (edges, drawn_edges, e6) = >>=-ok (all_edges cast split_path ids blocks) _ e5 in
          elim (Option-cases (layout (length blocks) edges frame)) [
            | inl failed ↦ absurd (cc (rw failed at e6))
            | inr (centers, laid) ↦
                let ((nodes, links), placed, e7) =
                  >>=-ok (all_nodes cast split_path ids centers blocks null) _ (rw laid at e6) in
                let (entries, shows, together) =
                  all_nodes-Shows cast split_path ids centers blocks null nodes links placed in
                record {
                  vent = vent;
                  background = background;
                  reap = reap;
                  ids = ids;
                  edges = edges;
                  frame = frame;
                  centers = centers;
                  links = links;
                  entries = entries;
                  has_vent = has_vent;
                  has_background = has_background;
                  has_reap = has_reap;
                  given = give_ids-Given blocks 0 [] ids given;
                  laid = laid;
                  linked =
                      all_nodes-Links cast split_path ids centers blocks null nodes links placed;
                  ends =
                      all_nodes-ids_of cast split_path ids centers blocks null edges nodes links
                        drawn_edges placed;
                  shows = shows;
                  shown =
                      ap (answered_part picture) (sym e7)
                      ∙ ap (with_links cast split_path links)
                          (together ∙ Shows-with_entries ids centers _ _ entries shows)
                      ∙ with_links-shown cast split_path links entries;
                }
          ]
