-- ===== src/Rest.antt =====
-- ui/rest/nodesHandler.cpp: the picture of the machine that the web server has loaded. Boost's splitting
-- of a text is a parameter, and so is what GraphLayout.cpp makes of vertices, edges and a frame by its
-- calls of boost's layout: the centers, by id, or none where it throws.
pub mod Context
pub mod Edges
pub mod Shown
pub mod Connected
pub mod Linked
pub mod Drawn
use skweltch.Prelude.{
  ℕ, zero, suc, ◌+◌, Bool, true, false, not, ◌&&◌, ◌||◌, Option, none, some, Bytes, codes, equal,
  ◌==◌, if◌then◌else◌, List, [], ◌∷◌, ◌++◌, length, get_elem?, ℤ, pos, negsuc,
}
use skweltch.Result.{Result, ok, threw, undefined, other_error, ◌>>=◌}
use skweltch.Json.{
  Value, null, str, int, array, object, Array, end_array, item, Object, end_object, pair,
  LexicalCast,
}
use skweltch.Json.JsonObject.{
  get_obj, get_string, get_int, get_array, get_child, add, is_null, push_item,
}
use skweltch.Json.JsonPath.{get_path}
use skweltch.Pipes.{ended}
use skweltch.Vent.{is_positive}
use skweltch.Rest.Context.{RestContext, RestAnswer, no_content, bad_request, answered}

-- The size and the center of the picture.
pub record Frame : Type 0 where
  pub size : ℤ
  pub center_x : ℤ
  pub center_y : ℤ

abbrev pub Ids : Type 0
Ids = List (Bytes × ℕ)

-- `ids.at`, which throws, with the last id that a name has been given first.
unfoldable pub id_at : Ids → Bytes → Result ℕ
id_at [] name = threw other_error
id_at ((key, id) ∷ ids) name = let rest = id_at ids name in if equal key name then ok id else rest

module _ {Real : Type 0} (cast : LexicalCast Real) (split_path : Bytes → List Bytes) where
  -- The connections of a block.
  unfoldable pub connections_of : Value Real → Result (Object Real)
  connections_of block = do
    v ← ended (get_path cast split_path block (codes "config.connections"))
    if is_null v then ok end_object else get_obj v

  -- `addEdges` of a block's name and its connections, and of a block.
  unfoldable pub edges_from : Ids → Bytes → Object Real → Result (List (ℕ × ℕ))
  unfolding id_at
  edges_from ids name end_object = ok []
  edges_from ids name (pair key o more) = do
    direction ← get_string o (codes "direction")
    if equal direction (codes "to")
        then (do
          here ← id_at ids name
          block ← get_string o (codes "block")
          there ← id_at ids block
          if here == there
              then threw other_error
              else (edges_from ids name more >>= λ edges. ok ((here, there) ∷ edges)))
        else edges_from ids name more

  unfoldable pub add_edges : Ids → Value Real → Result (List (ℕ × ℕ))
  unfolding edges_from connections_of
  add_edges ids block = do
    name ← get_string block (codes "name")
    o ← connections_of block
    edges_from ids name o

  -- The connections that `addNode` reports.
  unfoldable pub links_from : Bytes → Object Real → Result (List (Bytes × Bytes))
  links_from name end_object = ok []
  links_from name (pair key o more) = do
    direction ← get_string o (codes "direction")
    if equal direction (codes "to")
        then (do
          block ← get_string o (codes "block")
          links ← links_from name more
          ok ((name, block) ∷ links))
        else links_from name more

  abbrev pub add_rect : ℤ × ℤ → Value Real → Value Real
  add_rect (x, y) info =
      add (codes "rect")
        (add (codes "height") (int (pos 100)) (
          add (codes "width") (int (pos 100))
            (add (codes "top") (int y) (add (codes "left") (int x) null))))
        info

  -- `addNode`: the picture with the block, and its connections.
  unfoldable pub add_node :
      Value Real → Value Real → Bytes → ℤ × ℤ → Result (Value Real × List (Bytes × Bytes))
  unfolding connections_of links_from
  add_node picture block type center = do
    name ← get_string block (codes "name")
    count ← get_int block (codes "count") (pos 0)
    o ← connections_of block
    links ← links_from name o
    (let typed = add (codes "type") (str type) null in
        ok (
          add name
              (add_rect center
                (if is_positive count then add (codes "count") (int count) typed else typed))
              picture,
          links,
        ))

  -- The blocks of an array.
  abbrev pub blocks_of : Array Real → List (Value Real × Bytes)
  blocks_of end_array = []
  blocks_of (item v a) = (v, codes "background") ∷ blocks_of a

  -- `ids[name] = id++` for each block.
  unfoldable pub give_ids : List (Value Real × Bytes) → ℕ → Ids → Result Ids
  give_ids [] id ids = ok ids
  give_ids ((block, type) ∷ blocks) id ids =
      get_string block (codes "name") >>= λ name. give_ids blocks (suc id) ((name, id) ∷ ids)

  unfoldable pub all_edges : Ids → List (Value Real × Bytes) → Result (List (ℕ × ℕ))
  unfolding add_edges
  all_edges ids [] = ok []
  all_edges ids ((block, type) ∷ blocks) = do
    edges ← add_edges ids block
    more ← all_edges ids blocks
    ok (edges ++ more)

  abbrev pub center_at : List (ℤ × ℤ) → ℕ → Result (ℤ × ℤ)
  center_at centers id = elim (get_elem? centers id) [ none ↦ undefined | some c ↦ ok c ]

  -- The picture with all the blocks, and the connections.
  unfoldable pub all_nodes :
      Ids
      → List (ℤ × ℤ)
      → List (Value Real × Bytes)
      → Value Real
      → Result (Value Real × List (Bytes × Bytes))
  unfolding add_node
  all_nodes ids centers [] picture = ok (picture, [])
  all_nodes ids centers ((block, type) ∷ blocks) picture = do
    name ← get_string block (codes "name")
    id ← id_at ids name
    center ← center_at centers id
    (now, links) ← add_node picture block type center
    (last, more) ← all_nodes ids centers blocks now
    ok (last, links ++ more)

  abbrev pub links_array : List (Bytes × Bytes) → Array Real → Array Real
  links_array [] a = a
  links_array ((here, there) ∷ links) a =
      links_array links
        (push_item a (add (codes "to") (str there) (add (codes "from") (str here) null)))

  abbrev pub with_links : List (Bytes × Bytes) → Value Real → Value Real
  with_links [] picture = picture
  with_links (link ∷ links) picture =
      add (codes "connections") (array (links_array (link ∷ links) end_array)) picture

  -- An argument, split at its `=`; `nvp[1]` may not be there.
  abbrev pub number_of : List Bytes → Result ℤ
  number_of [] = undefined
  number_of (text ∷ more) = elim (cast.to_int text) [ none ↦ threw other_error | some n ↦ ok n ]

  abbrev pub set_frame : List Bytes → Frame → Result Frame
  set_frame [] frame = ok frame
  set_frame (name ∷ values) frame =
      if equal name (codes "size")
      then (number_of values >>= λ n. ok (record frame { size = n }))
      else if equal name (codes "centerx")
      then (number_of values >>= λ n. ok (record frame { center_x = n }))
      else if equal name (codes "centery")
      then (number_of values >>= λ n. ok (record frame { center_y = n }))
      else ok frame

  unfoldable pub read_frame : (ℕ → Bytes → List Bytes) → List Bytes → Frame → Result Frame
  read_frame split [] frame = ok frame
  read_frame split (arg ∷ args) frame =
      set_frame (split b'=' arg) frame >>= λ f. read_frame split args f

  module _ (split : ℕ → Bytes → List Bytes)
      (layout : ℕ → List (ℕ × ℕ) → Frame → Option (List (ℤ × ℤ))) where
    -- What is handed to the layout, and the answer of what it gives.
    abbrev pub picture_of :
        Ids → List (Value Real × Bytes) → Option (List (ℤ × ℤ)) → Result (RestAnswer (Value Real))
    picture_of ids blocks none = ok bad_request
    picture_of ids blocks (some centers) = all_nodes ids centers blocks null >>= λ (picture, links).
        ok (answered (with_links links picture))

    -- `nodesHandler`
    unfoldable pub nodes_handler : Bytes → RestContext Real → Result (RestAnswer (Value Real))
    unfolding read_frame give_ids all_edges all_nodes
    nodes_handler args context =
        if context.loaded
        then (do
          frame ←
              read_frame split (split b'&' args)
                (record { size = pos 300; center_x = pos 150; center_y = pos 150 })
          background ← get_array context.root (codes "background")
          vent ← get_child context.root (codes "vent")
          reap ← get_child context.root (codes "reap")
          (let blocks =
                (vent, codes "vent") ∷ (blocks_of background ++ ((reap, codes "reap") ∷ [])) in
              do
                ids ← give_ids blocks 0 []
                edges ← all_edges ids blocks
                picture_of ids blocks (layout (length blocks) edges frame)))
        else ok no_content
