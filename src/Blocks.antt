-- ===== src/Blocks.antt =====
-- util/blockinfo.cpp: what is told of a block of a machine, where what is written with `<<` is read
-- before the first part of it is written. How a stream writes an `int` is `decimal`,
-- and json_spirit's writer is `writer`.
pub mod Mock
pub mod Tested
use skweltch.Prelude.{
  Bool, true, false, Option, none, some, List, [], ◌∷◌, ◌++◌, Bytes, codes, equal, ℤ, pos, negsuc,
  if◌then◌else◌,
}
use skweltch.Result.{Result, ok, threw, undefined, other_error}
use skweltch.Json.{Value, Array, end_array, item, Object, end_object, pair, LexicalCast}
use skweltch.Json.JsonObject.{get_obj, get_string, get_int, get_array, get_child_as_string, write}
use skweltch.Stream.{Writing, ◌>>=◌, ◌>>◌, put, got}
use skweltch.Pipes.{collect}
use skweltch.Ports.{SocketCall, bind_to, connect_to, endpoint}

module _ {Real : Type 0} (decimal : ℤ → Bytes) where
  -- The line of blockinfo for a pipe, with what stands for its host.
  unfoldable pub write_host : Value Real → Bytes → Writing Unit
  write_host val mode = elim (equal mode (codes "bind")) [
    | true ↦ do address ← got (get_string val (codes "address")); put (codes " tcp://" ++ address)
    | false ↦ elim (equal mode (codes "connect")) [
      | true ↦ do node ← got (get_string val (codes "node")); put (codes " tcp://" ++ node)
      | false ↦ put (codes "\t\tbad mode\n")
    ]
  ]

  unfoldable pub write_listen : Value Real → Writing Unit
  unfolding write_host
  write_listen val = do
    mode ← got (get_string val (codes "mode"))
    put (codes "./listen " ++ mode)
    write_host val mode
    port ← got (get_int val (codes "port") (negsuc 0))
    put (codes ":" ++ (decimal port ++ codes "\n"))

  unfoldable pub write_listens : Object Real → Writing Unit
  unfolding write_listen
  write_listens end_object = put []
  write_listens (pair name val rest) = do write_listen val; write_listens rest

  module _ (cast : LexicalCast Real) (split : Bytes → List Bytes)
      (writer : Value Real → Bytes) where
    -- What blockinfo says of the block that it has found.
    unfoldable pub write_block : Value Real → Value Real → Writing Unit
    unfolding write_listens
    write_block config obj = do
      exe ← got (get_string obj (codes "exe"))
      put (codes "exe: " ++ (exe ++ codes "\n"))
      pipes ← got (collect cast split config obj (negsuc 0))
      put (codes "pipes: ")
      put (write writer pipes)
      put (codes "\n")
      settings ← got (get_child_as_string writer obj (codes "config"))
      put (codes "config: " ++ (settings ++ codes "\n"))
      put (codes "test with: \n")
      o ← got (get_obj pipes)
      write_listens o

    -- The two loops over the blocks, and the choice between them.
    unfoldable pub find_block : Value Real → Bytes → Array Real → Writing Unit
    unfolding write_block
    find_block config block end_array = put (codes "block " ++ (block ++ codes " not found.\n"))
    find_block config block (item obj rest) = do
      name ← got (get_string obj (codes "name"))
      elim (equal name block) [
        | true ↦ write_block config obj
        | false ↦ find_block config block rest
      ]

    unfoldable pub list_blocks : Array Real → Writing Unit
    list_blocks end_array = put []
    list_blocks (item obj rest) = do
      name ← got (get_string obj (codes "name"))
      put (name ++ codes "\n")
      list_blocks rest

    unfoldable pub block_info : Value Real → Option Bytes → Writing Unit
    unfolding find_block list_blocks
    block_info config named = do
      blocks ← got (get_array config (codes "blocks"))
      elim named [
        | none ↦ do put (codes "blocks: \n"); list_blocks blocks
        | some block ↦ find_block config block blocks
      ]
