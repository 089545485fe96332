-- ===== src/Cases/Configs.antt =====
-- Configurations: looking up, changing, and the pipes of two blocks.
use skweltch.Prelude.{
  ℕ, ◌≡◌, refl, Bool, true, Option, none, some, List, [], ◌∷◌, Bytes, codes, ℤ, pos, negsuc, equal,
}
use skweltch.Result.{Result, ok}
use skweltch.Json.{
  Value, str, int, Object, end_object, pair, object, array, item, end_array, LexicalCast,
}
use skweltch.Json.JsonObject.{
  add, find_pair, find_here, find_item, get_value, set_value, push_back, has_pair, get_string,
  get_int, find_obj, match_name,
}
use skweltch.Json.JsonPath.{find_key, step, loop, get_place, get_token, get_path, set_path_int}
use skweltch.Json.JsonPath.Places.{get_path-total}
use skweltch.Json.JsonPath.Rounds.{by_names}
use skweltch.Json.JsonPath.Names.{get_path-dotted, get_path-set_path_int}
use skweltch.Pipes.{collect, collect_from, build_pipe}
use skweltch.Pipes as Pipes
use skweltch.Ports.{SocketCall, bind_to, connect_to, endpoint, call_and_linger, join}
use skweltch.Ports.Joined.{join-collect}

-- A `double` is a number here, and an `int` is written in a way that is easy to read back.
abbrev show_int : ℤ → Bytes
show_int (pos n) = n ∷ []
show_int (negsuc n) = b'-' ∷ n ∷ []

abbrev read_int : Bytes → Option ℤ
read_int [] = none
read_int (c ∷ []) = some (pos c)
read_int (c ∷ n ∷ cs) = some (negsuc n)

read_int-show_int : (n : ℤ) → read_int (show_int n) ≡ some n
read_int-show_int (pos n) = refl
read_int-show_int (negsuc n) = refl

abbrev cast : LexicalCast ℕ
cast = record {
  of_int = show_int;
  of_bool = λ b. codes "1";
  of_real = λ x. x ∷ [];
  to_int = read_int;
  to_int-of_int = read_int-show_int;
}

abbrev no_parts : Bytes → List Bytes
no_parts text = text ∷ []

-- { "high": 9, "low": 2, "high": 4 }
abbrev bounds : Object ℕ
bounds =
    pair (codes "high") (int (pos 9))
      (pair (codes "low") (int (pos 2)) (pair (codes "high") (int (pos 4)) end_object))

-- { "a": { "b": { "high": 9, … } } }
abbrev nested : Object ℕ
nested = pair (codes "a") (object (pair (codes "b") (object bounds) end_object)) end_object

get_path-total_example :
    ((r : Result (Value ℕ)) × (get_path cast no_parts (object nested) (codes "a[b].c") ≡ some r))
    × ((r : Result (Value ℕ)) × (set_path_int cast no_parts
            (object nested)
            (codes "a[b].c")
            (codes "high")
            (pos 1)
          ≡ some r))
get_path-total_example =
    get_path-total cast no_parts (object nested) (codes "a[b].c") (codes "high") (pos 1)

get_path-dotted_example :
    get_path cast no_parts (object nested) (codes "a.b")
    ≡ some (by_names (object nested) (codes "a") (codes "b" ∷ []))
get_path-dotted_example =
    get_path-dotted cast no_parts nested (codes "a") (codes "b" ∷ []) (λ e. cc e) (refl, tt)
      ((refl, tt), tt)

get_path-set_path_int_example :
    (v : Value ℕ) × (set_path_int cast no_parts (object nested) (codes "a.b") (codes "high") (pos 1)
      ≡ some (ok v))
    × (get_path cast no_parts v (codes "a.b")
        ≡ some (ok (object (set_value bounds (codes "high") (int (pos 1))))))
unfolding get_path get_place loop step get_token find_key equal
get_path-set_path_int_example =
    get_path-set_path_int cast no_parts nested (codes "a") (codes "b" ∷ []) (codes "high") (pos 1)
      bounds (λ e. cc e) (refl, tt) ((refl, tt), tt) refl

-- A machine of a sink, which binds, and of a worker, which connects to it.
abbrev sink_connections : Object ℕ
sink_connections =
    pair (codes "pullFrom")
      (object (
        pair (codes "mode") (str (codes "bind")) (
          pair (codes "address") (str (codes "*"))
            (pair (codes "port") (int (pos 5558)) end_object))))
      end_object

abbrev worker_connections : Object ℕ
worker_connections =
    pair (codes "pushTo")
      (object (
        pair (codes "mode") (str (codes "connect")) (
          pair (codes "block") (str (codes "sink"))
            (pair (codes "connection") (str (codes "pullFrom")) end_object))))
      end_object

abbrev sink_block : Object ℕ
sink_block = pair (codes "name") (str (codes "sink")) (
    pair (codes "node") (str (codes "localhost"))
      (pair (codes "connections") (object sink_connections) end_object))

abbrev worker_block : Object ℕ
worker_block =
    pair (codes "name") (str (codes "worker"))
      (pair (codes "connections") (object worker_connections) end_object)

abbrev two_blocks : Value ℕ
two_blocks = object (
    pair (codes "blocks") (array (item (object worker_block) (item (object sink_block) end_array)))
      end_object)

abbrev all_accepted : SocketCall → Bool
all_accepted c = true

-- What `collect` gives for each.
abbrev worker_pipes : Value ℕ
worker_pipes = object (
    pair (codes "pushTo")
      (object (
        pair (codes "node") (str (codes "localhost")) (
          pair (codes "port") (int (pos 5558))
            (pair (codes "mode") (str (codes "connect")) end_object))))
      end_object)

abbrev sink_pipes : Value ℕ
sink_pipes = object (
    pair (codes "pullFrom")
      (object (
        pair (codes "address") (str (codes "*")) (
          pair (codes "port") (int (pos 5558))
            (pair (codes "mode") (str (codes "bind")) end_object))))
      end_object)

join-collect_example :
    (join show_int all_accepted worker_pipes (codes "pushTo")
      ≡ ok (
          call_and_linger show_int all_accepted
            (connect_to (endpoint show_int (codes "localhost") (pos 5558)))))
    × (join show_int all_accepted sink_pipes (codes "pullFrom")
        ≡ ok (
            call_and_linger show_int all_accepted
              (bind_to (endpoint show_int (codes "*") (pos 5558)))))
unfolding get_path get_place loop step get_token find_key equal has_pair get_value get_string
    get_int add push_back find_obj find_pair find_here find_item match_name collect collect_from
    build_pipe Pipes.connect_to
join-collect_example =
    join-collect cast no_parts two_blocks show_int all_accepted worker_block sink_block
      worker_connections sink_connections (codes "pushTo") (codes "sink") (codes "pullFrom")
      (codes "localhost") (codes "*") (pos 5558) (pos 0) (pos 0) worker_pipes sink_pipes refl refl
      refl refl refl refl refl refl (search) refl refl refl refl refl refl refl refl
