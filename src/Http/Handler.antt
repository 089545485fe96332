-- ===== src/Http/Handler.antt =====
-- ui/request_handler.cpp, ui/RestHandler.cpp and ui/mime_types.cpp: what the server answers to a
-- request. The files that can be opened and the handlers of other source files are
-- arguments, of which that of `/rest/load` opens files itself, as is
-- `boost::lexical_cast<std::string>` of a size, `decimal`.
pub mod Decode
pub mod Files
use skweltch.Prelude.{
  ℕ, suc, ◌+◌, ◌-◌, ◌*◌, Bool, true, false, not, ◌&&◌, ◌||◌, Option, none, some, List, [], ◌∷◌,
  ◌++◌, Bytes, codes, equal, ltb, leb, ◌==◌, if◌then◌else◌, length, drop,
}
use skweltch.Http.Message.{Header, Request}
use skweltch.Http.Reply.{Status, ok, bad_request, not_found, Reply, stock_reply}

-- A digit in `std::hex`.
unfoldable pub hex_digit : ℕ → Option ℕ
hex_digit c =
    if leb b'0' c && leb c b'9'
    then some (c - b'0')
    else if leb b'a' c && leb c b'f'
    then some (c - b'a' + 10)
    else if leb b'A' c && leb c b'F'
    then some (c - b'A' + 10)
    else none

-- `std::isspace`
pub is_space : ℕ → Bool
is_space c = c == b' ' || (leb 9 c && leb c 13)

-- `is >> std::hex >> value` on two characters, and the cast of the value to a `char`: white space
-- and a sign may stand before the digits, `0x` has none, and what follows a digit is left unread.
unfoldable pub hex_pair : ℕ → ℕ → Option ℕ
unfolding hex_digit is_space
hex_pair a b =
    if is_space a || a == b'+'
    then hex_digit b
    else if a == b'-'
    then elim (hex_digit b) [ none ↦ none | some y ↦ some (if y == 0 then 0 else 256 - y) ]
    else if a == b'0' && (b == b'x' || b == b'X')
    then none
    else elim (hex_digit a) [
      | none ↦ none
      | some x ↦ elim (hex_digit b) [ none ↦ some x | some y ↦ some (x * 16 + y) ]
    ]

-- A character that stands for one.
abbrev pub plain : ℕ → ℕ
plain c = if c == b'+' then b' ' else c

abbrev pub prepend : ℕ → Option Bytes → Option Bytes
prepend c none = none
prepend c (some cs) = some (c ∷ cs)

-- `url_decode`, `none` where it returns false.
unfoldable pub url_decode : Bytes → Option Bytes
unfolding hex_pair
url_decode [] = some []
url_decode (c ∷ []) = if c == b'%' then none else some (plain c ∷ [])
url_decode (c ∷ a ∷ []) =
    let later = url_decode (a ∷ []) in if c == b'%' then none else prepend (plain c) later
url_decode (c ∷ a ∷ b ∷ cs) =
    let later = url_decode (a ∷ b ∷ cs) in
    let behind = url_decode cs in
    if c == b'%'
    then elim (hex_pair a b) [ none ↦ none | some v ↦ prepend v behind ]
    else prepend (plain c) later

-- `request_path.find("..") != npos`
pub has_dots : Bytes → Bool
has_dots [] = false
has_dots (c ∷ []) = false
has_dots (a ∷ b ∷ cs) = (a == b'.' && b == b'.') || has_dots (b ∷ cs)

-- `find_last_of` a character
pub find_last : ℕ → Bytes → Option ℕ
find_last c [] = none
find_last c (d ∷ cs) = elim (find_last c cs) [
  | some i ↦ some (suc i)
  | none ↦ if d == c then some 0 else none
]

-- The file extension.
pub extension : Bytes → Bytes
unfolding find_last
extension path = elim (find_last b'.' path) [
  | none ↦ []
  | some dot ↦ elim (find_last b'/' path) [
    | none ↦ []
    | some slash ↦ if ltb slash dot then drop (dot + 1) path else []
  ]
]

-- `mappings`, and `extension_to_type`
abbrev pub mappings : List (Bytes × Bytes)
mappings =
    (codes "gif", codes "image/gif")
    ∷ (codes "htm", codes "text/html")
    ∷ (codes "html", codes "text/html")
    ∷ (codes "jpg", codes "image/jpeg")
    ∷ (codes "png", codes "image/png")
    ∷ []

pub find_type : List (Bytes × Bytes) → Bytes → Bytes
find_type [] e = codes "text/plain"
find_type ((key, mime) ∷ ms) e = if equal key e then mime else find_type ms e

abbrev pub extension_to_type : Bytes → Bytes
extension_to_type = find_type mappings

-- `path.find(prefix) == 0`
unfoldable pub starts_with : Bytes → Bytes → Bool
starts_with [] path = true
starts_with (c ∷ cs) [] = false
starts_with (c ∷ cs) (d ∷ path) = c == d && starts_with cs path

-- `path.substr(0, q)` and `path.substr(q+1)` at the first `?`
abbrev pub cut : Bytes → Bytes × Bytes
cut [] = ([], [])
cut (c ∷ cs) = let (p, args) = cut cs in if c == b'?' then ([], cs) else (c ∷ p, args)

-- `request_path[request_path.size() - 1] == '/'`
unfoldable pub ends_in_slash : Bytes → Bool
ends_in_slash [] = false
ends_in_slash (c ∷ []) = c == b'/'
ends_in_slash (c ∷ d ∷ cs) = ends_in_slash (d ∷ cs)

-- Not empty, and `request_path[0] == '/'`
pub is_absolute : Bytes → Bool
is_absolute [] = false
is_absolute (c ∷ cs) = c == b'/'

abbrev pub with_index : Bytes → Bytes
with_index path = if ends_in_slash path then path ++ codes "index.html" else path

-- `c_str()`, as a path is opened by it: the bytes before the first 0.
abbrev pub c_str : Bytes → Bytes
c_str [] = []
c_str (c ∷ cs) = if c == 0 then [] else c ∷ c_str cs

-- A handler changes the context, and the headers and the content of a reply, and returns a status.
abbrev pub Handler : Type 0 → Type 0
Handler Context = Context → Bytes → Reply → Context × Reply

-- The map of `RestHandler`, the entry added last first.
abbrev pub Handlers : Type 0 → Type 0
Handlers Context = List (Bytes × Handler Context)

-- `isRest`
abbrev pub is_rest : Bytes → Bool
is_rest = starts_with (codes "/rest/")

module _ {Context : Type 0} where
  abbrev pub add : Bytes → Handler Context → Handlers Context → Handlers Context
  add path h hs = (path, h) ∷ hs

  pub lookup : Bytes → Handlers Context → Option (Handler Context)
  lookup path [] = none
  lookup path ((key, h) ∷ hs) = if equal key path then some h else lookup path hs

  -- `RestHandler::call`
  pub call_handler : Handlers Context → Bytes → Context → Reply → Context × Reply
  unfolding lookup
  call_handler hs path context rep =
      let (p, args) = cut path in
      elim (lookup p hs) [
        | some h ↦ h context args rep
        | none ↦ (context, record rep { status = bad_request })
      ]

  abbrev success_handler : Handler Context
  success_handler context args rep = (context, record rep { status = ok })

  abbrev bad_request_handler : Handler Context
  bad_request_handler context args rep = (context, record rep { status = bad_request })

  module _ (decimal : ℕ → Bytes) (files : Bytes → Option Bytes) (nodes : Handler Context)
      (load : (Bytes → Option Bytes) → Handler Context) where
    -- `makeHeaders`, and the headers of a file.
    abbrev pub make_headers : ℕ → Bytes → List Header
    make_headers n mime =
        record { name = codes "Content-Length"; value = decimal n }
        ∷ record { name = codes "Content-Type"; value = mime }
        ∷ []

    abbrev hello_handler : Handler Context
    hello_handler context args rep = (
      context,
      record {
        status = ok;
        headers = make_headers 5 (codes "text/text");
        content = rep.content ++ codes "hello";
      },
    )

    -- `RestHandler()`, with the two handlers that `handle_request` adds.
    abbrev pub rest_handlers : Handlers Context
    rest_handlers = add (codes "/rest/load") (load files) (
        add (codes "/rest/nodes") nodes (
          add (codes "/rest/hello") hello_handler (
            add (codes "/rest/badRequest") bad_request_handler
              (add (codes "/rest/success") success_handler []))))

    -- The file at a path, read whole.
    pub send_file : Bytes → Bytes → Reply → Reply
    unfolding extension find_type
    send_file doc_root path rep = elim (files (c_str (doc_root ++ path))) [
      | none ↦ stock_reply decimal not_found
      | some data_read ↦
          let all = rep.content ++ data_read in
          record {
            status = ok;
            headers = make_headers (length all) (extension_to_type (extension path));
            content = all;
          }
    ]

    -- The rest of `handle_request`, from the REST handlers on.
    pub answer : Bytes → Bytes → Context → Reply → Context × Reply
    unfolding call_handler starts_with send_file
    answer doc_root path context rep =
        if is_rest path
        then call_handler rest_handlers path context rep
        else (context, send_file doc_root path rep)

    -- `handle_request`
    unfoldable pub handle_request : Bytes → Request → Context → Reply → Context × Reply
    unfolding url_decode has_dots ends_in_slash is_absolute answer
    handle_request doc_root req context rep = elim (url_decode req.uri) [
      | none ↦ (context, stock_reply decimal bad_request)
      | some path ↦
          if not (is_absolute path) || has_dots path
          then (context, stock_reply decimal bad_request)
          else answer doc_root (with_index path) context rep
    ]
