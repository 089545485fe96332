-- ===== src/Http/Parser.antt =====
-- ui/request_parser.cpp and `parse` of ui/request_parser.hpp: the state machine that reads a request.
-- A `char` is a number below 256; those above 127 are the negative ones of a signed `char`.
pub mod Safety
pub mod RoundTrip
use skweltch.Prelude.{
  ℕ, ◌+◌, ◌-◌, ◌*◌, Bool, true, false, not, ◌&&◌, ◌||◌, Option, none, some, List, [], ◌∷◌, ◌++◌,
  Bytes, leb, ltb, ◌==◌, if◌then◌else◌, int_limit,
}
use skweltch.Http.Message.{Header, Request}

pub data State : Type 0 where
  method_start method uri : State
  http_version_h http_version_t_1 http_version_t_2 http_version_p http_version_slash : State
  http_version_major_start http_version_major http_version_minor_start http_version_minor : State
  expecting_newline_1 header_line_start header_lws header_name : State
  space_before_header_value header_value expecting_newline_2 expecting_newline_3 : State

-- The parser's `state_`, and the request that it fills.
pub record Parsing : Type 0 where
  pub state : State
  pub req : Request

-- A `tribool` and the state after it; or what C++ leaves undefined, the last header of none and an
-- `int` that overflows.
pub data Outcome : Type 0 where
  indeterminate : Parsing → Outcome
  accepted : Parsing → Outcome
  rejected : Parsing → Outcome
  no_header : Outcome
  overflow : Outcome

unfoldable pub is_char : ℕ → Bool
is_char c = leb c 127

unfoldable pub is_ctl : ℕ → Bool
is_ctl c = leb c 31 || c == 127

unfoldable pub is_tspecial : ℕ → Bool
is_tspecial c =
    (c == b'(' || c == b')' || c == b'<' || c == b'>' || c == b'@')
    || (c == b',' || c == b';' || c == b':' || c == b'\\' || c == b'"')
    || (c == b'/' || c == b'[' || c == b']' || c == b'?' || c == b'=')
    || (c == b'{' || c == b'}' || c == b' ' || c == b'\t')

unfoldable pub is_digit : ℕ → Bool
is_digit c = leb b'0' c && leb c b'9'

-- `!is_char(input) || is_ctl(input) || is_tspecial(input)`, negated.
unfoldable pub is_token : ℕ → Bool
unfolding is_char is_ctl is_tspecial
is_token c = not (not (is_char c) || is_ctl c || is_tspecial c)

abbrev pub go : State → Request → Outcome
go st r = indeterminate (record { state = st; req = r })

-- `headers.back()`, changed.
pub on_back : (Header → Header) → List Header → Option (List Header)
on_back f [] = none
on_back f (h ∷ []) = some (f h ∷ [])
on_back f (h ∷ i ∷ hs) = elim (on_back f (i ∷ hs)) [ none ↦ none | some js ↦ some (h ∷ js) ]

pub back_go : State → (Header → Header) → Request → Outcome
unfolding on_back
back_go st f r = elim (on_back f r.headers) [
  | none ↦ no_header
  | some hs ↦ go st (record r { headers = hs })
]

abbrev pub push_name : ℕ → Header → Header
push_name c h = record h { name = h.name ++ c ∷ [] }

abbrev pub push_value : ℕ → Header → Header
push_value c h = record h { value = h.value ++ c ∷ [] }

-- `v * 10 + input - '0'`, an `int`.
pub push_digit : ℕ → ℕ → Option ℕ
push_digit v c = if ltb (v * 10 + c) int_limit then some (v * 10 + c - b'0') else none

pub major_go : Request → ℕ → Outcome
unfolding push_digit
major_go r c = elim (push_digit r.http_version_major c) [
  | none ↦ overflow
  | some v ↦ go http_version_major (record r { http_version_major = v })
]

pub minor_go : Request → ℕ → Outcome
unfolding push_digit
minor_go r c = elim (push_digit r.http_version_minor c) [
  | none ↦ overflow
  | some v ↦ go http_version_minor (record r { http_version_minor = v })
]

-- One character `c` is wanted.
abbrev pub want : ℕ → State → Parsing → ℕ → Outcome
want c next p input = if input == c then go next p.req else rejected p

-- `case method_start` to `case uri`
pub consume_line : State → Parsing → ℕ → Outcome
unfolding is_token is_ctl
consume_line method_start p c =
    if is_token c
    then go method (record (p.req) { method = p.req.method ++ c ∷ [] })
    else rejected p
consume_line method p c =
    if c == b' '
    then go uri p.req
    else if is_token c
    then go method (record (p.req) { method = p.req.method ++ c ∷ [] })
    else rejected p
consume_line _ p c =
    if c == b' '
    then go http_version_h p.req
    else if is_ctl c
    then rejected p
    else go uri (record (p.req) { uri = p.req.uri ++ c ∷ [] })

-- `case http_version_h` to `case http_version_minor`
pub consume_version : State → Parsing → ℕ → Outcome
unfolding major_go minor_go is_digit
consume_version http_version_h p c = want b'H' http_version_t_1 p c
consume_version http_version_t_1 p c = want b'T' http_version_t_2 p c
consume_version http_version_t_2 p c = want b'T' http_version_p p c
consume_version http_version_p p c = want b'P' http_version_slash p c
consume_version http_version_slash p c =
    if c == b'/'
    then go http_version_major_start
        (record (p.req) { http_version_major = 0; http_version_minor = 0 })
    else rejected p
consume_version http_version_major_start p c = if is_digit c then major_go p.req c else rejected p
consume_version http_version_major p c =
    if c == b'.'
    then go http_version_minor_start p.req
    else if is_digit c
    then major_go p.req c
    else rejected p
consume_version http_version_minor_start p c = if is_digit c then minor_go p.req c else rejected p
consume_version _ p c =
    if c == b'\r'
    then go expecting_newline_1 p.req
    else if is_digit c
    then minor_go p.req c
    else rejected p

abbrev pub is_empty : List Header → Bool
is_empty [] = true
is_empty (h ∷ hs) = false

abbrev pub new_header : ℕ → Header
new_header c = record { name = c ∷ []; value = [] }

-- `case expecting_newline_1` to `case expecting_newline_3`
pub consume_header : State → Parsing → ℕ → Outcome
unfolding back_go is_token is_ctl
consume_header expecting_newline_1 p c = want b'\n' header_line_start p c
consume_header header_line_start p c =
    if c == b'\r'
    then go expecting_newline_3 p.req
    else if not (is_empty p.req.headers) && (c == b' ' || c == b'\t')
    then go header_lws p.req
    else if is_token c
    then go header_name (record (p.req) { headers = p.req.headers ++ new_header c ∷ [] })
    else rejected p
consume_header header_lws p c =
    if c == b'\r'
    then go expecting_newline_2 p.req
    else if c == b' ' || c == b'\t'
    then go header_lws p.req
    else if is_ctl c
    then rejected p
    else back_go header_value (push_value c) p.req
consume_header header_name p c =
    if c == b':'
    then go space_before_header_value p.req
    else if is_token c
    then back_go header_name (push_name c) p.req
    else rejected p
consume_header space_before_header_value p c = want b' ' header_value p c
consume_header header_value p c =
    if c == b'\r'
    then go expecting_newline_2 p.req
    else if is_ctl c
    then rejected p
    else back_go header_value (push_value c) p.req
consume_header expecting_newline_2 p c = want b'\n' header_line_start p c
consume_header _ p c = if c == b'\n' then accepted p else rejected p

-- `consume`
pub consume_in : State → Parsing → ℕ → Outcome
unfolding consume_line consume_version consume_header
consume_in method_start p c = consume_line method_start p c
consume_in method p c = consume_line method p c
consume_in uri p c = consume_line uri p c
consume_in http_version_h p c = consume_version http_version_h p c
consume_in http_version_t_1 p c = consume_version http_version_t_1 p c
consume_in http_version_t_2 p c = consume_version http_version_t_2 p c
consume_in http_version_p p c = consume_version http_version_p p c
consume_in http_version_slash p c = consume_version http_version_slash p c
consume_in http_version_major_start p c = consume_version http_version_major_start p c
consume_in http_version_major p c = consume_version http_version_major p c
consume_in http_version_minor_start p c = consume_version http_version_minor_start p c
consume_in http_version_minor p c = consume_version http_version_minor p c
consume_in st p c = consume_header st p c

abbrev pub consume : Parsing → ℕ → Outcome
consume p c = consume_in p.state p c

-- `parse`, with the part of the buffer that it has not read.
unfoldable pub parse : Bytes → Parsing → Outcome × Bytes
unfolding consume_in
parse [] p = (indeterminate p, [])
parse (c ∷ cs) p = elim (consume p c) [
  | indeterminate q ↦ parse cs q
  | accepted q ↦ (accepted q, cs)
  | rejected q ↦ (rejected q, cs)
  | no_header ↦ (no_header, cs)
  | overflow ↦ (overflow, cs)
]

-- A new `request_parser`, and `reset`.
abbrev pub start : Request → Parsing
start r = record { state = method_start; req = r }
