-- ===== src/Http/Parser/Safety.antt =====
-- The parser never asks for the last header of none, and does not care how its input is cut.
use skweltch.Prelude.{
  not, ◌&&◌, ◌||◌, ℕ, ◌≡◌, ◌≢◌, refl, Bool, true, false, some, List, [], ◌∷◌, ◌++◌, Bytes, arith,
  ◌==◌, if◌then◌else◌,
}
use skweltch.Http.Message.{Header, Request}
use skweltch.Http.Parser.{
  State, method_start, method, uri, http_version_h, http_version_t_1, http_version_t_2,
  http_version_p, http_version_slash, http_version_major_start, http_version_major,
  http_version_minor_start, http_version_minor, expecting_newline_1, header_line_start, header_lws,
  header_name, space_before_header_value, header_value, expecting_newline_2, Parsing, Outcome,
  indeterminate, accepted, rejected, no_header, overflow, is_token, is_ctl, on_back, back_go,
  major_go, minor_go, consume_line, consume_version, consume_header, consume_in, consume, parse,
  start, go, is_empty, new_header, push_name, push_value,
}

-- In these states there is a header to add to.
abbrev HasHeader : State → List Header → Type 0
HasHeader header_lws hs = hs ≢ []
HasHeader header_name hs = hs ≢ []
HasHeader space_before_header_value hs = hs ≢ []
HasHeader header_value hs = hs ≢ []
HasHeader _ hs = Unit

abbrev Safe : Outcome → Type 0
Safe (indeterminate q) = HasHeader q.state q.req.headers
Safe no_header = ⊥
Safe _ = Unit

append_ne_nil : (hs : List Header) (h : Header) → hs ++ h ∷ [] ≢ []
append_ne_nil [] h e = cc e
append_ne_nil (x ∷ hs) h e = cc e

on_back-some :
    (f : Header → Header) (hs : List Header)
    → hs ≢ []
    → (js : List Header) × (on_back f hs ≡ some js) × (js ≢ [])
unfolding on_back
on_back-some f [] h = absurd (h refl)
on_back-some f (x ∷ []) h = (f x ∷ [], refl, λ e. cc e)
on_back-some f (x ∷ y ∷ hs) h =
    let (js, e, _) = on_back-some f (y ∷ hs) (λ e. cc e) in (x ∷ js, rw e, λ e. cc e)

HasHeader-of_ne : (st : State) (hs : List Header) → hs ≢ [] → HasHeader st hs
HasHeader-of_ne header_lws hs h = h
HasHeader-of_ne header_name hs h = h
HasHeader-of_ne space_before_header_value hs h = h
HasHeader-of_ne header_value hs h = h
HasHeader-of_ne _ hs h = tt

back_go-Safe :
    (st : State) (f : Header → Header) (r : Request) → r.headers ≢ [] → Safe (back_go st f r)
unfolding back_go
back_go-Safe st f r h =
    let (js, e, ne) = on_back-some f r.headers h in rw (e, back_go) (HasHeader-of_ne st js ne)

if-Safe :
    (b : Bool) (x y : Outcome)
    → (b ≡ true → Safe x)
    → (b ≡ false → Safe y)
    → Safe (if b then x else y)
if-Safe true x y h k = h refl
if-Safe false x y h k = k refl

-- A state that is wanted next, where no header is needed.
want-Safe :
    (c : ℕ) (st : State) (p : Parsing) (d : ℕ)
    → ((hs : List Header) → HasHeader st hs)
    → Safe (if d == c then go st p.req else rejected p)
want-Safe c st p d h = if-Safe (d == c) _ _ (λ _. h p.req.headers) (λ _. tt)

consume_line-Safe : (st : State) (p : Parsing) (c : ℕ) → Safe (consume_line st p c)
unfolding consume_line
consume_line-Safe method_start p c = ground arith
consume_line-Safe method p c = ground arith
consume_line-Safe _ p c = ground arith

consume_version-Safe : (st : State) (p : Parsing) (c : ℕ) → Safe (consume_version st p c)
unfolding consume_version major_go minor_go
consume_version-Safe http_version_h p c = ground arith
consume_version-Safe http_version_t_1 p c = ground arith
consume_version-Safe http_version_t_2 p c = ground arith
consume_version-Safe http_version_p p c = ground arith
consume_version-Safe http_version_slash p c = ground arith
consume_version-Safe http_version_major_start p c = ground arith
consume_version-Safe http_version_major p c = ground arith
consume_version-Safe http_version_minor_start p c = ground arith
consume_version-Safe _ p c = ground arith

not_empty : (hs : List Header) (b : Bool) → not (is_empty hs) && b ≡ true → hs ≢ []
not_empty [] b h = cc
not_empty (x ∷ hs) b h = λ e. cc e

consume_header-Safe :
    (st : State) (p : Parsing) (c : ℕ) → HasHeader st p.req.headers → Safe (consume_header st p c)
unfolding consume_header
consume_header-Safe expecting_newline_1 p c h = ground arith
consume_header-Safe header_line_start p c h =
    if-Safe (c == b'\r') _ _ (λ _. tt)
      λ _.
        if-Safe (not (is_empty p.req.headers) && (c == b' ' || c == b'\t')) _ _
          (not_empty p.req.headers _)
          λ _. if-Safe (is_token c) _ _ (λ _. append_ne_nil p.req.headers (new_header c)) (λ _. tt)
consume_header-Safe header_lws p c h =
    if-Safe (c == b'\r') _ _ (λ _. tt)
      λ _.
        if-Safe (c == b' ' || c == b'\t') _ _ (λ _. h)
          λ _.
            if-Safe (is_ctl c) _ _ (λ _. tt) (λ _. back_go-Safe header_value (push_value c) p.req h)
consume_header-Safe header_name p c h =
    if-Safe (c == b':') _ _ (λ _. h)
      λ _. if-Safe (is_token c) _ _ (λ _. back_go-Safe header_name (push_name c) p.req h) (λ _. tt)
consume_header-Safe space_before_header_value p c h = if-Safe (c == b' ') _ _ (λ _. h) (λ _. tt)
consume_header-Safe header_value p c h =
    if-Safe (c == b'\r') _ _ (λ _. tt)
      λ _. if-Safe (is_ctl c) _ _ (λ _. tt) (λ _. back_go-Safe header_value (push_value c) p.req h)
consume_header-Safe expecting_newline_2 p c h = ground arith
consume_header-Safe _ p c h = ground arith

consume_in-Safe :
    (st : State) (p : Parsing) (c : ℕ) → HasHeader st p.req.headers → Safe (consume_in st p c)
unfolding consume_in
consume_in-Safe method_start p c h = consume_line-Safe method_start p c
consume_in-Safe method p c h = consume_line-Safe method p c
consume_in-Safe uri p c h = consume_line-Safe uri p c
consume_in-Safe http_version_h p c h = consume_version-Safe http_version_h p c
consume_in-Safe http_version_t_1 p c h = consume_version-Safe http_version_t_1 p c
consume_in-Safe http_version_t_2 p c h = consume_version-Safe http_version_t_2 p c
consume_in-Safe http_version_p p c h = consume_version-Safe http_version_p p c
consume_in-Safe http_version_slash p c h = consume_version-Safe http_version_slash p c
consume_in-Safe http_version_major_start p c h = consume_version-Safe http_version_major_start p c
consume_in-Safe http_version_major p c h = consume_version-Safe http_version_major p c
consume_in-Safe http_version_minor_start p c h = consume_version-Safe http_version_minor_start p c
consume_in-Safe http_version_minor p c h = consume_version-Safe http_version_minor p c
consume_in-Safe st p c h = consume_header-Safe st p c h

parse-Safe : (cs : Bytes) (p : Parsing) → HasHeader p.state p.req.headers → Safe (parse cs p).0
unfolding parse
parse-Safe [] p h = h
parse-Safe (c ∷ cs) p h = carry (consume p c) (consume_in-Safe p.state p c h) (parse-Safe cs)
  where
    carry :
        (o : Outcome)
        → Safe o
        → ((q : Parsing) → HasHeader q.state q.req.headers → Safe (parse cs q).0)
        → let next : Outcome × Bytes = elim o [
          | indeterminate q ↦ parse cs q
          | accepted q ↦ (accepted q, cs)
          | rejected q ↦ (rejected q, cs)
          | no_header ↦ (no_header, cs)
          | overflow ↦ (overflow, cs)
        ] in
          Safe next.0
    carry (indeterminate q) s rest = rest q s
    carry (accepted q) s rest = tt
    carry (rejected q) s rest = tt
    carry no_header s rest = s
    carry overflow s rest = tt

-- Whatever is sent, a parser never reads the last header of an empty list.
pub parse-ne-no_header : (input : Bytes) (r : Request) → (parse input (start r)).0 ≢ no_header
parse-ne-no_header input r e = rw e at (parse-Safe input (start r) tt)

-- To go on with more input.
abbrev pub resume : Outcome × Bytes → Bytes → Outcome × Bytes
resume (indeterminate q, rest) ys = parse ys q
resume (accepted q, rest) ys = (accepted q, rest ++ ys)
resume (rejected q, rest) ys = (rejected q, rest ++ ys)
resume (no_header, rest) ys = (no_header, rest ++ ys)
resume (overflow, rest) ys = (overflow, rest ++ ys)

-- A request may come in any pieces: to parse one buffer and then the next is to parse both as one.
pub parse-append : (xs ys : Bytes) (p : Parsing) → parse (xs ++ ys) p ≡ resume (parse xs p) ys
unfolding parse
parse-append [] ys p = refl
parse-append (c ∷ xs) ys p = carry (consume p c) (λ q. parse-append xs ys q)
  where
    carry :
        (o : Outcome)
        → ((q : Parsing) → parse (xs ++ ys) q ≡ resume (parse xs q) ys)
        → let whole : Outcome × Bytes = elim o [
          | indeterminate q ↦ parse (xs ++ ys) q
          | accepted q ↦ (accepted q, xs ++ ys)
          | rejected q ↦ (rejected q, xs ++ ys)
          | no_header ↦ (no_header, xs ++ ys)
          | overflow ↦ (overflow, xs ++ ys)
        ] in
          let first : Outcome × Bytes = elim o [
            | indeterminate q ↦ parse xs q
            | accepted q ↦ (accepted q, xs)
            | rejected q ↦ (rejected q, xs)
            | no_header ↦ (no_header, xs)
            | overflow ↦ (overflow, xs)
          ] in
          whole ≡ resume first ys
    carry (indeterminate q) h = h q
    carry (accepted q) h = refl
    carry (rejected q) h = refl
    carry no_header h = refl
    carry overflow h = refl
