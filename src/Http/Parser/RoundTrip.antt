-- ===== src/Http/Parser/RoundTrip.antt =====
-- A request that is written out is parsed as itself.
use skweltch.Prelude.{
  ℕ, ◌+◌, ◌<◌, ◌≡◌, ◌≢◌, refl, ap, ◌∙◌, true, false, some, List, [], ◌∷◌, ◌++◌, Bytes, All, arith,
  append-nil, append_assoc,
}
use skweltch.Http.Message.{Header, Request}
use skweltch.Http.Parser.{
  State, method, uri, http_version_h, http_version_major_start, http_version_major,
  http_version_minor_start, http_version_minor, header_line_start, header_name, header_value,
  expecting_newline_3, Parsing, indeterminate, accepted, is_token, is_ctl, is_digit, on_back,
  back_go, major_go, minor_go, consume_line, consume_version, consume_header, consume_in, consume,
  parse, start, new_header, push_name, push_value,
}

abbrev pub print_headers : List Header → Bytes → Bytes
print_headers [] rest = b'\r' ∷ b'\n' ∷ rest
print_headers (h ∷ hs) rest =
    h.name ++ (b':' ∷ b' ' ∷ (h.value ++ (b'\r' ∷ b'\n' ∷ print_headers hs rest)))

abbrev pub print_version : Request → Bytes → Bytes
print_version r rest =
    b'H'
    ∷ b'T'
    ∷ b'T'
    ∷ b'P'
    ∷ b'/'
    ∷ (48 + r.http_version_major)
    ∷ b'.'
    ∷ (48 + r.http_version_minor)
    ∷ b'\r'
    ∷ b'\n'
    ∷ rest

-- A request with version digits below 10, in front of `rest`.
abbrev pub print : Request → Bytes → Bytes
print r rest =
    r.method ++ (b' ' ∷ (r.uri ++ (b' ' ∷ print_version r (print_headers r.headers rest))))

abbrev pub AreTokens : Bytes → Type 0
AreTokens = All (λ c. is_token c ≡ true)

abbrev pub IsUri : Bytes → Type 0
IsUri = All (λ c. (is_ctl c ≡ false) × (c ≢ b' '))

abbrev pub IsHeader : Header → Type 0
IsHeader h = AreTokens h.name × (h.name ≢ []) × All (λ c. is_ctl c ≡ false) h.value

pub record IsRequest (r : Request) : Type 0 where
  pub method_tokens : AreTokens r.method
  pub method_ne_nil : r.method ≢ []
  pub uri_ok : IsUri r.uri
  pub major_digit : r.http_version_major < 10
  pub minor_digit : r.http_version_minor < 10
  pub headers_ok : All IsHeader r.headers

abbrev at : State → Request → Parsing
at st r = record { state = st; req = r }

parse-cons :
    (c : ℕ) (cs : Bytes) (p q : Parsing)
    → consume p c ≡ indeterminate q
    → parse (c ∷ cs) p ≡ parse cs q
unfolding parse
parse-cons c cs p q e = rw (e, parse)

token_not : (c : ℕ) → is_token c ≡ true → (c ≢ b' ') × (c ≢ b'\r') × (c ≢ b'\t') × (c ≢ b':')
unfolding is_token
token_not c h = ground arith

control_not : (c : ℕ) → is_ctl c ≡ false → (c ≢ b'\r') × (c ≢ b'\t')
unfolding is_ctl
control_not c h = ground arith

parse-method :
    (m rest : Bytes) (r : Request)
    → AreTokens m
    → parse (m ++ rest) (at method r) ≡ parse rest (at method (record r { method = r.method ++ m }))
parse-method [] rest r h = rw append-nil
parse-method (c ∷ m) rest r h =
    let r' = record r { method = r.method ++ c ∷ [] } in
    parse-cons c (m ++ rest) (at method r) (at method r')
      (unfold consume_in consume_line in ground (arith, token_not c h.0))
    ∙ parse-method m rest r' h.1
    ∙ rw append_assoc

parse-uri :
    (u rest : Bytes) (r : Request)
    → IsUri u
    → parse (u ++ rest) (at uri r) ≡ parse rest (at uri (record r { uri = r.uri ++ u }))
parse-uri [] rest r h = rw append-nil
parse-uri (c ∷ u) rest r h =
    let r' = record r { uri = r.uri ++ c ∷ [] } in
    parse-cons c (u ++ rest) (at uri r) (at uri r') (unfold consume_in consume_line in ground arith)
    ∙ parse-uri u rest r' h.1
    ∙ rw append_assoc

on_back-concat :
    (f : Header → Header) (hs : List Header) (h : Header)
    → on_back f (hs ++ h ∷ []) ≡ some (hs ++ f h ∷ [])
unfolding on_back
on_back-concat f [] h = refl
on_back-concat f (x ∷ []) h = refl
on_back-concat f (x ∷ y ∷ hs) h = rw (on_back-concat f (y ∷ hs) h)

-- A request whose last header is `h`.
abbrev ending : Request → List Header → Header → Request
ending r hs h = record r { headers = hs ++ h ∷ [] }

parse-name :
    (n rest : Bytes) (r : Request) (hs : List Header) (h : Header)
    → AreTokens n
    → parse (n ++ rest) (at header_name (ending r hs h))
      ≡ parse rest (at header_name (ending r hs (record h { name = h.name ++ n })))
parse-name [] rest r hs h t = rw append-nil
parse-name (c ∷ n) rest r hs h t =
    let h' = push_name c h in
    parse-cons c (n ++ rest) (at header_name (ending r hs h)) (at header_name (ending r hs h')) (
      unfold consume_in consume_header back_go in
      ground (arith, token_not c t.0, on_back-concat (push_name c) hs h))
    ∙ parse-name n rest r hs h' t.1
    ∙ rw append_assoc

parse-value :
    (v rest : Bytes) (r : Request) (hs : List Header) (h : Header)
    → All (λ c. is_ctl c ≡ false) v
    → parse (v ++ rest) (at header_value (ending r hs h))
      ≡ parse rest (at header_value (ending r hs (record h { value = h.value ++ v })))
parse-value [] rest r hs h t = rw append-nil
parse-value (c ∷ v) rest r hs h t =
    let h' = push_value c h in
    parse-cons c (v ++ rest) (at header_value (ending r hs h)) (at header_value (ending r hs h')) (
      unfold consume_in consume_header back_go in
      ground (arith, control_not c t.0, on_back-concat (push_value c) hs h))
    ∙ parse-value v rest r hs h' t.1
    ∙ rw append_assoc

-- The line of one header, from its start to the start of the next.
parse-header :
    (n v rest : Bytes) (r : Request)
    → AreTokens n
    → n ≢ []
    → All (λ c. is_ctl c ≡ false) v
    → parse (n ++ (b':' ∷ b' ' ∷ (v ++ (b'\r' ∷ b'\n' ∷ rest)))) (at header_line_start r)
      ≡ parse rest (at header_line_start (ending r r.headers (record { name = n; value = v })))
unfolding parse consume_in consume_header
parse-header [] v rest r t ne h = absurd (ne refl)
parse-header (c ∷ n) v rest r t ne h =
    let tail = b'\r' ∷ b'\n' ∷ rest in
    parse-cons c (n ++ (b':' ∷ b' ' ∷ (v ++ tail))) (at header_line_start r)
      (at header_name (ending r r.headers (new_header c))) (ground (arith, token_not c t.0))
    ∙ parse-name n (b':' ∷ b' ' ∷ (v ++ tail)) r r.headers (new_header c) t.1
    ∙ parse-value v tail r r.headers (record { name = c ∷ n; value = [] }) h

parse-headers :
    (hs : List Header) (rest : Bytes) (r : Request)
    → All IsHeader hs
    → parse (print_headers hs rest) (at header_line_start r)
      ≡ (accepted (at expecting_newline_3 (record r { headers = r.headers ++ hs })), rest)
unfolding parse consume_in consume_header
parse-headers [] rest r h = rw append-nil
parse-headers (x ∷ hs) rest r h =
    parse-header x.name x.value (print_headers hs rest) r h.0.0 h.0.1 h.0.2
    ∙ parse-headers hs rest (ending r r.headers x) h.1
    ∙ rw append_assoc

-- The fixed part of the request line.
parse-version :
    (a b : ℕ) (rest : Bytes) (r : Request)
    → a < 10
    → b < 10
    → parse
        (b'H' ∷ b'T' ∷ b'T' ∷ b'P' ∷ b'/' ∷ (48 + a) ∷ b'.' ∷ (48 + b) ∷ b'\r' ∷ b'\n' ∷ rest)
        (at http_version_h r)
      ≡ parse rest
          (at header_line_start (record r { http_version_major = a; http_version_minor = b }))
unfolding parse consume_in consume_version
parse-version a b rest r h k =
    let r0 = record r { http_version_major = 0; http_version_minor = 0 } in
    let r1 = record r0 { http_version_major = a } in
    let r2 = record r1 { http_version_minor = b } in
    parse-cons (48 + a) (b'.' ∷ (48 + b) ∷ b'\r' ∷ b'\n' ∷ rest) (at http_version_major_start r0)
      (at http_version_major r1) (unfold major_go is_digit in ground arith)
    ∙ parse-cons (48 + b) (b'\r' ∷ b'\n' ∷ rest) (at http_version_minor_start r1)
        (at http_version_minor r2) (unfold minor_go is_digit in ground arith)

-- The method and the URI.
parse-request_line :
    (m u rest : Bytes) (r : Request)
    → AreTokens m
    → m ≢ []
    → r.method ≡ []
    → r.uri ≡ []
    → IsUri u
    → parse (m ++ (b' ' ∷ (u ++ (b' ' ∷ rest)))) (start r)
      ≡ parse rest (at http_version_h (record r { method = m; uri = u }))
unfolding parse consume_in consume_line
parse-request_line [] u rest r t ne e e' h = absurd (ne refl)
parse-request_line (c ∷ m) u rest r t ne e e' h =
    let r1 = record r { method = c ∷ [] } in
    let r2 = record r { method = c ∷ m } in
    parse-cons c (m ++ (b' ' ∷ (u ++ (b' ' ∷ rest)))) (start r) (at method r1)
      (ground (arith, token_not c t.0))
    ∙ parse-method m (b' ' ∷ (u ++ (b' ' ∷ rest))) r1 t.1
    ∙ parse-uri u (b' ' ∷ rest) r2 h
    ∙ ap (λ (w : Bytes). parse rest (at http_version_h (record r2 { uri = w ++ u }))) e'

-- A request as the server makes it, with version numbers that are not set.
abbrev pub unset : ℕ → ℕ → Request
unset a b = record {
  method = [];
  uri = [];
  http_version_major = a;
  http_version_minor = b;
  headers = [];
}

-- A request with token, URI and header characters in their places and one-digit version numbers,
-- written out, is accepted as the same request, and what follows it is left in the buffer. The
-- version numbers of the request that the parser fills are not set before, and do not matter.
pub parse-print :
    (r : Request) (rest : Bytes) (a b : ℕ)
    → IsRequest r
    → parse (print r rest) (start (unset a b)) ≡ (accepted (at expecting_newline_3 r), rest)
parse-print r rest a b v =
    let empty = unset a b in
    let r1 = record empty { method = r.method } in
    let r2 = record r1 { uri = r.uri } in
    let r3 = record r2 {
      http_version_major = r.http_version_major;
      http_version_minor = r.http_version_minor;
    } in
    let headers = print_headers r.headers rest in
    parse-request_line r.method r.uri (print_version r headers) empty v.method_tokens
      v.method_ne_nil refl refl v.uri_ok
    ∙ parse-version r.http_version_major r.http_version_minor headers r2 v.major_digit v.minor_digit
    ∙ parse-headers r.headers rest r3 v.headers_ok
