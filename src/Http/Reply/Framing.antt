-- ===== src/Http/Reply/Framing.antt =====
-- A client finds the content of a reply behind the first empty line.
use skweltch.Prelude.{
  ℕ, ◌≡◌, ◌≢◌, refl, sym, ap, ◌∙◌, Bool, true, false, not, ◌&&◌, Option, none, some, List, [], ◌∷◌,
  ◌++◌, Bytes, All, arith, ◌==◌, if◌then◌else◌, append-nil, append_assoc, codes, length,
}
use skweltch.Http.Message.{Header}
use skweltch.Http.Reply.{
  Status, ok, created, accepted, no_content, multiple_choices, moved_permanently, moved_temporarily,
  not_modified, bad_request, unauthorized, forbidden, not_found, internal_server_error,
  not_implemented, bad_gateway, service_unavailable, Reply, status_line, stock_content,
  name_value_separator, crlf, header_buffers, to_buffers, stock_reply,
}

-- The bytes on the wire.
abbrev pub flatten : List Bytes → Bytes
flatten [] = []
flatten (b ∷ bs) = b ++ flatten bs

-- A carriage return and a line feed, twice, and what is behind them.
pub empty_line : Bytes → Option Bytes
empty_line (a ∷ b ∷ c ∷ d ∷ rest) =
    if (a == b'\r' && b == b'\n') && (c == b'\r' && d == b'\n') then some rest else none
empty_line _ = none

-- What a client takes for the content.
pub body_of : Bytes → Option Bytes
body_of [] = none
body_of (c ∷ cs) =
    let rest = body_of cs in elim (empty_line (c ∷ cs)) [ some body ↦ some body | none ↦ rest ]

abbrev pub no_cr : Bytes → Bool
no_cr [] = true
no_cr (c ∷ cs) = not (c == b'\r') && no_cr cs

body_of-skip : (c : ℕ) (cs : Bytes) → (c == b'\r') ≡ false → body_of (c ∷ cs) ≡ body_of cs
unfolding body_of empty_line
body_of-skip c [] h = refl
body_of-skip c (x ∷ []) h = refl
body_of-skip c (x ∷ y ∷ []) h = refl
body_of-skip c (x ∷ y ∷ z ∷ rest) h = ground arith

-- Text without a carriage return is passed over.
body_of-text : (s rest : Bytes) → no_cr s ≡ true → body_of (s ++ rest) ≡ body_of rest
body_of-text [] rest h = refl
body_of-text (c ∷ s) rest h =
    body_of-skip c (s ++ rest) (ground arith) ∙ body_of-text s rest (ground arith)

-- So is the end of a line, if the next one is not empty.
body_of-crlf :
    (c : ℕ) (rest : Bytes)
    → (c == b'\r') ≡ false
    → body_of (crlf ++ (c ∷ rest)) ≡ body_of (c ∷ rest)
unfolding body_of empty_line
body_of-crlf c [] h = refl
body_of-crlf c (x ∷ []) h = ground arith
body_of-crlf c (x ∷ y ∷ rest) h = ground arith

body_of-empty_line : (rest : Bytes) → body_of (crlf ++ (crlf ++ rest)) ≡ some rest
unfolding body_of empty_line
body_of-empty_line rest = refl

no_cr-append : (s t : Bytes) → no_cr s ≡ true → no_cr t ≡ true → no_cr (s ++ t) ≡ true
no_cr-append [] t h k = k
no_cr-append (c ∷ s) t h k = ground (arith, no_cr-append s t)

body_of-line :
    (s rest : Bytes) → s ≢ [] → no_cr s ≡ true → body_of (crlf ++ (s ++ rest)) ≡ body_of rest
body_of-line [] rest ne h = absurd (ne refl)
body_of-line (c ∷ s) rest ne h =
    body_of-crlf c (s ++ rest) (ground arith) ∙ body_of-text (c ∷ s) rest h

abbrev pub IsClean : Header → Type 0
IsClean h = (no_cr h.name ≡ true) × (no_cr h.value ≡ true)

abbrev line : Header → Bytes
line h = h.name ++ (name_value_separator ++ h.value)

line_ne_nil : (n v : Bytes) → n ++ (name_value_separator ++ v) ≢ []
line_ne_nil [] v e = cc e
line_ne_nil (c ∷ n) v e = cc e

body_of-headers :
    (hs : List Header) (content : Bytes)
    → All IsClean hs
    → body_of (crlf ++ flatten (header_buffers hs ++ (crlf ∷ content ∷ []))) ≡ some content
body_of-headers [] content h = body_of-empty_line (content ++ []) ∙ ap some (append-nil content)
body_of-headers (x ∷ hs) content h =
    let rest = flatten (header_buffers hs ++ (crlf ∷ content ∷ [])) in
    let clean =
      no_cr-append x.name (name_value_separator ++ x.value) h.0.0
        (no_cr-append name_value_separator x.value refl h.0.1) in
    ap (λ (b : Bytes). body_of (crlf ++ b))
      (sym (
        append_assoc x.name (name_value_separator ++ x.value) (crlf ++ rest)
        ∙ ap (◌++◌ x.name) (append_assoc name_value_separator x.value (crlf ++ rest))))
    ∙ body_of-line (line x) (crlf ++ rest) (line_ne_nil x.name x.value) clean
    ∙ body_of-headers hs content h.1

-- Each status line is text and an end of line.
status_line_parts : (s : Status) → (t : Bytes) × (status_line s ≡ t ++ crlf) × (no_cr t ≡ true)
unfolding status_line
status_line_parts ok = (codes "HTTP/1.0 200 OK", refl, refl)
status_line_parts created = (codes "HTTP/1.0 201 Created", refl, refl)
status_line_parts accepted = (codes "HTTP/1.0 202 Accepted", refl, refl)
status_line_parts no_content = (codes "HTTP/1.0 204 No Content", refl, refl)
status_line_parts multiple_choices = (codes "HTTP/1.0 300 Multiple Choices", refl, refl)
status_line_parts moved_permanently = (codes "HTTP/1.0 301 Moved Permanently", refl, refl)
status_line_parts moved_temporarily = (codes "HTTP/1.0 302 Moved Temporarily", refl, refl)
status_line_parts not_modified = (codes "HTTP/1.0 304 Not Modified", refl, refl)
status_line_parts bad_request = (codes "HTTP/1.0 400 Bad Request", refl, refl)
status_line_parts unauthorized = (codes "HTTP/1.0 401 Unauthorized", refl, refl)
status_line_parts forbidden = (codes "HTTP/1.0 403 Forbidden", refl, refl)
status_line_parts not_found = (codes "HTTP/1.0 404 Not Found", refl, refl)
status_line_parts internal_server_error = (codes "HTTP/1.0 500 Internal Server Error", refl, refl)
status_line_parts not_implemented = (codes "HTTP/1.0 501 Not Implemented", refl, refl)
status_line_parts bad_gateway = (codes "HTTP/1.0 502 Bad Gateway", refl, refl)
status_line_parts service_unavailable = (codes "HTTP/1.0 503 Service Unavailable", refl, refl)

-- The bytes sent for a reply have its content behind their first empty line, whatever the content
-- holds, if no carriage return stands in a header.
pub body_of-to_buffers :
    (r : Reply) → All IsClean r.headers → body_of (flatten (to_buffers r)) ≡ some r.content
unfolding to_buffers
body_of-to_buffers r h =
    let (t, e, clean) = status_line_parts r.status in
    let rest = flatten (header_buffers r.headers ++ (crlf ∷ r.content ∷ [])) in
    ap (λ (b : Bytes). body_of (b ++ rest)) e
    ∙ ap body_of (append_assoc t crlf rest)
    ∙ body_of-text t (crlf ++ rest) clean
    ∙ body_of-headers r.headers r.content h

-- A stock reply says its content's length in its first header, and a client finds that content,
-- if a size is written without a carriage return.
pub stock_reply-framed :
    (decimal : ℕ → Bytes) (s : Status)
    → ((n : ℕ) → no_cr (decimal n) ≡ true)
    → (body_of (flatten (to_buffers (stock_reply decimal s))) ≡ some (stock_content s))
      × ((t : Header) × ((stock_reply decimal s).headers
            ≡ record { name = codes "Content-Length"; value = decimal (length (stock_content s)) }
              ∷ t
              ∷ []))
unfolding stock_reply
stock_reply-framed decimal s h = (
  body_of-to_buffers (stock_reply decimal s)
      ((refl, h (length (stock_content s))), ((refl, refl), tt)),
  (record { name = codes "Content-Type"; value = codes "text/html" }, refl),
)
