-- ===== src/Cases/Requests.antt =====
-- Requests and replies for ui/request_parser.cpp, ui/reply.cpp, ui/request_handler.cpp and
-- ui/connection.cpp.
use skweltch.Prelude.{
  true, false, All, ◌&&◌, leb, ◌==◌, Bool, if◌then◌else◌, Option, none, ℕ, ◌≡◌, refl, some, [], ◌∷◌,
  ◌++◌, Bytes, codes, arith,
}
use mathlib.Core.Path.{subst}
use skweltch.Http.Server.{
  among, on_events, on_event, handle_accept, if_success, start_accept, start_connection,
  stop_connection, erase, new_web_server, accepts, signals, finishes,
}
use skweltch.Http.Server.Stopped.{on_events-closed}
use skweltch.Http.Message.{Request}
use skweltch.Http.Parser.{expecting_newline_3, accepted, is_token, is_ctl, parse, start}
use skweltch.Http.Parser.RoundTrip.{print, IsRequest, unset, parse-print}
use skweltch.Http.Handler.{
  Handler, c_str, url_decode, handle_request, is_rest, with_index, hex_pair, hex_digit, starts_with,
  ends_in_slash,
}
use skweltch.Http.Handler.Decode.{encode, url_decode-encode}
use skweltch.Http.Handler.Files.{IsInside, handle_request-agree}
use skweltch.Http.Connection.{success, Connection, handle_read, serve, concat, serve-concat}
use skweltch.Http.Reply.{not_found, Reply, to_buffers}
use skweltch.Http.Reply.Framing.{flatten, body_of, body_of-to_buffers}

abbrev small : Request
small = record {
  method = codes "GET";
  uri = codes "/a";
  http_version_major = 1;
  http_version_minor = 0;
  headers = record { name = codes "Host"; value = codes "b c" } ∷ [];
}

small-IsRequest : IsRequest small
unfolding is_token is_ctl
small-IsRequest = record {
  method_tokens = (refl, (refl, (refl, tt)));
  method_ne_nil = λ e. cc e;
  uri_ok = ((refl, λ e. absurd (omega arith)), ((refl, λ e. absurd (omega arith)), tt));
  major_digit = omega arith;
  minor_digit = omega arith;
  headers_ok = (((refl, (refl, (refl, (refl, tt)))), (λ e. cc e), (refl, (refl, (refl, tt)))), tt);
}

parse-print_example :
    parse (print small (codes "more")) (start (unset 8 9))
    ≡ (accepted (record { state = expecting_newline_3; req = small }), codes "more")
parse-print_example = parse-print small (codes "more") 8 9 small-IsRequest

-- A reply whose content has an empty line itself.
abbrev lines : Reply
lines = record {
  status = not_found;
  headers = record { name = codes "A"; value = codes "b" } ∷ [];
  content = codes "c\r\n\r\nd";
}

body_of-to_buffers_example : body_of (flatten (to_buffers lines)) ≡ some (codes "c\r\n\r\nd")
body_of-to_buffers_example = body_of-to_buffers lines ((refl, refl), tt)

-- The same word for every size.
abbrev a_word : ℕ → Bytes
a_word n = codes "size"

-- Only letters are kept.
abbrev letters : ℕ → Bool
letters c = leb 97 c && leb c 122

url_decode-encode_example : url_decode (encode letters (codes "a b%/")) ≡ some (codes "a b%/")
url_decode-encode_example =
    url_decode-encode letters (codes "a b%/") refl refl
      (omega arith, (omega arith, (omega arith, (omega arith, (omega arith, tt)))))

-- Below the root `/w`, each file holds its own path. One file system has the others, too.
abbrev public_file : Bytes → Option Bytes
public_file (a ∷ b ∷ path) = if b == b'w' then some path else none
public_file _ = none

abbrev all_files : Bytes → Option Bytes
all_files (a ∷ b ∷ path) = if b == b'w' then some path else some (codes "secret")
all_files _ = none

all_files-agree :
    (path : Bytes)
    → IsInside path
    → public_file (c_str (codes "/w" ++ path)) ≡ all_files (c_str (codes "/w" ++ path))
all_files-agree path v = refl

abbrev no_handler : Handler ℕ
no_handler context args rep = (context, rep)

-- As `RestContext::load` does: the file of the arguments is opened, wherever it is.
abbrev opens : (Bytes → Option Bytes) → Handler ℕ
opens files context args rep = (elim (files args) [ none ↦ context | some data_read ↦ 1 ], rep)

-- `/page`, with an encoded letter.
abbrev asks_page : Request
asks_page = record small { uri = codes "/p%61ge" }

asks_page-path :
    (path : Bytes) → url_decode asks_page.uri ≡ some path → is_rest (with_index path) ≡ false
unfolding url_decode hex_pair hex_digit starts_with ends_in_slash
asks_page-path path e =
    subst (λ (o : Option Bytes). elim o [ none ↦ Unit | some p ↦ is_rest (with_index p) ≡ false ]) e
      refl

handle_request-agree_example :
    handle_request a_word public_file no_handler opens (codes "/w") asks_page 0 lines
    ≡ handle_request a_word all_files no_handler opens (codes "/w") asks_page 0 lines
handle_request-agree_example =
    handle_request-agree a_word public_file all_files no_handler opens (codes "/w") asks_page 0
      lines asks_page-path all_files-agree

abbrev new_connection : Connection ℕ
new_connection = record { parser = start (unset 0 0); reply = lines; context = 0 }

serve-concat_example :
    serve a_word public_file no_handler opens
      (codes "/w")
      (codes "GET /a.p" ∷ codes "ng HTTP/1.0\r\n\r" ∷ codes "\n" ∷ [])
      new_connection
    ≡ handle_read a_word public_file no_handler opens
        (codes "/w")
        success
        (concat (codes "GET /a.p" ∷ codes "ng HTTP/1.0\r\n\r" ∷ codes "\n" ∷ []))
        new_connection
serve-concat_example =
    serve-concat a_word public_file no_handler opens (codes "/w")
      (codes "GET /a.p" ∷ codes "ng HTTP/1.0\r\n\r" ∷ codes "\n" ∷ []) new_connection

-- Two connections, one of which is through before the signal, and an accept that comes late.
on_events-closed_example :
    ((on_events
        (accepts success ∷ finishes 1 ∷ accepts success ∷ signals ∷ accepts success ∷ [])
        new_web_server).connections
      ≡ [])
    × All
        (λ (d : ℕ).
          among d
            (on_events
              (accepts success ∷ finishes 1 ∷ accepts success ∷ signals ∷ accepts success ∷ [])
              new_web_server).shut
          ≡ true)
        (on_events
          (accepts success ∷ finishes 1 ∷ accepts success ∷ signals ∷ accepts success ∷ [])
          new_web_server).started
    × ((on_events
          (accepts success ∷ finishes 1 ∷ accepts success ∷ signals ∷ accepts success ∷ [])
          new_web_server).started
        ≡ 2 ∷ 1 ∷ [])
unfolding on_events on_event handle_accept if_success start_accept start_connection stop_connection
    erase new_web_server
on_events-closed_example =
    on_events-closed (accepts success ∷ finishes 1 ∷ accepts success ∷ []) (accepts success ∷ [])
