-- ===== src/Http/Reply.antt =====
-- ui/reply.hpp and ui/reply.cpp: the replies of the web server and the bytes that are sent for them.
-- `boost::lexical_cast<std::string>` of a size is not this repository's code: it is the argument
-- `decimal`.
pub mod Framing
use skweltch.Prelude.{ℕ, List, [], ◌∷◌, ◌++◌, Bytes, codes, length}
use skweltch.Http.Message.{Header}

-- `status_type`
pub data Status : Type 0 where
  ok created accepted no_content : Status
  multiple_choices moved_permanently moved_temporarily not_modified : Status
  bad_request unauthorized forbidden not_found : Status
  internal_server_error not_implemented bad_gateway service_unavailable : Status

pub record Reply : Type 0 where
  pub status : Status
  pub headers : List Header
  pub content : Bytes

-- `status_strings::to_buffer`
pub status_line : Status → Bytes
status_line ok = codes "HTTP/1.0 200 OK\r\n"
status_line created = codes "HTTP/1.0 201 Created\r\n"
status_line accepted = codes "HTTP/1.0 202 Accepted\r\n"
status_line no_content = codes "HTTP/1.0 204 No Content\r\n"
status_line multiple_choices = codes "HTTP/1.0 300 Multiple Choices\r\n"
status_line moved_permanently = codes "HTTP/1.0 301 Moved Permanently\r\n"
status_line moved_temporarily = codes "HTTP/1.0 302 Moved Temporarily\r\n"
status_line not_modified = codes "HTTP/1.0 304 Not Modified\r\n"
status_line bad_request = codes "HTTP/1.0 400 Bad Request\r\n"
status_line unauthorized = codes "HTTP/1.0 401 Unauthorized\r\n"
status_line forbidden = codes "HTTP/1.0 403 Forbidden\r\n"
status_line not_found = codes "HTTP/1.0 404 Not Found\r\n"
status_line internal_server_error = codes "HTTP/1.0 500 Internal Server Error\r\n"
status_line not_implemented = codes "HTTP/1.0 501 Not Implemented\r\n"
status_line bad_gateway = codes "HTTP/1.0 502 Bad Gateway\r\n"
status_line service_unavailable = codes "HTTP/1.0 503 Service Unavailable\r\n"

-- `stock_replies::to_string`
pub stock_content : Status → Bytes
stock_content ok = codes ""
stock_content created =
    codes "<html><head><title>Created</title></head><body><h1>201 Created</h1></body></html>"
stock_content accepted =
    codes "<html><head><title>Accepted</title></head><body><h1>202 Accepted</h1></body></html>"
stock_content no_content =
    codes "<html><head><title>No Content</title></head><body><h1>204 Content</h1></body></html>"
stock_content multiple_choices =
    codes
      "<html><head><title>Multiple Choices</title></head><body><h1>300 Multiple Choices</h1></body></html>"
stock_content moved_permanently =
    codes
      "<html><head><title>Moved Permanently</title></head><body><h1>301 Moved Permanently</h1></body></html>"
stock_content moved_temporarily =
    codes
      "<html><head><title>Moved Temporarily</title></head><body><h1>302 Moved Temporarily</h1></body></html>"
stock_content not_modified =
    codes
      "<html><head><title>Not Modified</title></head><body><h1>304 Not Modified</h1></body></html>"
stock_content bad_request =
    codes
      "<html><head><title>Bad Request</title></head><body><h1>400 Bad Request</h1></body></html>"
stock_content unauthorized =
    codes
      "<html><head><title>Unauthorized</title></head><body><h1>401 Unauthorized</h1></body></html>"
stock_content forbidden =
    codes "<html><head><title>Forbidden</title></head><body><h1>403 Forbidden</h1></body></html>"
stock_content not_found =
    codes "<html><head><title>Not Found</title></head><body><h1>404 Not Found</h1></body></html>"
stock_content internal_server_error =
    codes
      "<html><head><title>Internal Server Error</title></head><body><h1>500 Internal Server Error</h1></body></html>"
stock_content not_implemented =
    codes
      "<html><head><title>Not Implemented</title></head><body><h1>501 Not Implemented</h1></body></html>"
stock_content bad_gateway =
    codes
      "<html><head><title>Bad Gateway</title></head><body><h1>502 Bad Gateway</h1></body></html>"
stock_content service_unavailable =
    codes
      "<html><head><title>Service Unavailable</title></head><body><h1>503 Service Unavailable</h1></body></html>"

-- `misc_strings`
abbrev pub name_value_separator : Bytes
name_value_separator = b':' ∷ b' ' ∷ []

abbrev pub crlf : Bytes
crlf = b'\r' ∷ b'\n' ∷ []

abbrev pub header_buffers : List Header → List Bytes
header_buffers [] = []
header_buffers (h ∷ hs) = h.name ∷ name_value_separator ∷ h.value ∷ crlf ∷ header_buffers hs

-- `reply::to_buffers`
unfoldable pub to_buffers : Reply → List Bytes
to_buffers r = status_line r.status ∷ (header_buffers r.headers ++ (crlf ∷ r.content ∷ []))

-- `reply::stock_reply`
unfoldable pub stock_reply : (ℕ → Bytes) → Status → Reply
stock_reply decimal s = record {
  status = s;
  headers =
      record { name = codes "Content-Length"; value = decimal (length (stock_content s)) }
      ∷ record { name = codes "Content-Type"; value = codes "text/html" }
      ∷ [];
  content = stock_content s;
}
