-- ===== src/Http/Reply.antt =====
-- Replies: boost_http_server_1/src/reply.cpp and reply.hpp. The strings that `lexical_cast` makes of
-- sizes are a parameter.
use boost_learn.Common.{ℕ, List, [], ◌∷◌, ◌++◌, Bytes, codes, length}
pub mod Pages
pub mod Framing
use boost_learn.Http.Request.{Header}

-- `reply::status_type`.
pub data StatusType : Type 0 where
  ok created accepted no_content multiple_choices moved_permanently moved_temporarily : StatusType
  not_modified bad_request unauthorized forbidden not_found internal_server_error : StatusType
  not_implemented bad_gateway service_unavailable : StatusType

-- The enumerators' values.
unfoldable pub status_code : StatusType → ℕ
status_code ok = 200
status_code created = 201
status_code accepted = 202
status_code no_content = 204
status_code multiple_choices = 300
status_code moved_permanently = 301
status_code moved_temporarily = 302
status_code not_modified = 304
status_code bad_request = 400
status_code unauthorized = 401
status_code forbidden = 403
status_code not_found = 404
status_code internal_server_error = 500
status_code not_implemented = 501
status_code bad_gateway = 502
status_code service_unavailable = 503

pub record Reply : Type 0 where
  pub status : StatusType
  pub headers : List Header
  pub content : Bytes

-- `status_strings::to_buffer`.
unfoldable pub to_buffer : StatusType → Bytes
to_buffer ok = codes "HTTP/1.0 200 OK\r\n"
to_buffer created = codes "HTTP/1.0 201 Created\r\n"
to_buffer accepted = codes "HTTP/1.0 202 Accepted\r\n"
to_buffer no_content = codes "HTTP/1.0 204 No Content\r\n"
to_buffer multiple_choices = codes "HTTP/1.0 300 Multiple Choices\r\n"
to_buffer moved_permanently = codes "HTTP/1.0 301 Moved Permanently\r\n"
to_buffer moved_temporarily = codes "HTTP/1.0 302 Moved Temporarily\r\n"
to_buffer not_modified = codes "HTTP/1.0 304 Not Modified\r\n"
to_buffer bad_request = codes "HTTP/1.0 400 Bad Request\r\n"
to_buffer unauthorized = codes "HTTP/1.0 401 Unauthorized\r\n"
to_buffer forbidden = codes "HTTP/1.0 403 Forbidden\r\n"
to_buffer not_found = codes "HTTP/1.0 404 Not Found\r\n"
to_buffer internal_server_error = codes "HTTP/1.0 500 Internal Server Error\r\n"
to_buffer not_implemented = codes "HTTP/1.0 501 Not Implemented\r\n"
to_buffer bad_gateway = codes "HTTP/1.0 502 Bad Gateway\r\n"
to_buffer service_unavailable = codes "HTTP/1.0 503 Service Unavailable\r\n"

-- `misc_strings`.
abbrev pub name_value_separator : Bytes
name_value_separator = b':' ∷ b' ' ∷ []

abbrev pub crlf : Bytes
crlf = b'\r' ∷ b'\n' ∷ []

-- The loop of `reply::to_buffers` over the headers, with the buffers pushed so far.
header_buffers : List Header → List Bytes → List Bytes
header_buffers [] buffers = buffers
header_buffers (h ∷ hs) buffers =
    header_buffers hs (buffers ++ (h.name ∷ name_value_separator ∷ h.value ∷ crlf ∷ []))

unfoldable pub to_buffers : Reply → List Bytes
unfolding header_buffers
to_buffers r = header_buffers r.headers (to_buffer r.status ∷ []) ++ (crlf ∷ r.content ∷ [])

-- `stock_replies::to_string`.
unfoldable pub to_string : StatusType → Bytes
to_string ok = codes ""
to_string created =
    codes "<html><head><title>Created</title></head><body><h1>201 Created</h1></body></html>"
to_string accepted =
    codes "<html><head><title>Accepted</title></head><body><h1>202 Accepted</h1></body></html>"
to_string no_content =
    codes "<html><head><title>No Content</title></head><body><h1>204 Content</h1></body></html>"
to_string multiple_choices =
    codes
      "<html><head><title>Multiple Choices</title></head><body><h1>300 Multiple Choices</h1></body></html>"
to_string moved_permanently =
    codes
      "<html><head><title>Moved Permanently</title></head><body><h1>301 Moved Permanently</h1></body></html>"
to_string moved_temporarily =
    codes
      "<html><head><title>Moved Temporarily</title></head><body><h1>302 Moved Temporarily</h1></body></html>"
to_string not_modified =
    codes
      "<html><head><title>Not Modified</title></head><body><h1>304 Not Modified</h1></body></html>"
to_string bad_request =
    codes
      "<html><head><title>Bad Request</title></head><body><h1>400 Bad Request</h1></body></html>"
to_string unauthorized =
    codes
      "<html><head><title>Unauthorized</title></head><body><h1>401 Unauthorized</h1></body></html>"
to_string forbidden =
    codes "<html><head><title>Forbidden</title></head><body><h1>403 Forbidden</h1></body></html>"
to_string not_found =
    codes "<html><head><title>Not Found</title></head><body><h1>404 Not Found</h1></body></html>"
to_string internal_server_error =
    codes
      "<html><head><title>Internal Server Error</title></head><body><h1>500 Internal Server Error</h1></body></html>"
to_string not_implemented =
    codes
      "<html><head><title>Not Implemented</title></head><body><h1>501 Not Implemented</h1></body></html>"
to_string bad_gateway =
    codes
      "<html><head><title>Bad Gateway</title></head><body><h1>502 Bad Gateway</h1></body></html>"
to_string service_unavailable =
    codes
      "<html><head><title>Service Unavailable</title></head><body><h1>503 Service Unavailable</h1></body></html>"

-- The two headers that every reply of the server gets.
abbrev pub standard_headers : (ℕ → Bytes) → Bytes → Bytes → List Header
standard_headers lexical_cast content type =
    record { name = codes "Content-Length"; value = lexical_cast (length content) }
    ∷ record { name = codes "Content-Type"; value = type }
    ∷ []

unfoldable pub stock_reply : (ℕ → Bytes) → StatusType → Reply
stock_reply lexical_cast s = record {
  status = s;
  headers = standard_headers lexical_cast (to_string s) (codes "text/html");
  content = to_string s;
}
