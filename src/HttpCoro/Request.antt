-- ===== src/HttpCoro/Request.antt =====
-- A request with its content: boost_http_server_3/request.hpp.
use boost_learn.Common.{ℕ, List, Bytes}
use boost_learn.Http.Request.{Header, Request as BasicRequest}

-- The headers are those of the first server, and so are the two `int`s.
pub record Request : Type 0 where
  pub method : Bytes
  pub uri : Bytes
  pub http_version_major : ℕ
  pub http_version_minor : ℕ
  pub headers : List Header
  pub content : Bytes

-- The same request without its content, as the first server holds it.
abbrev pub basic : Request → BasicRequest
basic r = record {
  method = r.method;
  uri = r.uri;
  http_version_major = r.http_version_major;
  http_version_minor = r.http_version_minor;
  headers = r.headers;
}
