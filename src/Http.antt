-- ===== src/Http.antt =====
-- The HTTP servers, boost_asio/cpp_03_example/boost_http_server_1 and its variants.
pub mod Tribool
pub mod Chars
pub mod Request
pub mod Parser
pub mod UrlDecode
pub mod Reply
pub mod MimeTypes
pub mod RequestHandler
pub mod Connection
pub mod Server
