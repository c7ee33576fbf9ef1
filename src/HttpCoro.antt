-- ===== src/HttpCoro.antt =====
-- The server written with stackless coroutines, boost_asio/cpp_03_example/boost_http_server_3.
pub mod Request
pub mod Parser
pub mod Session
pub mod Server
