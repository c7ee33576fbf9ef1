-- ===== src/Chat.antt =====
-- The chat of boost_asio/cpp_03_example: the message, the server's sessions and their room.
pub mod Message
pub mod Session
pub mod Room
pub mod Client
pub mod PosixClient
