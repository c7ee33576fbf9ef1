-- ===== src/Http/Request.antt =====
-- A request: boost_http_server_1/src/request.hpp and header.hpp.
use boost_learn.Common.{ℕ, List, Bytes}

pub record Header : Type 0 where
  pub name : Bytes
  pub value : Bytes

-- The two version numbers are 32-bit `int`s, written by their bit patterns.
pub record Request : Type 0 where
  pub method : Bytes
  pub uri : Bytes
  pub http_version_major : ℕ
  pub http_version_minor : ℕ
  pub headers : List Header
