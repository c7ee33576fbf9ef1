-- ===== src/Daytime.antt =====
-- boost_asio/server/daytime7.cpp: a TCP and a UDP server on one io_context. Connections are told apart by
-- the order in which they are made, and peers by numbers. What `make_daytime_string` returns is an
-- argument of the handlers.
pub mod Replies
use boost_learn.Common.{ℕ, ◌+◌, Bool, true, false, List, [], ◌∷◌, ◌++◌, if◌then◌else◌, Bytes}

-- `tcp_server`: how many connections were made, and the one that the outstanding accept is for.
pub record TcpServer : Type 0 where
  pub created : ℕ
  pub new_connection : ℕ
  -- the outstanding accepts
  pub accepts : ℕ
  -- the writes that were started, by their connections
  pub writes : List (ℕ × Bytes)

-- `udp_server`.
pub record UdpServer : Type 0 where
  pub remote_endpoint : ℕ
  -- the outstanding receives
  pub receives : ℕ
  -- the datagrams that were sent
  pub sends : List (ℕ × Bytes)

-- `tcp_server::start_accept`, with `tcp_connection::create`.
unfoldable pub start_accept : TcpServer → TcpServer
start_accept s = record s {
  created = s.created + 1;
  new_connection = s.created;
  accepts = s.accepts + 1;
}

-- `tcp_connection::start`; the handler of the write does nothing.
unfoldable pub start : ℕ → Bytes → TcpServer → TcpServer
start c now s = record s { writes = s.writes ++ (c, now) ∷ [] }

unfoldable pub handle_accept : Bool → Bytes → TcpServer → TcpServer
unfolding start start_accept
handle_accept error now s = start_accept (if error then s else start s.new_connection now s)

unfoldable pub tcp_server : TcpServer
unfolding start_accept
tcp_server = start_accept (record { created = 0; new_connection = 0; accepts = 0; writes = [] })

unfoldable pub start_receive : UdpServer → UdpServer
start_receive s = record s { receives = s.receives + 1 }

-- The handler of the send does nothing.
unfoldable pub handle_receive : Bool → Bytes → UdpServer → UdpServer
unfolding start_receive
handle_receive error now s =
    if error
    then s
    else start_receive (record s { sends = s.sends ++ (s.remote_endpoint, now) ∷ [] })

unfoldable pub udp_server : UdpServer
unfolding start_receive
udp_server = start_receive (record { remote_endpoint = 0; receives = 0; sends = [] })
