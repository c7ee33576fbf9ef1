-- ===== src/Http/Server.antt =====
-- boost_http_server_1/src/server.cpp and connection_manager.cpp, over the connections of
-- connection.cpp. Connections are told apart by the order in which they are made. Beside its fields
-- the state counts the asynchronous operations that are outstanding, since each of them runs a
-- handler once.
pub mod Running
pub mod Invariant
use boost_learn.Common.{
  update, ℕ, zero, suc, ◌+◌, ◌-◌, ◌≡◌, ◌<◌, refl, Bool, true, false, not, ◌&&◌, Option, none, some,
  List, [], ◌∷◌, Bytes, ◌==◌, if◌then◌else◌,
}
use boost_learn.Http.Connection.{
  Connection, ErrorCode, success, operation_aborted, failure, Call, async_read_some, async_write,
  shutdown_both, manager_stop, start, handle_read, handle_write,
}

pub record Server : Type 0 where
  -- `acceptor_.is_open()`
  pub is_open : Bool
  -- `connection_manager_.connections_`, as a set
  pub managed : ℕ → Bool
  pub new_connection : ℕ
  -- how many connections have been made
  pub created : ℕ
  pub connection : ℕ → Connection
  -- whether a connection's socket is open
  pub socket : ℕ → Bool
  -- outstanding operations
  pub accepts : ℕ
  pub reads : ℕ → ℕ
  pub writes : ℕ → ℕ

-- `connection::stop`.
close_socket : ℕ → Server → Server
close_socket c s = record s { socket = update s.socket c false }

-- `connection_manager::start`, with the read that `connection::start` begins.
pub manager_start : ℕ → Server → Server
manager_start c s = record s {
  managed = update s.managed c true;
  reads = update s.reads c (s.reads c + 1);
}

-- `connection_manager::stop`.
pub manager_stop_one : ℕ → Server → Server
unfolding close_socket
manager_stop_one c s = close_socket c (record s { managed = update s.managed c false })

-- `connection_manager::stop_all`.
pub stop_all : Server → Server
stop_all s = record s { managed = λ c. false; socket = λ c. s.socket c && not (s.managed c) }

-- What the calls of a connection's handler do to the server.
perform : ℕ → Call → Server → Server
unfolding manager_stop_one
perform c async_read_some s = record s { reads = update s.reads c (s.reads c + 1) }
perform c (async_write bs) s = record s { writes = update s.writes c (s.writes c + 1) }
perform c shutdown_both s = s
perform c manager_stop s = manager_stop_one c s

perform_all : ℕ → List Call → Server → Server
unfolding perform
perform_all c [] s = s
perform_all c (k ∷ ks) s = perform_all c ks (perform c k s)

module _ (fresh : Connection) where
  -- `fresh` is a connection that was just made.
  pub start_accept : Server → Server
  start_accept s = record s {
    new_connection = s.created;
    created = s.created + 1;
    connection = update s.connection s.created fresh;
    accepts = s.accepts + 1;
  }

  unfoldable pub handle_accept : ErrorCode → Server → Server
  unfolding start_accept manager_start
  handle_accept e s =
      let started : Server = elim e [ success ↦ manager_start s.new_connection s | _ ↦ s ] in
      if not s.is_open then s else start_accept started

  -- The constructor, once the acceptor listens.
  unfoldable pub listening : Server
  unfolding start_accept
  listening = start_accept (record {
    is_open = true;
    managed = λ c. false;
    new_connection = 0;
    created = 0;
    connection = λ c. fresh;
    socket = λ c. false;
    accepts = 0;
    reads = λ c. 0;
    writes = λ c. 0;
  })

unfoldable pub handle_stop : Server → Server
unfolding stop_all
handle_stop s = stop_all (record s { is_open = false })

-- The completion of an operation takes it off the count. A connection that was accepted has an open
-- socket.
abbrev pub accept_completes : ErrorCode → Server → Server
accept_completes success s = record s {
  accepts = s.accepts - 1;
  socket = update s.socket s.new_connection true;
}
accept_completes _ s = record s { accepts = s.accepts - 1 }

abbrev pub read_completes : ℕ → Server → Server
read_completes c s = record s { reads = update s.reads c (s.reads c - 1) }

abbrev pub write_completes : ℕ → Server → Server
write_completes c s = record s { writes = update s.writes c (s.writes c - 1) }

-- A handler of connection `c` leaves the connection `k` and makes the calls.
unfoldable pub after_handler : ℕ → Connection → List Call → Server → Server
unfolding perform_all
after_handler c k calls s = perform_all c calls (record s { connection = update s.connection c k })
