-- ===== src/Http/Server/Running.antt =====
-- The runs of the server: any order of completions and signals.
use boost_learn.Common.{ℕ, ◌≡◌, ◌<◌, false, Option, some, List, Bytes}
use boost_learn.Http.Connection.{
  Connection, ErrorCode, operation_aborted, Call, handle_read, handle_write,
}
use boost_learn.Http.Server.{
  Server, handle_accept, handle_stop, listening, accept_completes, read_completes, write_completes,
  after_handler,
}

module _ (lexical_cast : ℕ → Bytes) (open_file : Bytes → Option Bytes) (doc_root : Bytes)
    (fresh : Connection) where
  -- One completion handler, or the signal handler. An operation fails as aborted only if its socket
  -- or acceptor was closed; otherwise the network decides.
  pub data Step (s : Server) : Server → Type 0 where
    accepted :
        (e : ErrorCode)
        → 0 < s.accepts
        → (e ≡ operation_aborted → s.is_open ≡ false)
        → Step s (handle_accept fresh e (accept_completes e s))
    was_read :
        (c : ℕ) (e : ErrorCode) (bytes : Bytes) (k : Connection) (calls : List Call)
        → 0 < s.reads c
        → (e ≡ operation_aborted → s.socket c ≡ false)
        → handle_read lexical_cast open_file doc_root (s.connection c) e bytes ≡ some (k, calls)
        → Step s (after_handler c k calls (read_completes c s))
    was_written :
        (c : ℕ) (e : ErrorCode) (k : Connection) (calls : List Call)
        → 0 < s.writes c
        → (e ≡ operation_aborted → s.socket c ≡ false)
        → handle_write (s.connection c) e ≡ (k, calls)
        → Step s (after_handler c k calls (write_completes c s))
    signalled : Step s (handle_stop s)

  pub data Reach : Server → Type 0 where
    begins : Reach (listening fresh)
    steps : {s t : Server} → Reach s → Step s t → Reach t
