-- ===== src/EchoSession/Server/Apart.antt =====
-- The sessions of the server, each in a run of its own.
use boost_learn.Common.{ℕ, ◌+◌, ◌≤◌, ◌≡◌, ◌⊎◌, Option, Bytes}
use boost_learn.HandlerMemory.{Pointer}
use boost_learn.EchoSession
use boost_learn.EchoSession.{EchoSession, Operation, buffer_size, made}
use boost_learn.EchoSession.Server.{EchoServer, Reach}

abbrev pending_of : EchoSession → Option (Pointer × Operation)
pending_of t = t.pending

module _ (handler_size : Operation → ℕ) (garbage : ℕ → Bytes) where
  -- A session was made, or it is in a run of its own.
  abbrev Known : ℕ → EchoSession → Type 0
  Known k t = (t ≡ made handler_size (garbage k)) ⊎ EchoSession.Reach handler_size (garbage k) t

  -- The session that waits for its connection is the newest, and was not started.
  record IsServing (s : EchoServer) : Type 0 where
    newest : s.created ≡ s.new_session + 1
    fresh : (k : ℕ) → s.new_session ≤ k → s.session k ≡ made handler_size (garbage k)
    known : (k : ℕ) → Known k (s.session k)
