-- ===== src/EchoSession/Server.antt =====
-- `server` of boost_asio/cpp_03_example/allocation_server.cpp with its sessions, told apart by the order
-- in which they are made, and its runs.
pub mod Apart
use mathlib.Core.Path.{subst}
use boost_learn.Common.{
  update, ℕ, ◌+◌, ◌-◌, ◌<◌, ◌≤◌, ◌≡◌, ◌⊎◌, inl, inr, refl, sym, ap, Bool, true, false, Option, some,
  [], arith, ◌==◌, if◌then◌else◌, Bytes, length, Bool-cases, ltb,
}
use boost_learn.HandlerMemory.{Pointer, storage_size}
use boost_learn.EchoSession
use boost_learn.EchoSession.{
  EchoSession, Operation, reading, writing, buffer_size, made, start, handle_read, handle_write,
  arrives, departs, release, starts,
}
use boost_learn.EchoSession.Echoes.{Echoing, Reach-Echoing}

pub record EchoServer : Type 0 where
  pub created : ℕ
  -- the session that is bound to the handler of the outstanding accept
  pub new_session : ℕ
  pub accepts : ℕ
  pub session : ℕ → EchoSession

-- `new session` and `async_accept`.
abbrev next_accept : EchoServer → EchoServer
next_accept s = record s {
  created = s.created + 1;
  new_session = s.created;
  accepts = s.accepts + 1;
}

-- The session `k` becomes `t`.
abbrev pub puts : ℕ → EchoSession → EchoServer → EchoServer
puts k t s = record s { session = update s.session k t }

module _ (handler_size : Operation → ℕ) (garbage : ℕ → Bytes) where
  unfoldable pub server : EchoServer
  server = next_accept (record {
    created = 0;
    new_session = 0;
    accepts = 0;
    session = λ k. made handler_size (garbage k);
  })

  unfoldable pub handle_accept : Bool → EchoServer → EchoServer
  handle_accept error s =
      next_accept
        (if error then s else puts s.new_session (start handler_size (s.session s.new_session)) s)

  abbrev pub accept_completes : EchoServer → EchoServer
  accept_completes s = record s { accepts = s.accepts - 1 }

  pub data Reach : EchoServer → Type 0 where
    begins : Reach server
    accepted :
        {s : EchoServer} (error : Bool)
        → 0 < s.accepts
        → Reach s
        → Reach (handle_accept error (accept_completes s))
    reads :
        {s : EchoServer} (k : ℕ) (p : Pointer) (bs : Bytes)
        → (s.session k).pending ≡ some (p, reading)
        → length bs ≤ buffer_size
        → Reach s
        → Reach (
            puts k
              (handle_read handler_size false (length bs) (arrives handler_size p bs (s.session k)))
              s)
    read_fails :
        {s : EchoServer} (k : ℕ) (p : Pointer)
        → (s.session k).pending ≡ some (p, reading)
        → Reach s
        → Reach (puts k (handle_read handler_size true 0 (release handler_size p (s.session k))) s)
    writes :
        {s : EchoServer} (k : ℕ) (p : Pointer) (bs : Bytes)
        → (s.session k).pending ≡ some (p, writing bs)
        → Reach s
        → Reach
            (puts k (handle_write handler_size false (departs handler_size p bs (s.session k))) s)
    write_fails :
        {s : EchoServer} (k : ℕ) (p : Pointer) (bs : Bytes)
        → (s.session k).pending ≡ some (p, writing bs)
        → Reach s
        → Reach (puts k (handle_write handler_size true (release handler_size p (s.session k))) s)
