-- ===== src/HttpCoro/Server.antt =====
-- The accepting coroutine of boost_http_server_3/server.cpp and the children that it forks, told apart
-- by the order in which they are forked. Beside the children the state counts the asynchronous
-- operations that are outstanding, since each of them calls a coroutine once.
pub mod Running
pub mod Invariant
pub mod Operations
use boost_learn.Common.{
  update, ℕ, ◌+◌, ◌-◌, Bool, true, false, List, [], ◌∷◌, Bytes, ◌==◌, if◌then◌else◌,
}
use boost_learn.Http.Reply.{Reply}
use boost_learn.HttpCoro.Request.{Request}
use boost_learn.HttpCoro.Session.{
  Session, Call, async_read_some, async_write, shutdown_both, forked,
}

pub record Server : Type 0 where
  pub accepts : ℕ
  -- how many children were forked
  pub forks : ℕ
  pub session : ℕ → Session
  pub operations : ℕ → ℕ

-- How many operations the calls start.
unfoldable pub started : List Call → ℕ
started [] = 0
started (async_read_some ∷ calls) = 1 + started calls
started (async_write bs ∷ calls) = 1 + started calls
started (shutdown_both ∷ calls) = started calls

-- A child leaves these objects and has made these calls.
unfoldable pub leaves : ℕ → Session × List Call → Server → Server
unfolding started
leaves k (t, calls) s = record s {
  session = update s.session k t;
  operations = update s.operations k (s.operations k + started calls);
}

-- The loop from its start: a new socket and `async_accept`.
abbrev next_accept : Server → Server
next_accept s = record s { accepts = s.accepts + 1 }

-- What a `new request` holds, and the `content_length_` of a parser, which are not set.
module _ (unset : ℕ) (new_request : Request) (new_reply : Reply) where
  -- `operator()` of the parent when an accept has completed: `fork` runs the child up to its first
  -- `yield`, and then the loop goes on. With an error nothing is done.
  unfoldable pub parent_resumes : Bool → Server → Server
  unfolding leaves
  parent_resumes error s =
      if error
      then s
      else next_accept
          (record (leaves s.forks (forked unset new_request new_reply) s) { forks = s.forks + 1 })

  -- The server that main.cpp makes and calls, up to its first `yield`.
  unfoldable pub launched : Server
  launched = next_accept (record {
    accepts = 0;
    forks = 0;
    session = λ k. (forked unset new_request new_reply).0;
    operations = λ k. 0;
  })

-- The completion of an operation takes it off the count.
abbrev pub accept_completes : Server → Server
accept_completes s = record s { accepts = s.accepts - 1 }

abbrev pub completes : ℕ → Server → Server
completes k s = record s { operations = update s.operations k (s.operations k - 1) }
