-- ===== src/Http/Server/Invariant.antt =====
-- What holds of the server after any run.
use boost_learn.Common.{
  ℕ, ◌+◌, ◌≡◌, ◌<◌, ◌≤◌, refl, sym, ap, true, false, Option, none, some, List, [], ◌∷◌, Bytes,
  arith,
}
use boost_learn.Http.Connection.{
  Connection, ErrorCode, success, operation_aborted, failure, Call, async_read_some, async_write,
  shutdown_both, manager_stop, handle_read, handle_write, on_parsed,
}
use boost_learn.Http.Parser.{Parsed, parsed, parse}
use boost_learn.Http.Tribool.{Tribool, indeterminate}
use boost_learn.Http.Server.{
  Server, handle_accept, handle_stop, listening, accept_completes, read_completes, write_completes,
  after_handler,
}
use boost_learn.Http.Server.Running.{
  Step, accepted, was_read, was_written, signalled, Reach, begins, steps,
}

-- The acceptor's part.
abbrev Accepting : Server → Type 0
Accepting s = (s.accepts ≤ 1) × (s.is_open ≡ true → s.accepts ≡ 1) × (s.new_connection < s.created)

-- The part of one connection.
abbrev Good : Server → ℕ → Type 0
Good s c =
    (s.reads c + s.writes c ≤ 1)
    × (s.managed c ≡ true → (s.reads c + s.writes c ≡ 1) × (s.socket c ≡ true) × (s.is_open ≡ true))
    × (s.created ≤ c → (s.reads c + s.writes c ≡ 0) × (s.managed c ≡ false))
    × (s.is_open ≡ true
        → c ≡ s.new_connection
        → (s.reads c + s.writes c ≡ 0) × (s.managed c ≡ false))

listening-Good : (fresh : Connection) (c : ℕ) → Good (listening fresh) c
unfolding listening
listening-Good fresh c = ground arith

listening-Accepting : (fresh : Connection) → Accepting (listening fresh)
unfolding listening
listening-Accepting fresh = ground arith

handle_stop-Good : (s : Server) (c : ℕ) → Good s c → Good (handle_stop s) c
unfolding handle_stop
handle_stop-Good s c h = ground arith

handle_accept-Accepting :
    (fresh : Connection) (e : ErrorCode) (s : Server)
    → Accepting s
    → 0 < s.accepts
    → Accepting (handle_accept fresh e (accept_completes e s))
unfolding handle_accept
handle_accept-Accepting fresh success s h p = ground arith
handle_accept-Accepting fresh operation_aborted s h p = ground arith
handle_accept-Accepting fresh failure s h p = ground arith

handle_accept-Good :
    (fresh : Connection) (e : ErrorCode) (s : Server) (c : ℕ)
    → Good s c
    → s.new_connection < s.created
    → Good (handle_accept fresh e (accept_completes e s)) c
unfolding handle_accept
handle_accept-Good fresh success s c h p = ground arith
handle_accept-Good fresh operation_aborted s c h p = ground arith
handle_accept-Good fresh failure s c h p = ground arith

-- What a handler can ask for: one more operation, or none and then the connection is given up, unless
-- the operation was aborted.
data Ending (e : ErrorCode) : List Call → Type 0 where
  reading : Ending e (async_read_some ∷ [])
  writing : (bs : List Bytes) → Ending e (async_write bs ∷ [])
  stopping : Ending e (manager_stop ∷ [])
  closing : Ending e (shutdown_both ∷ manager_stop ∷ [])
  aborting : e ≡ operation_aborted → Ending e []

abbrev asked : Option (Connection × List Call) → List Call
asked none = []
asked (some (k, calls)) = calls

module _ (lexical_cast : ℕ → Bytes) (open_file : Bytes → Option Bytes) (doc_root : Bytes) where
  on_parsed-Ending :
      (k : Connection) (p : Parsed) (k' : Connection) (calls : List Call)
      → on_parsed lexical_cast open_file doc_root k p ≡ some (k', calls)
      → Ending success calls
  on_parsed-Ending k Parsed.fault k' calls h = ground arith
  on_parsed-Ending k (parsed Tribool.true rest st r) k' calls h = rw (ap asked (sym h)) (writing _)
  on_parsed-Ending k (parsed Tribool.false rest st r) k' calls h = rw (ap asked (sym h)) (writing _)
  on_parsed-Ending k (parsed indeterminate rest st r) k' calls h = rw (ap asked (sym h)) reading

  handle_read-Ending :
      (k : Connection) (e : ErrorCode) (bytes : Bytes) (k' : Connection) (calls : List Call)
      → handle_read lexical_cast open_file doc_root k e bytes ≡ some (k', calls)
      → Ending e calls
  unfolding handle_read
  handle_read-Ending k success bytes k' calls h =
      on_parsed-Ending k (parse k.parser k.request bytes) k' calls h
  handle_read-Ending k operation_aborted bytes k' calls h = rw (ap asked (sym h)) (aborting refl)
  handle_read-Ending k failure bytes k' calls h = rw (ap asked (sym h)) stopping

handle_write-Ending :
    (k : Connection) (e : ErrorCode) (k' : Connection) (calls : List Call)
    → handle_write k e ≡ (k', calls)
    → Ending e calls
unfolding handle_write
handle_write-Ending k success k' calls h = rw (ap (λ x. x.1) (sym h)) closing
handle_write-Ending k operation_aborted k' calls h = rw (ap (λ x. x.1) (sym h)) (aborting refl)
handle_write-Ending k failure k' calls h = rw (ap (λ x. x.1) (sym h)) stopping

-- Before the calls are made, connection `c` has no operation left.
read_done-Good :
    (s : Server) (c d : ℕ) (e : ErrorCode) (k : Connection) (calls : List Call)
    → Ending e calls
    → Good s c
    → Good s d
    → 0 < s.reads c
    → (e ≡ operation_aborted → s.socket c ≡ false)
    → Good (after_handler c k calls (read_completes c s)) d
unfolding after_handler
read_done-Good s c d e k calls reading hc hd p q = ground arith
read_done-Good s c d e k calls (writing bs) hc hd p q = ground arith
read_done-Good s c d e k calls stopping hc hd p q = ground arith
read_done-Good s c d e k calls closing hc hd p q = ground arith
read_done-Good s c d e k calls (aborting r) hc hd p q = ground arith

write_done-Good :
    (s : Server) (c d : ℕ) (e : ErrorCode) (k : Connection) (calls : List Call)
    → Ending e calls
    → Good s c
    → Good s d
    → 0 < s.writes c
    → (e ≡ operation_aborted → s.socket c ≡ false)
    → Good (after_handler c k calls (write_completes c s)) d
unfolding after_handler
write_done-Good s c d e k calls reading hc hd p q = ground arith
write_done-Good s c d e k calls (writing bs) hc hd p q = ground arith
write_done-Good s c d e k calls stopping hc hd p q = ground arith
write_done-Good s c d e k calls closing hc hd p q = ground arith
write_done-Good s c d e k calls (aborting r) hc hd p q = ground arith

read_done-Accepting :
    (s : Server) (c : ℕ) (e : ErrorCode) (k : Connection) (calls : List Call)
    → Ending e calls
    → Accepting s
    → Accepting (after_handler c k calls (read_completes c s))
unfolding after_handler
read_done-Accepting s c e k calls reading h = ground arith
read_done-Accepting s c e k calls (writing bs) h = ground arith
read_done-Accepting s c e k calls stopping h = ground arith
read_done-Accepting s c e k calls closing h = ground arith
read_done-Accepting s c e k calls (aborting r) h = ground arith

write_done-Accepting :
    (s : Server) (c : ℕ) (e : ErrorCode) (k : Connection) (calls : List Call)
    → Ending e calls
    → Accepting s
    → Accepting (after_handler c k calls (write_completes c s))
unfolding after_handler
write_done-Accepting s c e k calls reading h = ground arith
write_done-Accepting s c e k calls (writing bs) h = ground arith
write_done-Accepting s c e k calls stopping h = ground arith
write_done-Accepting s c e k calls closing h = ground arith
write_done-Accepting s c e k calls (aborting r) h = ground arith

module _ (lexical_cast : ℕ → Bytes) (open_file : Bytes → Option Bytes) (doc_root : Bytes)
    (fresh : Connection) where
  step_lem :
      (s t : Server)
      → Step lexical_cast open_file doc_root fresh s t
      → Accepting s
      → ((c : ℕ) → Good s c)
      → Accepting t × ((c : ℕ) → Good t c)
  unfolding handle_stop
  step_lem s t (accepted e p q) ha hg =
      (handle_accept-Accepting fresh e s ha p, λ c. handle_accept-Good fresh e s c (hg c) ha.2)
  step_lem s t (was_read c e bytes k calls p q r) ha hg =
      let end =
        handle_read-Ending lexical_cast open_file doc_root (s.connection c) e bytes k calls r in
      (
        read_done-Accepting s c e k calls end ha,
        λ d. read_done-Good s c d e k calls end (hg c) (hg d) p q,
      )
  step_lem s t (was_written c e k calls p q r) ha hg =
      let end = handle_write-Ending (s.connection c) e k calls r in
      (
        write_done-Accepting s c e k calls end ha,
        λ d. write_done-Good s c d e k calls end (hg c) (hg d) p q,
      )
  step_lem s t signalled ha hg = ((ground arith), λ c. handle_stop-Good s c (hg c))

  reach_lem :
      (s : Server)
      → Reach lexical_cast open_file doc_root fresh s
      → Accepting s × ((c : ℕ) → Good s c)
  reach_lem s begins = (listening-Accepting fresh, λ c. listening-Good fresh c)
  reach_lem t (steps {s} r st) = let before = reach_lem s r in step_lem s t st before.0 before.1

  -- In every run, whatever the order of completions and signals, an accept is outstanding, and only
  -- one, as long as the acceptor is open.
  pub Reach-accepts :
      (s : Server)
      → Reach lexical_cast open_file doc_root fresh s
      → s.is_open ≡ true
      → s.accepts ≡ 1
  Reach-accepts s r h = (reach_lem s r).0.1 h

  -- In every run no more than one accept is outstanding, and no more than one operation of each
  -- connection: its handlers never overlap.
  pub Reach-operations :
      (s : Server) (c : ℕ)
      → Reach lexical_cast open_file doc_root fresh s
      → (s.accepts ≤ 1) × (s.reads c + s.writes c ≤ 1)
  Reach-operations s c r = let h = reach_lem s r in (h.0.0, (h.1 c).0)

  -- In every run a connection in the manager's set has exactly one operation outstanding, its socket is
  -- open, and so is the acceptor.
  pub Reach-managed :
      (s : Server) (c : ℕ)
      → Reach lexical_cast open_file doc_root fresh s
      → s.managed c ≡ true
      → (s.reads c + s.writes c ≡ 1) × (s.socket c ≡ true) × (s.is_open ≡ true)
  Reach-managed s c r h = ((reach_lem s r).1 c).1 h
