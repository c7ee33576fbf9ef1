-- ===== src/PoolServer.antt =====
-- boost_asio/cpp_03_example/boost_http_server_2/src/server.cpp, over its io_context pool. A connection
-- is known by the number of its turn.
pub mod Turns
pub mod Stops
pub mod Connection
use boost_learn.Common.{
  ℕ, ◌+◌, ◌-◌, Bool, Option, none, some, List, [], ◌∷◌, ◌++◌, if◌then◌else◌, length,
}
use boost_learn.IoContextPool.{Pool, io_context_pool, get_io_context}
use boost_learn.IoContextPool.Threads
use boost_learn.IoContextPool.Threads.{Runs, stop}

pub record PoolServer : Type 0 where
  pub io_context_pool_ : Pool
  -- the contexts of the signal set, of the acceptor, and of every connection that was made
  pub signals : ℕ
  pub acceptor : ℕ
  pub contexts : List ℕ
  -- the connections that were started
  pub started : List ℕ

abbrev and_then {ℓ κ} : {A : Type ℓ} {B : Type κ} → Option A → (A → Option B) → Option B
and_then none f = none
and_then (some a) f = f a

-- `none` is a failure of the pool.
unfoldable pub start_accept : PoolServer → Option PoolServer
start_accept s =
    and_then (get_io_context s.io_context_pool_)
      (λ r. some (record s { io_context_pool_ = r.1; contexts = s.contexts ++ r.0 ∷ [] }))

-- `new_connection_` is the last connection that was made.
unfoldable pub handle_accept : Bool → PoolServer → Option PoolServer
unfolding start_accept
handle_accept error s =
    start_accept
      (if error then s else record s { started = s.started ++ (length s.contexts - 1) ∷ [] })

-- The members' initialisers, in order: each takes the next context.
abbrev pub initialised : ℕ × Pool → ℕ × Pool → Option PoolServer
initialised first second = start_accept (record {
  io_context_pool_ = second.1;
  signals = first.0;
  acceptor = second.0;
  contexts = [];
  started = [];
})

abbrev pub with_signals : ℕ × Pool → Option PoolServer
with_signals first = and_then (get_io_context first.1) (initialised first)

abbrev pub with_pool : Pool → Option PoolServer
with_pool pool = and_then (get_io_context pool) with_signals

unfoldable pub server : ℕ → Option PoolServer
server io_context_pool_size = and_then (io_context_pool io_context_pool_size) with_pool

unfoldable pub run : PoolServer → Runs
run s = Threads.run s.io_context_pool_

unfoldable pub handle_stop : PoolServer → Runs → Runs
handle_stop s r = stop s.io_context_pool_ r
