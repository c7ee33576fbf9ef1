-- ===== src/IoContextPool/Threads.antt =====
-- `io_context_pool::run` and `stop`, boost_asio/cpp_03_example/boost_http_server_2/src/io_context_pool.cpp,
-- step by step. A thread is known by its context.
use boost_learn.Common.{
  ℕ, ◌≡◌, ◌⊎◌, Bool, true, false, List, [], ◌∷◌, ◌++◌, ◌==◌, if◌then◌else◌, update,
}
use boost_learn.IoContextPool.{Pool}

pub record Runs : Type 0 where
  -- the contexts for which the first loop has not made a thread
  pub to_run : List ℕ
  -- the threads that the second loop has not joined
  pub threads : List ℕ
  -- the contexts that were stopped, and the threads that have ended
  pub stopped : ℕ → Bool
  pub ended : ℕ → Bool

-- Before the first turn of the first loop.
unfoldable pub run : Pool → Runs
run p = record { to_run = p.io_contexts; threads = []; stopped = λ c. false; ended = λ c. false }

abbrev pub stop_all : List ℕ → (ℕ → Bool) → ℕ → Bool
stop_all [] stopped = stopped
stop_all (c ∷ cs) stopped = stop_all cs (update stopped c true)

unfoldable pub stop : Pool → Runs → Runs
stop p r = record r { stopped = stop_all p.io_contexts r.stopped }

-- Whether the work of a context is tracked.
abbrev pub tracked : ℕ → List ℕ → Bool
tracked c [] = false
tracked c (w ∷ ws) = if c == w then true else tracked c ws

-- A thread ends when its context was stopped, or when nothing tracks work of it.
pub data Step (p : Pool) : Runs → Runs → Type 0 where
  creates :
      {r : Runs} (c : ℕ) (cs : List ℕ)
      → r.to_run ≡ c ∷ cs
      → Step p r (record r { to_run = cs; threads = r.threads ++ c ∷ [] })
  ends :
      {r : Runs} (before : List ℕ) (c : ℕ) (after : List ℕ)
      → r.threads ≡ before ++ c ∷ after
      → ((r.stopped c ≡ true) ⊎ (tracked c p.work ≡ false))
      → Step p r (record r { ended = update r.ended c true })
  joins :
      {r : Runs} (c : ℕ) (cs : List ℕ)
      → r.to_run ≡ []
      → r.threads ≡ c ∷ cs
      → r.ended c ≡ true
      → Step p r (record r { threads = cs })

-- Steps of the threads alone.
pub data GoesOn (p : Pool) : Runs → Runs → Type 0 where
  ends_here : {r : Runs} → GoesOn p r r
  then : {r s t : Runs} → Step p r s → GoesOn p s t → GoesOn p r t

-- Steps of the threads, and calls of `stop` at any time.
pub data Steps (p : Pool) : Runs → Runs → Type 0 where
  stays : {r : Runs} → Steps p r r
  goes : {r s t : Runs} → Step p r s → Steps p s t → Steps p r t
  stops : {r t : Runs} → Steps p (stop p r) t → Steps p r t
