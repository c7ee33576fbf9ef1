-- ===== src/Tests/OtherTests.antt =====
-- The copies of boost_asio/duff.cpp, and the pool and the server of boost_http_server_2.
use boost_learn.Common.{refl, ◌∷◌, true, false, ◌≡◌, some, [], arith, codes}
use boost_learn.Duff.{Transfer, copy, copy2}
use boost_learn.Duff.Copies.{copy-copy2, one_by_one}
use boost_learn.IoContextPool.Threads
use boost_learn.IoContextPool.Threads.{Runs, GoesOn, goes, creates, stays}
use boost_learn.IoContextPool.Returns.{IsWaiting, Returned}
use boost_learn.PoolServer
use boost_learn.PoolServer.{PoolServer, handle_stop}
use boost_learn.PoolServer.Stops.{run-handle_stop}
use boost_learn.PoolServer.Turns.{run, turns, accepted_from, run-turns, expected, run-expected}

abbrev source : Transfer
source = record { unread = codes "abcabcabcabc"; written = [] }

copy-copy2_example :
    (copy 11 source ≡ one_by_one 11 source) × (copy2 11 source ≡ one_by_one 11 source)
copy-copy2_example = copy-copy2 11 source (omega arith) (omega arith)

-- Three accepts, the second with an error.
run-turns_example :
    (s : PoolServer) × (run 2 (false ∷ true ∷ false ∷ []) ≡ some s)
    × (s.contexts ≡ turns 2 4)
    × (s.started ≡ accepted_from 0 (false ∷ true ∷ false ∷ []))
run-turns_example = run-turns 2 (false ∷ true ∷ false ∷ []) (omega arith)

-- The server of three contexts, after one accept.
abbrev one_accept : PoolServer
one_accept = expected 3 2 (0 ∷ [])

-- The thread of the first context has been made.
run-handle_stop_example :
    IsWaiting one_accept.io_context_pool_
      (record (PoolServer.run one_accept) { to_run = 1 ∷ 2 ∷ []; threads = 0 ∷ [] })
    × ((t : Runs) × GoesOn one_accept.io_context_pool_
          (handle_stop one_accept
            (record (PoolServer.run one_accept) { to_run = 1 ∷ 2 ∷ []; threads = 0 ∷ [] }))
          t
        × Returned t)
unfolding PoolServer.run Threads.run
run-handle_stop_example =
    run-handle_stop 3 (false ∷ []) one_accept
      (record (PoolServer.run one_accept) { to_run = 1 ∷ 2 ∷ []; threads = 0 ∷ [] }) (omega arith)
      (run-expected 3 (false ∷ []) (omega arith)) (goes (creates 0 (1 ∷ 2 ∷ []) refl) stays)
