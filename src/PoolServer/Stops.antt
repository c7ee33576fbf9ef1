-- ===== src/PoolServer/Stops.antt =====
-- The server runs until it is stopped, and then ends.
use mathlib.Core.Path.{subst}
use boost_learn.Common.{ℕ, ◌<◌, ◌≡◌, refl, sym, ◌∙◌, Bool, Option, none, some, List}
use boost_learn.IoContextPool.Threads.{Runs, Steps, GoesOn}
use boost_learn.IoContextPool.Returns.{
  IsWaiting, Returned, run-IsWaiting, Steps-IsWaiting, stop-Returned,
}
use boost_learn.PoolServer.{PoolServer, run, handle_stop}
use boost_learn.PoolServer.Turns
use boost_learn.PoolServer.Turns.{expected, accepted_from, run-expected}

-- The work of every context stays tracked.
abbrev Tracks : Option PoolServer → Type 0
Tracks none = Unit
Tracks (some s) = s.io_context_pool_.work ≡ s.io_context_pool_.io_contexts

tracks_all :
    (size : ℕ) (es : List Bool) (s : PoolServer)
    → 0 < size
    → Turns.run size es ≡ some s
    → s.io_context_pool_.work ≡ s.io_context_pool_.io_contexts
tracks_all size es s h e = subst Tracks (sym (run-expected size es h) ∙ e) refl

-- A server over a pool of at least one context, after any accepts. However the threads of its `run` have
-- gone on: the contexts whose threads were joined have all been stopped, and every other context is still
-- waited for, so that `run` does not return before all contexts are stopped; and from `handle_stop` on
-- the threads can end and be joined until `run` returns.
pub run-handle_stop :
    (size : ℕ) (es : List Bool) (s : PoolServer) (r : Runs)
    → 0 < size
    → Turns.run size es ≡ some s
    → Steps s.io_context_pool_ (run s) r
    → IsWaiting s.io_context_pool_ r
      × ((t : Runs) × GoesOn s.io_context_pool_ (handle_stop s r) t × Returned t)
unfolding run handle_stop
run-handle_stop size es s r h e ks =
    let tracked = tracks_all size es s h e in
    let i = Steps-IsWaiting tracked ks (run-IsWaiting s.io_context_pool_) in
    (i, stop-Returned s.io_context_pool_ r i)
