-- ===== src/PoolServer/Turns.antt =====
-- Connections take the contexts of the pool in turn.
use boost_learn.Common.{
  ℕ, zero, suc, ◌+◌, ◌-◌, ◌%◌, ◌<◌, ◌≡◌, refl, sym, ap, ◌∙◌, Bool, true, false, Option, some, List,
  [], ◌∷◌, ◌++◌, arith, append-nil, append_assoc, length, length-append, if◌then◌else◌,
}
use native.Mathlib.Nat.{mod-lt, suc-mod, mod-eq_of_lt}
use boost_learn.IoContextPool.{Pool}
use boost_learn.IoContextPool.RoundRobin.{pool, next_lem, io_context_pool-pool}
use boost_learn.PoolServer.{
  PoolServer, and_then, start_accept, handle_accept, server, initialised, with_signals, with_pool,
}

-- The server and then one accept after the other, with or without an error.
abbrev pub accept_all : List Bool → PoolServer → Option PoolServer
accept_all [] s = some s
accept_all (e ∷ es) s = and_then (handle_accept e s) (accept_all es)

abbrev pub run : ℕ → List Bool → Option PoolServer
run size es = and_then (server size) (accept_all es)

-- The contexts of the first `k` connections.
abbrev pub turns : ℕ → ℕ → List ℕ
turns size zero = []
turns size (suc k) = turns size k ++ ((k + 2) % size) ∷ []

-- The connections that are accepted, if the first of them is number `k`.
abbrev pub accepted_from : ℕ → List Bool → List ℕ
accepted_from k [] = []
accepted_from k (true ∷ es) = accepted_from (suc k) es
accepted_from k (false ∷ es) = k ∷ accepted_from (suc k) es

one_plus : (k : ℕ) → 1 + k ≡ suc k
one_plus k = omega arith

suc_plus : (k : ℕ) → suc (k + 2) ≡ suc k + 2
suc_plus k = omega arith

length-turns : (size k : ℕ) → length (turns size k) ≡ k
length-turns size zero = refl
length-turns size (suc k) =
    omega (arith, length-append (turns size k) (((k + 2) % size) ∷ []), length-turns size k)

-- The server when `k` connections have been made.
abbrev pub expected : ℕ → ℕ → List ℕ → PoolServer
expected size k started = record {
  io_context_pool_ = pool size ((k + 2) % size);
  signals = 0 % size;
  acceptor = 1 % size;
  contexts = turns size k;
  started = started;
}

start_accept_lem :
    (size k : ℕ) (started : List ℕ)
    → 0 < size
    → start_accept (expected size k started) ≡ some (expected size (suc k) started)
unfolding start_accept
start_accept_lem size k started h =
    let j = (k + 2) % size in
    let turn : suc j % size ≡ (suc k + 2) % size =
      sym (suc-mod (k + 2) size) ∙ ap (λ n. n % size) (suc_plus k) in
    let made : ℕ × Pool → Option PoolServer = λ r. some (record {
      io_context_pool_ = r.1;
      signals = 0 % size;
      acceptor = 1 % size;
      contexts = turns size k ++ r.0 ∷ [];
      started = started;
    }) in
    ap (λ o. and_then o made) (next_lem size j (mod-lt (k + 2) h))
    ∙ ap (λ n. made (j, pool size n)) turn

handle_accept_lem :
    (size k : ℕ) (error : Bool) (started : List ℕ)
    → 0 < size
    → handle_accept error (expected size (suc k) started)
      ≡ some (expected size (suc (suc k)) (if error then started else started ++ k ∷ []))
unfolding handle_accept
handle_accept_lem size k true started h = start_accept_lem size (suc k) started h
handle_accept_lem size k false started h =
    let last : length (turns size (suc k)) - 1 ≡ k = omega (arith, length-turns size (suc k)) in
    ap (λ n. start_accept (expected size (suc k) (started ++ n ∷ []))) last
    ∙ start_accept_lem size (suc k) (started ++ k ∷ []) h

accept_all_lem :
    (size k : ℕ) (es : List Bool) (started : List ℕ)
    → 0 < size
    → accept_all es (expected size (suc k) started)
      ≡ some (expected size (suc k + length es) (started ++ accepted_from k es))
accept_all_lem size k [] started h =
    let total : suc k ≡ suc k + 0 = omega arith in
    ap (λ n. some (expected size n started)) total
    ∙ ap (λ l. some (expected size (suc k + 0) l)) (sym (append-nil started))
accept_all_lem size k (true ∷ es) started h =
    let total : suc (suc k) + length es ≡ suc k + suc (length es) = omega arith in
    ap (λ o. and_then o (accept_all es)) (handle_accept_lem size k true started h)
    ∙ accept_all_lem size (suc k) es started h
    ∙ ap (λ n. some (expected size n (started ++ accepted_from (suc k) es))) total
accept_all_lem size k (false ∷ es) started h =
    let total : suc (suc k) + length es ≡ suc k + suc (length es) = omega arith in
    ap (λ o. and_then o (accept_all es)) (handle_accept_lem size k false started h)
    ∙ accept_all_lem size (suc k) es (started ++ k ∷ []) h
    ∙ ap (λ n. some (expected size n ((started ++ k ∷ []) ++ accepted_from (suc k) es))) total
    ∙ ap (λ l. some (expected size (suc k + suc (length es)) l))
        (append_assoc started (k ∷ []) (accepted_from (suc k) es))

server_lem : (size : ℕ) → 0 < size → server size ≡ some (expected size 1 [])
unfolding server
server_lem size h =
    let zeroth : 0 % size ≡ 0 = mod-eq_of_lt h in
    let second : suc (1 % size) % size ≡ (0 + 2) % size = sym (suc-mod 1 size) in
    ap (λ o. and_then o with_pool) (io_context_pool-pool size h)
    ∙ ap (λ o. and_then o with_signals) (next_lem size 0 h)
    ∙ ap (λ n. with_signals (n, pool size (1 % size))) (sym zeroth)
    ∙ ap (λ o. and_then o (initialised (0 % size, pool size (1 % size))))
        (next_lem size (1 % size) (mod-lt 1 h))
    ∙ ap (λ n. initialised (0 % size, pool size (1 % size)) (1 % size, pool size n)) second
    ∙ start_accept_lem size 0 [] h

pub run-expected :
    (size : ℕ) (es : List Bool)
    → 0 < size
    → run size es ≡ some (expected size (1 + length es) (accepted_from 0 es))
run-expected size es h =
    ap (λ o. and_then o (accept_all es)) (server_lem size h) ∙ accept_all_lem size 0 es [] h

-- A server over a pool of at least one context runs without a failure of the pool, whatever the
-- accepts bring: the signal set and the acceptor have the first two turns, connection `k`, counted
-- from 0, has context `(k + 2) % size`, one connection is made more than accepts were answered, and
-- exactly the connections that were accepted without an error are started.
pub run-turns :
    (size : ℕ) (es : List Bool)
    → 0 < size
    → (s : PoolServer) × (run size es ≡ some s)
      × (s.contexts ≡ turns size (suc (length es)))
      × (s.started ≡ accepted_from 0 es)
run-turns size es h = (
  expected size (1 + length es) (accepted_from 0 es),
  run-expected size es h,
  ap (turns size) (one_plus (length es)),
  refl,
)
