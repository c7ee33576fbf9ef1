-- ===== src/IoContextPool.antt =====
-- boost_asio/cpp_03_example/boost_http_server_2/src/io_context_pool.cpp. An `io_context` is known by
-- the number of its turn in the constructor's loop.
pub mod RoundRobin
pub mod Threads
pub mod Returns
use boost_learn.Common.{
  ℕ, zero, suc, ◌+◌, ◌-◌, ◌≡◌, refl, Bool, true, false, Option, none, some, List, [], ◌∷◌, ◌++◌,
  ◌==◌, if◌then◌else◌, length,
}

pub record Pool : Type 0 where
  pub io_contexts : List ℕ
  -- the tracked executors, by their contexts
  pub work : List ℕ
  pub next_io_context : ℕ

-- The loop, with `i` turns done and `n` to go.
abbrev fill : ℕ → ℕ → Pool → Pool
fill i zero p = p
fill i (suc n) p =
    fill (i + 1) n (record p { io_contexts = p.io_contexts ++ i ∷ []; work = p.work ++ i ∷ [] })

-- `none` is the exception `io_context_pool size is 0`.
unfoldable pub io_context_pool : ℕ → Option Pool
io_context_pool pool_size =
    let filled = fill 0 pool_size (record { io_contexts = []; work = []; next_io_context = 0 }) in
    if pool_size == 0 then none else some filled

abbrev pub get_elem? : List ℕ → ℕ → Option ℕ
get_elem? [] n = none
get_elem? (x ∷ xs) zero = some x
get_elem? (x ∷ xs) (suc n) = get_elem? xs n

-- `none` is an index out of range.
unfoldable pub get_io_context : Pool → Option (ℕ × Pool)
get_io_context p =
    let next = p.next_io_context + 1 in
    elim (get_elem? p.io_contexts p.next_io_context) [
      | none ↦ none
      | some io_context ↦ some (
        io_context,
        record p { next_io_context = if next == length p.io_contexts then 0 else next },
      )
    ]
