-- ===== src/HandlerMemory.antt =====
-- `handler_memory` and `handler_allocator` of boost_asio/cpp_03_example/allocation_server.cpp. A
-- pointer is the block's address, or a block of the heap by the number of the `new` that made it.
use boost_learn.Common.{ℕ, ◌+◌, ◌*◌, Bool, true, false, not, ◌&&◌, ltb, if◌then◌else◌}

pub data Pointer : Type 0 where
  storage : Pointer
  heap : ℕ → Pointer

pub record Memory : Type 0 where
  pub in_use : Bool
  -- how many blocks `::operator new` has made
  pub made : ℕ

abbrev pub handler_memory : Memory
handler_memory = record { in_use = false; made = 0 }

-- `storage_.size`.
abbrev pub storage_size : ℕ
storage_size = 1024

unfoldable pub allocate : ℕ → Memory → Pointer × Memory
allocate size m =
    if not m.in_use && ltb size storage_size
    then (storage, record m { in_use = true })
    else (heap m.made, record m { made = m.made + 1 })

unfoldable pub deallocate : Pointer → Memory → Memory
deallocate storage m = record m { in_use = false }
deallocate (heap b) m = m

-- `handler_allocator<T>::allocate(n)`, for a type of `sizeof_t` bytes.
unfoldable pub allocate_items : ℕ → ℕ → Memory → Pointer × Memory
unfolding allocate
allocate_items sizeof_t n m = allocate (sizeof_t * n) m
