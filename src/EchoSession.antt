-- ===== src/EchoSession.antt =====
-- `session` of boost_asio/cpp_03_example/allocation_server.cpp, which sends back what it reads and
-- keeps its handlers in a handler memory.
pub mod Echoes
pub mod Server
use boost_learn.Common.{
  ℕ, ◌+◌, ◌≡◌, ◌≤◌, Bool, true, false, Option, none, some, List, [], ◌∷◌, ◌++◌, Bytes, length, take,
  drop,
}
use boost_learn.HandlerMemory.{Pointer, Memory, handler_memory, allocate, deallocate}

pub data Operation : Type 0 where
  reading : Operation
  writing : Bytes → Operation

pub record EchoSession : Type 0 where
  pub data_ : Bytes
  pub memory : Memory
  -- the outstanding operation, with the block that holds its handler
  pub pending : Option (Pointer × Operation)
  -- what has come in and what has gone out
  pub received : Bytes
  pub echoed : Bytes

abbrev pub buffer_size : ℕ
buffer_size = 1024

-- `handler_size` is the size that the library asks for, for an operation with its handler.
module _ (handler_size : Operation → ℕ) where
  -- An asynchronous operation, with `make_custom_alloc_handler`.
  abbrev pub begin : Operation → EchoSession → EchoSession
  begin op s =
      let block = allocate (handler_size op) s.memory in
      record s { memory = block.1; pending = some (block.0, op) }

  unfoldable pub start : EchoSession → EchoSession
  start s = begin reading s

  unfoldable pub handle_read : Bool → ℕ → EchoSession → EchoSession
  handle_read true bytes_transferred s = s
  handle_read false bytes_transferred s = begin (writing (take bytes_transferred s.data_)) s

  unfoldable pub handle_write : Bool → EchoSession → EchoSession
  handle_write true s = s
  handle_write false s = begin reading s

  -- The library gives the block back before it runs the handler.
  abbrev pub release : Pointer → EchoSession → EchoSession
  release p s = record s { memory = deallocate p s.memory; pending = none }

  -- The bytes stand at the front of the buffer.
  abbrev pub arrives : Pointer → Bytes → EchoSession → EchoSession
  arrives p bs s = record (release p s) {
    data_ = bs ++ drop (length bs) s.data_;
    received = s.received ++ bs;
  }

  abbrev pub departs : Pointer → Bytes → EchoSession → EchoSession
  departs p bs s = record (release p s) { echoed = s.echoed ++ bs }

  -- The session when it is made.
  abbrev pub made : Bytes → EchoSession
  made garbage = record {
    data_ = garbage;
    memory = handler_memory;
    pending = none;
    received = [];
    echoed = [];
  }

  pub data Reach (garbage : Bytes) : EchoSession → Type 0 where
    starts : Reach garbage (start (made garbage))
    reads :
        {s : EchoSession} (p : Pointer) (bs : Bytes)
        → Reach garbage s
        → s.pending ≡ some (p, reading)
        → length bs ≤ buffer_size
        → Reach garbage (handle_read false (length bs) (arrives p bs s))
    read_fails :
        {s : EchoSession} (p : Pointer)
        → Reach garbage s
        → s.pending ≡ some (p, reading)
        → Reach garbage (handle_read true 0 (release p s))
    writes :
        {s : EchoSession} (p : Pointer) (bs : Bytes)
        → Reach garbage s
        → s.pending ≡ some (p, writing bs)
        → Reach garbage (handle_write false (departs p bs s))
    write_fails :
        {s : EchoSession} (p : Pointer) (bs : Bytes)
        → Reach garbage s
        → s.pending ≡ some (p, writing bs)
        → Reach garbage (handle_write true (release p s))
