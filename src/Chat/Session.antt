-- ===== src/Chat/Session.antt =====
-- `chat_session` of boost_asio/cpp_03_example/chat_server.cpp: the queue of messages to its client.
-- A handler of the room is in Room.
pub mod Queue
use boost_learn.Common.{
  Bool, true, false, not, Option, none, some, List, [], ◌∷◌, ◌++◌, if◌then◌else◌, Bytes,
}
use boost_learn.Chat.Message.{ChatMessage, message_bytes}

-- What the outstanding read of a session is for.
pub data Reading : Type 0 where
  idle header body : Reading

pub record Session : Type 0 where
  pub read_msg : ChatMessage
  pub write_msgs : List ChatMessage
  pub reading : Reading
  -- the buffers of the writes that are outstanding
  pub writing : List Bytes
  -- the buffers that have been written, in order
  pub sent : List Bytes

-- `chat_session(io_context, room)`.
abbrev pub new_session : ChatMessage → Session
new_session m = record { read_msg = m; write_msgs = []; reading = idle; writing = []; sent = [] }

abbrev pub is_empty : List ChatMessage → Bool
is_empty [] = true
is_empty (m ∷ ms) = false

-- `async_write` of `write_msgs_.front()`; there is none if the queue is empty.
abbrev pub write_front : List ChatMessage → List Bytes → List Bytes
write_front [] bs = bs
write_front (m ∷ ms) bs = bs ++ message_bytes m ∷ []

unfoldable pub session_deliver : ChatMessage → Session → Session
session_deliver m s =
    let write_in_progress = not (is_empty s.write_msgs) in
    let write_msgs = s.write_msgs ++ m ∷ [] in
    record s {
      write_msgs = write_msgs;
      writing = if not write_in_progress then write_front write_msgs s.writing else s.writing;
    }

-- The history for a new participant.
abbrev pub deliver_all : List ChatMessage → Session → Session
deliver_all [] s = s
deliver_all (m ∷ ms) s = deliver_all ms (session_deliver m s)

-- `handle_write` without an error. `none` is `pop_front` of an empty queue.
unfoldable pub next_write : Session → Option Session
next_write s = elim s.write_msgs [
  | [] ↦ none
  | m ∷ ms ↦ some (record s {
    write_msgs = ms;
    writing = if not (is_empty ms) then write_front ms s.writing else s.writing;
  })
]

-- The completion of a write, before its handler runs: with success, the buffer is sent.
abbrev pub finish_write : Session → List Bytes → Session
finish_write s [] = s
finish_write s (b ∷ bs) = record s { writing = bs; sent = s.sent ++ b ∷ [] }

abbrev pub drop_write : Session → List Bytes → Session
drop_write s [] = s
drop_write s (b ∷ bs) = record s { writing = bs }

unfoldable pub was_sent : Session → Session
was_sent s = finish_write s s.writing

unfoldable pub was_not_sent : Session → Session
was_not_sent s = drop_write s s.writing
