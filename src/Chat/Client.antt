-- ===== src/Chat/Client.antt =====
-- boost_asio/cpp_03_example/chat_client.cpp. The client has the two messages of a session, read and
-- written in the same way; its calls through `post` run later, in order, on the io_context.
pub mod Lines
pub mod Running
pub mod Sending
use boost_learn.Common.{
  ℕ, ◌+◌, Bool, true, false, Option, none, some, List, [], ◌∷◌, ◌++◌, if◌then◌else◌, Bytes, length,
  take,
}
use boost_learn.Chat.Message.{
  ChatMessage, new_message, set_body_length, overwrite, encode_header, decode_header, header_length,
  body,
}
use boost_learn.Chat.Session.{
  Session, new_session, Reading, idle, header, session_deliver, next_write,
}

pub record Client : Type 0 where
  -- `read_msg_` and `write_msgs_`, with the outstanding read and writes
  pub link : Session
  pub is_open : Bool
  -- what `std::cout` was given
  pub output : Bytes

-- The constructor, before the connection is made.
unfoldable pub new_client : ChatMessage → Client
new_client m = record { link = new_session m; is_open = true; output = [] }

unfoldable pub do_close : Client → Client
do_close c = record c { is_open = false }

abbrev begin_read : Reading → Client → Client
begin_read r c = record c { link = record c.link { reading = r } }

-- The `error_code`s are seen only as to whether they are set.
unfoldable pub handle_connect : Bool → Client → Client
handle_connect true c = c
handle_connect false c = begin_read header c

abbrev on_header : Bool × ChatMessage → Client → Client
unfolding do_close
on_header (ok, m) c =
    let decoded = record c { link = record c.link { read_msg = m } } in
    if ok then begin_read Reading.body decoded else do_close decoded

unfoldable pub handle_read_header : Bool → Client → Client
unfolding do_close on_header
handle_read_header true c = do_close c
handle_read_header false c = on_header (decode_header c.link.read_msg) c

unfoldable pub handle_read_body : Bool → Client → Client
unfolding do_close
handle_read_body true c = do_close c
handle_read_body false c =
    begin_read header (record c { output = c.output ++ body c.link.read_msg ++ b'\n' ∷ [] })

unfoldable pub do_write : ChatMessage → Client → Client
do_write m c = record c { link = session_deliver m c.link }

abbrev put_link : Client → Option Session → Option Client
put_link c none = none
put_link c (some k) = some (record c { link = k })

-- `none` is `pop_front` of an empty queue.
unfoldable pub handle_write : Bool → Client → Option Client
unfolding do_close next_write
handle_write true c = some (do_close c)
handle_write false c = put_link c (next_write c.link)

-- The message that `main` makes of a line of input; `garbage` is what its buffer held.
unfoldable pub compose : Bytes → Bytes → Option ChatMessage
compose garbage line =
    let msg = set_body_length (length line) (new_message garbage) in
    encode_header
      (record msg { data_ = overwrite header_length (take msg.body_length line) msg.data_ })
