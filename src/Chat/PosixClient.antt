-- ===== src/Chat/PosixClient.antt =====
-- boost_asio/cpp_03_example/posix_chat_cline.cpp: the client reads lines of input and writes them to the
-- server, and reads messages from the server and writes their bodies to its output. It reads the next
-- line, or message, only when the last one has been written.
pub mod Input
pub mod Running
pub mod Receiving
pub mod Printing
use boost_learn.Common.{
  ℕ, ◌+◌, ◌-◌, ◌%◌, ◌^◌, Bool, true, false, Option, none, some, List, [], ◌∷◌, ◌++◌, ltb,
  if◌then◌else◌, Bytes, length, take, drop,
}
use boost_learn.Chat.Session.{Reading, idle, header}
use boost_learn.Chat.Message.{
  decode_header, body, ChatMessage, set_body_length, overwrite, encode_header, header_length,
  max_body_length, message_bytes,
}

-- How `async_read_until` ended.
pub data InputResult : Type 0 where
  found not_found failed : InputResult

pub record PosixClient : Type 0 where
  pub is_open : Bool
  pub write_msg : ChatMessage
  pub input_buffer : Bytes
  -- whether a line is being read
  pub reads_input : Bool
  -- the buffers that are being written
  pub writing : List Bytes
  pub read_msg : ChatMessage
  -- what the outstanding read of the socket is for
  pub reading : Reading
  -- the buffers that are being written to the output
  pub writing_output : List Bytes

-- The constructor, which starts to connect.
unfoldable pub new_client : ChatMessage → ChatMessage → PosixClient
new_client read_msg write_msg = record {
  is_open = true;
  write_msg = write_msg;
  input_buffer = [];
  reads_input = false;
  writing = [];
  read_msg = read_msg;
  reading = idle;
  writing_output = [];
}

unfoldable pub close : PosixClient → PosixClient
close c = record c { is_open = false }

unfoldable pub handle_connect : Bool → PosixClient → PosixClient
handle_connect true c = c
handle_connect false c = record c { reading = header; reads_input = true }

-- Whether the header is a length within the bound, and the message with it.
abbrev pub on_header : Bool × ChatMessage → PosixClient → PosixClient
unfolding close
on_header (true, m) c = record c { read_msg = m; reading = Reading.body }
on_header (false, m) c = close (record c { read_msg = m })

unfoldable pub handle_read_header : Bool → PosixClient → PosixClient
unfolding close on_header
handle_read_header true c = close c
handle_read_header false c = on_header (decode_header c.read_msg) c

-- The body and a newline, as one write of two buffers.
unfoldable pub handle_read_body : Bool → PosixClient → PosixClient
unfolding close
handle_read_body true c = close c
handle_read_body false c = record c {
  writing_output = c.writing_output ++ (body c.read_msg ++ b'\n' ∷ []) ∷ [];
}

unfoldable pub handle_write_output : Bool → PosixClient → PosixClient
unfolding close
handle_write_output true c = close c
handle_write_output false c = record c { reading = header }

abbrev pub send_encoded : PosixClient → Bytes → Option ChatMessage → Option PosixClient
send_encoded c rest none = none
send_encoded c rest (some m) =
    some
      (record c { write_msg = m; input_buffer = rest; writing = c.writing ++ message_bytes m ∷ [] })

-- `sgetn(body(), n)` got these characters; `none` writes beyond the message.
abbrev pub put_input : PosixClient → ChatMessage → Bytes → Bytes → Option PosixClient
put_input c m got rest =
    if ltb max_body_length (length got)
    then none
    else send_encoded c rest
        (encode_header (record m { data_ = overwrite header_length got m.data_ }))

-- `body_length(n)`, `sgetn(body(), n)`, `consume(skip)`, `encode_header` and `async_write`.
unfoldable pub send_input : ℕ → ℕ → PosixClient → Option PosixClient
send_input n skip c =
    put_input c (set_body_length n c.write_msg) (take n c.input_buffer)
      (drop skip (drop n c.input_buffer))

-- The read of the line has ended; `length - 1` is a `std::size_t`.
unfoldable pub handle_read_input : InputResult → ℕ → PosixClient → Option PosixClient
unfolding send_input close
handle_read_input found bytes c =
    send_input ((bytes + (2 ^ 64 - 1)) % 2 ^ 64) 1 (record c { reads_input = false })
handle_read_input not_found bytes c =
    send_input (length c.input_buffer) 0 (record c { reads_input = false })
handle_read_input failed bytes c = some (close (record c { reads_input = false }))

unfoldable pub handle_write : Bool → PosixClient → PosixClient
unfolding close
handle_write true c = close c
handle_write false c = record c { reads_input = true }
