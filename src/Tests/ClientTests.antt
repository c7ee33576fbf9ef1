-- ===== src/Tests/ClientTests.antt =====
-- The chat's buffers and its clients.
use boost_learn.Common.{
  ◌≢◌, true, ◌⊎◌, ℕ, zero, suc, ◌+◌, ◌≡◌, ◌≤◌, refl, ap, false, some, ◌∷◌, [], ◌++◌, arith, Bytes,
  codes, length,
}
use boost_learn.Chat.Message.{
  ChatMessage, header_length, decode_header, message_bytes, body, new_message,
}
use boost_learn.Chat.Message.Header.{header_text}
use boost_learn.Chat.Room.{
  ChatServer, handle_accept, handle_read_header, handle_read_body, was_read, start, on_header,
}
use boost_learn.Chat.Room.Bounds.{Reach-body_read}
use boost_learn.Chat.Room.Fits.{data_size}
use boost_learn.Chat.Room.Relay.{handle_read_body-bytes}
use boost_learn.Chat.Room.Running.{
  Reach as RoomReach, begins, steps, accepted, header_read, constructed,
}
use boost_learn.Chat.Session.{Reading, idle}
use boost_learn.Chat.Session.Queue.{wire}
use boost_learn.Chat.Client.{Client, new_client, do_write, compose}
use boost_learn.Chat.Client.Lines.{compose-bytes}
use boost_learn.Chat.Client.Running.{Reach as ClientReach, begins as client_begins, writes}
use boost_learn.Chat.Client.Sending.{Reach-sent}
use boost_learn.Chat.PosixClient
use boost_learn.Chat.PosixClient.{PosixClient, found, handle_read_input}
use boost_learn.Chat.PosixClient.Running.{
  Reach as PosixReach, connects as posix_connects, reads_header as posix_header,
  reads_body as posix_body, arrives as posix_arrives,
}
use boost_learn.Chat.PosixClient.Printing.{Reach-printed}
use boost_learn.Chat.PosixClient.Receiving.{printed}
use boost_learn.Chat.PosixClient.Input.{handle_read_input-line}

abbrev zeros : ℕ → Bytes
zeros zero = []
zeros (suc n) = 0 ∷ zeros n

length-zeros : (n : ℕ) → length (zeros n) ≡ n
length-zeros zero = refl
length-zeros (suc n) = ap suc (length-zeros n)

abbrev fresh : ℕ → Bytes
fresh c = zeros data_size

abbrev one_session : ChatServer
one_session = handle_accept false (constructed fresh)

abbrev header_is_read : ChatServer
header_is_read = handle_read_header 0 false (was_read 0 0 (codes "   5") one_session)

header_is_read-Reach : RoomReach fresh header_is_read
unfolding handle_accept start
header_is_read-Reach =
    steps (steps begins (accepted false))
      (header_read 0 false (codes "   5") refl (omega arith) (λ e. refl))

Reach-body_read_example :
    (length (header_is_read.sessions 0).read_msg.data_ ≡ data_size)
    × ((header_length + (header_is_read.sessions 0).read_msg.body_length ≤ data_size)
        ⊎ ((header_is_read.sessions 0).reading ≢ Reading.body))
Reach-body_read_example =
    Reach-body_read fresh header_is_read 0 (λ d. length-zeros data_size) header_is_read-Reach

handle_read_body-bytes_example :
    (m : ChatMessage) × ((handle_read_body 0 false
        (was_read 0 header_length (codes "hello") header_is_read)).history
      ≡ header_is_read.history ++ m ∷ [])
    × (message_bytes m ≡ codes "   5" ++ codes "hello")
unfolding handle_accept start handle_read_header on_header decode_header
handle_read_body-bytes_example =
    handle_read_body-bytes 0 one_session header_is_read (codes "   5") (codes "hello") refl refl
      refl

compose-bytes_example :
    (m : ChatMessage) × (compose (zeros data_size) (codes "hello") ≡ some m)
    × (message_bytes m ≡ header_text (length (codes "hello")) ++ codes "hello")
    × (body m ≡ codes "hello")
compose-bytes_example =
    compose-bytes (zeros data_size) (codes "hello") (omega (arith, length-zeros data_size))
      (omega arith)

abbrev small_message : ChatMessage
small_message = record { data_ = codes "   2hi"; body_length = 2 }

abbrev one_written : Client
one_written = do_write small_message (new_client (new_message []))

one_written-Reach : ClientReach (new_message []) ([] ++ small_message ∷ []) one_written
one_written-Reach = writes small_message client_begins

Reach-sent_example :
    one_written.link.sent ++ wire one_written.link.write_msgs ≡ wire ([] ++ small_message ∷ [])
Reach-sent_example =
    Reach-sent (new_message []) ([] ++ small_message ∷ []) one_written one_written-Reach

abbrev typed : PosixClient
typed = record {
  is_open = true;
  write_msg = new_message (zeros data_size);
  input_buffer = codes "hello\nthere";
  reads_input = true;
  writing = [];
  read_msg = new_message (zeros data_size);
  reading = idle;
  writing_output = [];
}

handle_read_input-line_example :
    (d : PosixClient) × (handle_read_input found (length (codes "hello") + 1) typed ≡ some d)
    × (d.input_buffer ≡ codes "there")
    × (d.writing ≡ [] ++ (header_text (length (codes "hello")) ++ codes "hello") ∷ [])
handle_read_input-line_example =
    handle_read_input-line typed (codes "hello") (codes "there") refl (omega arith)
      (omega (arith, length-zeros data_size))

-- A message of two bytes has come.
abbrev posix_message : ChatMessage
posix_message = new_message (zeros data_size)

abbrev posix_headed : PosixClient
posix_headed = PosixClient.handle_read_header false (
    posix_arrives 0 (codes "   2")
      (PosixClient.handle_connect false (PosixClient.new_client posix_message posix_message)))

abbrev posix_showing : PosixClient
posix_showing =
    PosixClient.handle_read_body false (posix_arrives header_length (codes "hi") posix_headed)

posix_showing-Reach : PosixReach posix_message (codes "hi" ∷ []) [] posix_showing
unfolding PosixClient.handle_read_header PosixClient.handle_connect PosixClient.new_client
    decode_header
posix_showing-Reach =
    posix_body (codes "hi") refl refl
      (posix_header false (codes "   2") refl (λ e. refl) (posix_connects posix_message false))

Reach-printed_example :
    (rest : Bytes) × (printed (codes "hi" ∷ []) ≡ [] ++ rest)
    × ((posix_showing.reading ≡ idle) ⊎ (rest ≡ []))
Reach-printed_example = Reach-printed (omega (arith, length-zeros data_size)) posix_showing-Reach
