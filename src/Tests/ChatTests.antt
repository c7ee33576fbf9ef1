-- ===== src/Tests/ChatTests.antt =====
-- A run of boost_asio/cpp_03_example/chat_server.cpp: a session starts and its client says something.
use boost_learn.Common.{
  ℕ, ◌≡◌, ◌≢◌, refl, true, false, some, List, [], ◌++◌, arith, Bytes, codes, take, drop,
}
use boost_learn.Chat.Message.{ChatMessage, header_length, decode_header, encode_header, overwrite}
use boost_learn.Chat.Message.Header.{decode_header-encode_header}
use boost_learn.Chat.Room.{
  ChatServer, deliver, handle_accept, handle_read_header, handle_read_body, was_read,
}
use boost_learn.Chat.Room.Delivery.{Reach-participant, Reach-session}
use boost_learn.Chat.Room.Running.{
  Reach, begins, steps, accepted, header_read, body_read, constructed,
}
use boost_learn.Chat.Room.Serving.{due}
use boost_learn.Chat.Session.{session_deliver, write_front}
use boost_learn.Chat.Session.Queue.{wire}

abbrev greeting : ChatMessage
greeting = record { data_ = codes "????hello"; body_length = 5 }

decode_header-encode_header_example :
    (m' : ChatMessage) × (encode_header greeting ≡ some m')
    × (m'.body_length ≡ 5)
    × (drop header_length m'.data_ ≡ codes "hello")
    × (decode_header
          (record greeting { data_ = overwrite 0 (take header_length m'.data_) greeting.data_ })
        ≡ (
          true,
          record {
            data_ = overwrite 0 (take header_length m'.data_) greeting.data_;
            body_length = 5;
          },
        ))
decode_header-encode_header_example = decode_header-encode_header greeting greeting (omega arith)

abbrev fresh : ℕ → Bytes
fresh c = codes "????????????"

abbrev joined_one : ChatServer
joined_one = handle_accept false (constructed fresh)

abbrev said : ChatServer
said = handle_read_body 0 false (
    was_read 0 header_length (codes "hello")
      (handle_read_header 0 false (was_read 0 0 (codes "   5") joined_one)))

said-Reach : Reach fresh said
unfolding handle_accept handle_read_header decode_header
said-Reach =
    steps
      (steps (steps begins (accepted false))
        (header_read 0 false (codes "   5") refl (omega arith) (λ e. refl)))
      (body_read 0 false (codes "hello") refl (omega arith) (λ e. refl))

Reach-participant_example :
    ((said.sessions 0).sent ++ wire (said.sessions 0).write_msgs
      ≡ wire (due (said.joined 0) said.history))
    × ((said.sessions 0).writing ≡ write_front (said.sessions 0).write_msgs [])
unfolding handle_accept handle_read_header handle_read_body decode_header
Reach-participant_example = Reach-participant fresh said 0 said-Reach refl

Reach-session_example :
    (rest : List Bytes) × ((said.sessions 0).sent ++ rest ≡ wire (due (said.joined 0) said.history))
Reach-session_example = Reach-session fresh said 0 said-Reach

said-writing : (said.sessions 0).writing ≢ []
unfolding handle_accept handle_read_header handle_read_body decode_header deliver session_deliver
said-writing = ground arith
