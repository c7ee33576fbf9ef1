-- ===== src/Chat/Room/Running.antt =====
-- The runs of the chat server: any order of completions.
use boost_learn.Common.{ℕ, ◌≡◌, ◌≢◌, ◌≤◌, Bool, true, false, some, [], Bytes, length}
use boost_learn.Chat.Message.{header_length, new_message}
use boost_learn.Chat.Session.{header, body, new_session, was_sent, was_not_sent}
use boost_learn.Chat.Room.{
  ChatServer, modify, handle_accept, handle_read_header, handle_read_body, handle_write, was_read,
}

-- The server when it has been constructed; `fresh c` is what the message of session `c` holds then.
abbrev pub constructed : (ℕ → Bytes) → ChatServer
constructed fresh = record {
  participants = λ c. false;
  recent_msgs = [];
  sessions = λ c. new_session (new_message (fresh c));
  accepting = 0;
  history = [];
  joined = λ c. 0;
}

-- What a write leaves, before its handler runs.
unfoldable pub write_ends : ℕ → Bool → ChatServer → ChatServer
unfolding was_sent was_not_sent
write_ends c true s = modify c was_not_sent s
write_ends c false s = modify c was_sent s

-- One completion: its handler runs. A read without an error is of all the bytes that were asked for.
pub data Step (s : ChatServer) : ChatServer → Type 0 where
  accepted : (error : Bool) → Step s (handle_accept error s)
  header_read :
      (c : ℕ) (error : Bool) (bs : Bytes)
      → (s.sessions c).reading ≡ header
      → length bs ≤ header_length
      → (error ≡ false → length bs ≡ header_length)
      → Step s (handle_read_header c error (was_read c 0 bs s))
  body_read :
      (c : ℕ) (error : Bool) (bs : Bytes)
      → (s.sessions c).reading ≡ body
      → length bs ≤ (s.sessions c).read_msg.body_length
      → (error ≡ false → length bs ≡ (s.sessions c).read_msg.body_length)
      → Step s (handle_read_body c error (was_read c header_length bs s))
  written :
      (c : ℕ) (error : Bool) (t : ChatServer)
      → (s.sessions c).writing ≢ []
      → handle_write c error (write_ends c error s) ≡ some t
      → Step s t

pub data Reach (fresh : ℕ → Bytes) : ChatServer → Type 0 where
  begins : Reach fresh (constructed fresh)
  steps : {s t : ChatServer} → Reach fresh s → Step s t → Reach fresh t
