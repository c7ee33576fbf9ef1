-- ===== src/Chat/Room.antt =====
-- `chat_room`, `chat_server` and the handlers of `chat_session`, of
-- boost_asio/cpp_03_example/chat_server.cpp. Sessions are told apart by the order in which they are
-- made.
pub mod Running
pub mod Serving
pub mod Keeps
pub mod Fits
pub mod Bounds
pub mod Relay
pub mod Delivery
use boost_learn.Common.{
  update, ℕ, zero, suc, ◌+◌, ◌-◌, ◌≡◌, refl, Bool, true, false, not, ◌&&◌, Option, none, some, List,
  [], ◌∷◌, ◌++◌, ltb, ◌==◌, if◌then◌else◌, Bytes, length,
}
use boost_learn.Chat.Message.{ChatMessage, decode_header, overwrite, header_length}
use boost_learn.Chat.Session.{
  Session, Reading, idle, header, body, session_deliver, deliver_all, next_write, was_sent,
  was_not_sent,
}

pub record ChatServer : Type 0 where
  -- `room_.participants_`, as a set
  pub participants : ℕ → Bool
  pub recent_msgs : List ChatMessage
  pub sessions : ℕ → Session
  -- the session that the outstanding accept is for; those above it are not made yet
  pub accepting : ℕ
  -- every message that was delivered to the room, and how many there were when a session joined
  pub history : List ChatMessage
  pub joined : ℕ → ℕ

abbrev pub max_recent_msgs : ℕ
max_recent_msgs = 100

-- What a member function of a session does to it.
abbrev pub modify : ℕ → (Session → Session) → ChatServer → ChatServer
modify c f s = record s { sessions = λ d. if d == c then f (s.sessions d) else s.sessions d }

-- Each message goes to the new participant alone.
unfoldable pub join : ℕ → ChatServer → ChatServer
join c s = modify c (deliver_all s.recent_msgs) (record s {
  participants = update s.participants c true;
  joined = update s.joined c (length s.history);
})

unfoldable pub leave : ℕ → ChatServer → ChatServer
leave c s = record s { participants = update s.participants c false }

-- The loop that drops old messages.
unfoldable pub trim : List ChatMessage → List ChatMessage
trim [] = []
trim (m ∷ ms) = let rest = trim ms in if ltb max_recent_msgs (length (m ∷ ms)) then rest else m ∷ ms

-- `deliver` of a session changes that session alone, so the order of the set does not matter.
unfoldable pub deliver : ChatMessage → ChatServer → ChatServer
unfolding trim
deliver m s = record s {
  recent_msgs = trim (s.recent_msgs ++ m ∷ []);
  sessions = λ c. if s.participants c then session_deliver m (s.sessions c) else s.sessions c;
  history = s.history ++ m ∷ [];
}

-- `async_read` of what comes next.
abbrev pub begin_read : ℕ → Reading → ChatServer → ChatServer
begin_read c r s = modify c (λ k. record k { reading = r }) s

unfoldable pub start : ℕ → ChatServer → ChatServer
unfolding join
start c s = begin_read c header (join c s)

-- What `decode_header` returns, and the message that it leaves.
unfoldable pub on_header : ℕ → Bool × ChatMessage → ChatServer → ChatServer
unfolding leave
on_header c (ok, m) s =
    let decoded = modify c (λ k. record k { read_msg = m }) s in
    if ok then begin_read c body decoded else leave c decoded

-- An `error_code`, as far as the handlers look at it: whether it is set.
unfoldable pub handle_read_header : ℕ → Bool → ChatServer → ChatServer
unfolding leave on_header
handle_read_header c true s = leave c s
handle_read_header c false s = on_header c (decode_header (s.sessions c).read_msg) s

unfoldable pub handle_read_body : ℕ → Bool → ChatServer → ChatServer
unfolding leave deliver
handle_read_body c true s = leave c s
handle_read_body c false s = begin_read c header (deliver (s.sessions c).read_msg s)

abbrev pub put_session : ℕ → ChatServer → Option Session → Option ChatServer
put_session c s none = none
put_session c s (some k) = some (modify c (λ old. k) s)

unfoldable pub handle_write : ℕ → Bool → ChatServer → Option ChatServer
unfolding leave next_write
handle_write c true s = some (leave c s)
handle_write c false s = put_session c s (next_write (s.sessions c))

-- With the `start_accept` at its end, which makes the next session.
unfoldable pub handle_accept : Bool → ChatServer → ChatServer
unfolding start
handle_accept error s =
    let started = if error then s else start s.accepting s in
    record started { accepting = started.accepting + 1 }

-- The bytes of a read stand in the message, from this offset, when its handler runs.
abbrev pub was_read : ℕ → ℕ → Bytes → ChatServer → ChatServer
was_read c offset bs s =
    modify c
      (λ k. record k {
        read_msg = record k.read_msg { data_ = overwrite offset bs k.read_msg.data_ };
        reading = idle;
      })
      s
