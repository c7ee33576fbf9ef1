-- ===== src/Chat/Session/Queue.antt =====
-- The messages to a client go out one after the other, in the order of the deliveries.
use boost_learn.Common.{
  ◌≡◌, ◌≢◌, ◌⊎◌, refl, sym, ap, ◌∙◌, not, some, List, [], ◌∷◌, ◌++◌, append-nil, append_assoc,
  if◌then◌else◌, Bytes, arith,
}
use mathlib.Core.Path.{subst}
use boost_learn.Chat.Message.{ChatMessage, message_bytes}
use boost_learn.Chat.Session.{
  Reading, Session, is_empty, write_front, session_deliver, deliver_all, next_write, drop_write,
  was_sent,
}

-- The messages as they stand on the wire.
abbrev pub wire : List ChatMessage → List Bytes
wire [] = []
wire (m ∷ ms) = message_bytes m ∷ wire ms

pub wire-append : (a b : List ChatMessage) → wire (a ++ b) ≡ wire a ++ wire b
wire-append [] b = refl
wire-append (m ∷ a) b = rw (wire-append a b)

-- The client has been sent the first of the messages, the others are queued, and the first in the
-- queue is being written.
abbrev pub Owed : Session → List ChatMessage → Type 0
Owed s ms = (s.writing ≡ write_front s.write_msgs []) × (s.sent ++ wire s.write_msgs ≡ wire ms)

-- The same of a session that has left: perhaps nothing is being written any more, and later messages
-- are not queued.
abbrev pub Left : Session → List ChatMessage → Type 0
Left s ms =
    ((s.writing ≡ []) ⊎ (s.writing ≡ write_front s.write_msgs []))
    × ((rest : List Bytes) × (s.sent ++ wire s.write_msgs ++ rest ≡ wire ms))

deliver-writing :
    (m : ChatMessage) (q : List ChatMessage)
    → (if not (not (is_empty q))
        then write_front (q ++ m ∷ []) (write_front q [])
        else write_front q [])
      ≡ write_front (q ++ m ∷ []) []
deliver-writing m [] = refl
deliver-writing m (n ∷ q) = refl

pub session_deliver-Owed :
    (m : ChatMessage) (s : Session) (ms : List ChatMessage)
    → Owed s ms
    → Owed (session_deliver m s) (ms ++ m ∷ [])
unfolding session_deliver
session_deliver-Owed m s ms h = (
  ap (λ w. if not (not (is_empty s.write_msgs)) then write_front (s.write_msgs ++ m ∷ []) w else w)
        h.0
      ∙ deliver-writing m s.write_msgs,
  cc (
    wire-append s.write_msgs (m ∷ []),
    wire-append ms (m ∷ []),
    append_assoc s.sent (wire s.write_msgs) (wire (m ∷ [])),
    h.1,
  ),
)

pub deliver_all-Owed :
    (new : List ChatMessage) (s : Session) (ms : List ChatMessage)
    → Owed s ms
    → Owed (deliver_all new s) (ms ++ new)
deliver_all-Owed [] s ms h = rw (append-nil ms) h
deliver_all-Owed (m ∷ new) s ms h =
    rw (sym (append_assoc ms (m ∷ []) new))
      (deliver_all-Owed new (session_deliver m s) (ms ++ m ∷ []) (session_deliver-Owed m s ms h))

-- The session of these fields.
abbrev made : ChatMessage → List ChatMessage → Reading → List Bytes → List Bytes → Session
made r q rd w out = record { read_msg = r; write_msgs = q; reading = rd; writing = w; sent = out }

-- The handler of a finished write goes on with the next message.
abbrev pub Continues : List Bytes → List Bytes → Session → Type 0
Continues rest all s =
    (t : Session) × (next_write (was_sent s) ≡ some t)
    × (t.writing ≡ write_front t.write_msgs [])
    × (t.sent ++ wire t.write_msgs ++ rest ≡ all)

-- A write is finished only if the queue has a message: then the handler takes it off.
next_write-made :
    (r : ChatMessage) (q : List ChatMessage) (rd : Reading) (out rest all : List Bytes)
    → write_front q [] ≢ []
    → out ++ wire q ++ rest ≡ all
    → Continues rest all (made r q rd (write_front q []) out)
unfolding next_write was_sent
next_write-made r [] rd out rest all h e = ground arith
next_write-made r (m ∷ []) rd out rest all h e = (
  made r [] rd [] (out ++ message_bytes m ∷ []),
  refl,
  refl,
  cc (append-nil (out ++ message_bytes m ∷ []), e),
)
next_write-made r (m ∷ n ∷ q) rd out rest all h e = (
  made r (n ∷ q) rd (message_bytes n ∷ []) (out ++ message_bytes m ∷ []),
  refl,
  refl,
  cc (append_assoc out (message_bytes m ∷ []) (wire (n ∷ q)), e),
)

pub next_write-front :
    (s : Session) (rest all : List Bytes)
    → s.writing ≢ []
    → s.writing ≡ write_front s.write_msgs []
    → s.sent ++ wire s.write_msgs ++ rest ≡ all
    → Continues rest all s
next_write-front s rest all h w e =
    subst (λ v. Continues rest all (made s.read_msg s.write_msgs s.reading v s.sent)) (sym w)
      (next_write-made s.read_msg s.write_msgs s.reading s.sent rest all (λ p. h (w ∙ p)) e)

-- A write fails: nothing else is lost.
pub drop_write-writing :
    (s : Session) (w : List Bytes)
    → ((drop_write s w).sent ≡ s.sent) × ((drop_write s w).write_msgs ≡ s.write_msgs)
drop_write-writing s [] = (refl, refl)
drop_write-writing s (b ∷ bs) = (refl, refl)

pub drop_write-front :
    (s : Session) (q : List ChatMessage) (w : List Bytes)
    → w ≡ write_front q []
    → w ≢ []
    → (drop_write s w).writing ≡ []
drop_write-front s q [] e h = ground arith
drop_write-front s [] (b ∷ bs) e h = ground arith
drop_write-front s (m ∷ q) (b ∷ bs) e h = ground arith
