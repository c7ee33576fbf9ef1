-- ===== src/Chat/Room/Delivery.antt =====
-- Every participant gets every message, in order.
use boost_learn.Common.{
  ℕ, ◌-◌, ◌≡◌, ◌≢◌, ◌≤◌, refl, sym, ap, ◌∙◌, Bool, true, false, some, List, [], ◌++◌, arith, Bytes,
  length, drop, length-drop, append_assoc, inl,
}
use mathlib.Core.Path.{subst}
use boost_learn.Chat.Session.{write_front}
use boost_learn.Chat.Session.Queue.{wire}
use boost_learn.Chat.Room.{ChatServer, max_recent_msgs, handle_write, was_read, handle_accept}
use boost_learn.Chat.Room.Keeps.{Good, accept-Served, body-Good, header-Good, read-Good, write-Good}
use boost_learn.Chat.Room.Running.{
  Step, accepted, header_read, body_read, written, Reach, begins, steps, constructed, write_ends,
}
use boost_learn.Chat.Room.Serving.{due}

constructed-Good : (fresh : ℕ → Bytes) → Good (constructed fresh)
constructed-Good fresh = (
  refl,
  λ c. (λ p. ground arith, (inl refl, ([], refl)), ground arith, λ f. ((refl, refl, refl), refl)),
)

accept-Good : (error : Bool) (s : ChatServer) → Good s → Good (handle_accept error s)
unfolding handle_accept
accept-Good true s h = (h.0, λ c. accept-Served true s c h.0 (h.1 c))
accept-Good false s h = (h.0, λ c. accept-Served false s c h.0 (h.1 c))

step-Good : (s t : ChatServer) → Good s → Step s t → Good t
step-Good s t h (accepted error) = accept-Good error s h
step-Good s t h (header_read c error bs p q r) =
    header-Good c error (was_read c 0 bs s) (read-Good c 0 bs s h)
step-Good s t h (body_read c error bs p q r) =
    body-Good c error (was_read c 4 bs s) (read-Good c 4 bs s h)
step-Good s t h (written c error t' p q) =
    let done = write-Good c error s h p in
    let same : done.0 ≡ t = cc (done.1, q) in subst Good same done.2

Reach-Good : (fresh : ℕ → Bytes) (s : ChatServer) → Reach fresh s → Good s
Reach-Good fresh s begins = constructed-Good fresh
Reach-Good fresh t (steps {s} r st) = step-Good s t (Reach-Good fresh s r) st

-- In every run, a participant has been sent, in order and nothing else, the first of these messages,
-- and the rest of them is in its queue: the last messages, at most `max_recent_msgs` of them, that the
-- room had received when it joined, and all that the room has received since. The first message of the
-- queue is being written, and it alone.
pub Reach-participant :
    (fresh : ℕ → Bytes) (s : ChatServer) (c : ℕ)
    → Reach fresh s
    → s.participants c ≡ true
    → ((s.sessions c).sent ++ wire (s.sessions c).write_msgs ≡ wire (due (s.joined c) s.history))
      × ((s.sessions c).writing ≡ write_front (s.sessions c).write_msgs [])
Reach-participant fresh s c r p = let h = ((Reach-Good fresh s r).1 c).0 p in (h.1, h.0)

-- In every run, whatever has failed and whoever has left, what a session has been sent is a prefix of
-- the messages that are due to it.
pub Reach-session :
    (fresh : ℕ → Bytes) (s : ChatServer) (c : ℕ)
    → Reach fresh s
    → (rest : List Bytes) × ((s.sessions c).sent ++ rest ≡ wire (due (s.joined c) s.history))
Reach-session fresh s c r =
    let h = ((Reach-Good fresh s r).1 c).1.1 in
    (
      wire (s.sessions c).write_msgs ++ h.0,
      sym (append_assoc (s.sessions c).sent (wire (s.sessions c).write_msgs) h.0) ∙ h.1,
    )

-- In every run, the room keeps the last messages that it received, up to `max_recent_msgs`.
pub Reach-recent_msgs :
    (fresh : ℕ → Bytes) (s : ChatServer)
    → Reach fresh s
    → (s.recent_msgs ≡ drop (length s.history - max_recent_msgs) s.history)
      × (length s.recent_msgs ≤ max_recent_msgs)
Reach-recent_msgs fresh s r =
    let h = (Reach-Good fresh s r).0 in
    (h, omega (arith, length-drop (length s.history - max_recent_msgs) s.history, ap length h))

-- In every run, whenever a write of a session ends, its handler returns: `pop_front` is never called
-- on an empty queue.
pub Reach-handle_write :
    (fresh : ℕ → Bytes) (s : ChatServer) (c : ℕ) (error : Bool)
    → Reach fresh s
    → (s.sessions c).writing ≢ []
    → (t : ChatServer) × (handle_write c error (write_ends c error s) ≡ some t)
Reach-handle_write fresh s c error r w =
    let t = write-Good c error s (Reach-Good fresh s r) w in (t.0, t.1)
