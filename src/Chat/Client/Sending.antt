-- ===== src/Chat/Client/Sending.antt =====
-- What the user wrote is sent in order.
use boost_learn.Common.{
  ◌≡◌, ◌≢◌, ◌⊎◌, inl, inr, refl, sym, ap, ◌∙◌, Bool, true, false, not, some, List, [], ◌∷◌, ◌++◌,
  arith, append_assoc, append-nil, if◌then◌else◌, Bytes,
}
use mathlib.Core.Path.{subst}
use boost_learn.Chat.Message.{ChatMessage, decode_header, header_length}
use boost_learn.Chat.Session.{
  Session, is_empty, write_front, session_deliver, next_write, was_sent, was_not_sent,
}
use boost_learn.Chat.Session.Queue.{
  wire, wire-append, next_write-front, drop_write-writing, drop_write-front,
}
use boost_learn.Chat.Client.{
  Client, new_client, handle_connect, handle_read_header, handle_read_body, do_write, do_close,
  handle_write, put_link, on_header,
}
use boost_learn.Chat.Client.Running.{
  arrives, write_ends, Reach, begins, connects, reads_header, reads_body, writes, closes, written,
}

-- What was written and what waits are all the messages, and the first that waits is being written,
-- unless a write has failed.
abbrev Flows : List ChatMessage → Session → Type 0
Flows ms k =
    ((k.writing ≡ []) ⊎ (k.writing ≡ write_front k.write_msgs []))
    × (k.sent ++ wire k.write_msgs ≡ wire ms)

writing-deliver :
    (m : ChatMessage) (q : List ChatMessage) (w : List Bytes)
    → (w ≡ []) ⊎ (w ≡ write_front q [])
    → let w' = if not (not (is_empty q)) then write_front (q ++ m ∷ []) w else w in
      (w' ≡ []) ⊎ (w' ≡ write_front (q ++ m ∷ []) [])
writing-deliver m [] w (inl e) = inr (rw e refl)
writing-deliver m [] w (inr e) = inr (rw e refl)
writing-deliver m (n ∷ q) w h = h

deliver-Flows :
    (m : ChatMessage) (k : Session) (ms : List ChatMessage)
    → Flows ms k
    → Flows (ms ++ m ∷ []) (session_deliver m k)
unfolding session_deliver
deliver-Flows m k ms h = (
  writing-deliver m k.write_msgs k.writing h.0,
  cc (
    wire-append k.write_msgs (m ∷ []),
    wire-append ms (m ∷ []),
    append_assoc k.sent (wire k.write_msgs) (wire (m ∷ [])),
    h.1,
  ),
)

failed-Flows :
    (k : Session) (ms : List ChatMessage) → k.writing ≢ [] → Flows ms k → Flows ms (was_not_sent k)
unfolding was_not_sent
failed-Flows k ms w h =
    let front : k.writing ≡ write_front k.write_msgs [] = ground (arith, h.0) in
    let same = drop_write-writing k k.writing in
    (inl (drop_write-front k k.write_msgs k.writing front w), rw same.0 (rw same.1 h.1))

next-Flows :
    (k : Session) (ms : List ChatMessage)
    → k.writing ≢ []
    → Flows ms k
    → (t : Session) × (next_write (was_sent k) ≡ some t) × Flows ms t
next-Flows k ms w h =
    let front : k.writing ≡ write_front k.write_msgs [] = ground (arith, h.0) in
    let t =
      next_write-front k [] (wire ms) w front (append-nil (k.sent ++ wire k.write_msgs) ∙ h.1) in
    (t.0, t.1, (inr t.2, sym (append-nil (t.0.sent ++ wire t.0.write_msgs)) ∙ t.3))

written-Flows :
    (error : Bool) (c : Client) (ms : List ChatMessage)
    → c.link.writing ≢ []
    → Flows ms c.link
    → (d : Client) × (handle_write error (write_ends error c) ≡ some d) × Flows ms d.link
unfolding handle_write write_ends do_close
written-Flows true c ms w h =
    (do_close (record c { link = was_not_sent c.link }), refl, failed-Flows c.link ms w h)
written-Flows false c ms w h =
    let t = next-Flows c.link ms w h in
    (record c { link = t.0 }, ap (put_link (record c { link = was_sent c.link })) t.1, t.2)

on_header-Flows :
    (r : Bool × ChatMessage) (c : Client) (ms : List ChatMessage)
    → Flows ms c.link
    → Flows ms (on_header r c).link
unfolding on_header do_close
on_header-Flows (true, m) c ms h = h
on_header-Flows (false, m) c ms h = h

header-Flows :
    (error : Bool) (c : Client) (ms : List ChatMessage)
    → Flows ms c.link
    → Flows ms (handle_read_header error c).link
unfolding handle_read_header do_close
header-Flows true c ms h = h
header-Flows false c ms h = on_header-Flows (decode_header c.link.read_msg) c ms h

body-Flows :
    (error : Bool) (c : Client) (ms : List ChatMessage)
    → Flows ms c.link
    → Flows ms (handle_read_body error c).link
unfolding handle_read_body do_close
body-Flows true c ms h = h
body-Flows false c ms h = h

connect-Flows :
    (error : Bool) (c : Client) (ms : List ChatMessage)
    → Flows ms c.link
    → Flows ms (handle_connect error c).link
unfolding handle_connect
connect-Flows true c ms h = h
connect-Flows false c ms h = h

Reach-Flows :
    (first : ChatMessage) (ms : List ChatMessage) (c : Client) → Reach first ms c → Flows ms c.link
unfolding new_client do_write do_close
Reach-Flows first ms c begins = (inl refl, refl)
Reach-Flows first ms' c' (connects {ms} {c} error r) =
    connect-Flows error c ms (Reach-Flows first ms c r)
Reach-Flows first ms' c' (reads_header {ms} {c} error bs p r) =
    header-Flows error (arrives 0 bs c) ms (Reach-Flows first ms c r)
Reach-Flows first ms' c' (reads_body {ms} {c} error bs p r) =
    body-Flows error (arrives header_length bs c) ms (Reach-Flows first ms c r)
Reach-Flows first ms' c' (writes {ms} {c} m r) =
    deliver-Flows m c.link ms (Reach-Flows first ms c r)
Reach-Flows first ms' c' (closes {ms} {c} r) = Reach-Flows first ms c r
Reach-Flows first ms' d' (written {ms} {c} error d w e r) =
    let done = written-Flows error c ms w (Reach-Flows first ms c r) in
    let same : done.0 ≡ d = cc (done.1, e) in subst (λ x. Flows ms x.link) same done.2

-- In every run of the client, whatever fails and in whatever order, what was sent and what waits in
-- the queue are together, in order, the messages that the user wrote.
pub Reach-sent :
    (first : ChatMessage) (ms : List ChatMessage) (c : Client)
    → Reach first ms c
    → c.link.sent ++ wire c.link.write_msgs ≡ wire ms
Reach-sent first ms c r = (Reach-Flows first ms c r).1

-- In every run of the client the handler of a write that ended returns: `pop_front` is never called
-- on an empty queue.
pub Reach-write_handled :
    (first : ChatMessage) (ms : List ChatMessage) (c : Client) (error : Bool)
    → Reach first ms c
    → c.link.writing ≢ []
    → (d : Client) × (handle_write error (write_ends error c) ≡ some d)
Reach-write_handled first ms c error r w =
    let done = written-Flows error c ms w (Reach-Flows first ms c r) in (done.0, done.1)
