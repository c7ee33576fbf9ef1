-- ===== src/Chat/Room/Bounds.antt =====
-- The reads of a session stay inside its message.
use boost_learn.Common.{
  ℕ, ◌+◌, ◌≡◌, ◌≤◌, refl, sym, ap, ◌∙◌, Bool, true, false, Option, none, some, arith, Bytes, length,
  ◌==◌, if◌then◌else◌, ◌⊎◌, inl, inr, ◌≢◌,
}
use mathlib.Core.Path.{subst}
use boost_learn.Chat.Message.{ChatMessage, decode_header, overwrite, header_length, max_body_length}
use boost_learn.Chat.Message.Header.{decode_header-bound}
use boost_learn.Chat.Session.{
  Session, Reading, idle, header, body, session_deliver, deliver_all, next_write, was_sent,
  was_not_sent,
}
use boost_learn.Chat.Room.{
  ChatServer, modify, on_header, handle_read_header, handle_read_body, handle_write, handle_accept,
  deliver, leave, join, start, was_read, put_session,
}
use boost_learn.Chat.Room.Running.{
  Step, accepted, header_read, body_read, written, Reach, begins, steps, write_ends,
}
use boost_learn.Chat.Room.Fits.{
  data_size, Fits, AllFit, length-overwrite, Same, Same-Fits, session_deliver-Same,
  deliver_all-Same, finish_write-Same, drop_write-Same, pick-Fits, modify-AllFit,
}

deliver-AllFit : (m : ChatMessage) (s : ChatServer) → AllFit s → AllFit (deliver m s)
unfolding deliver
deliver-AllFit m s h d =
    let k = s.sessions d in
    pick-Fits (s.participants d) k (session_deliver m k)
      (λ e. Same-Fits k (session_deliver m k) (session_deliver-Same m k) (h d)) (h d)

accept-AllFit : (error : Bool) (s : ChatServer) → AllFit s → AllFit (handle_accept error s)
unfolding handle_accept start join
accept-AllFit true s h = h
accept-AllFit false s h =
    let c = s.accepting in
    let all = s.recent_msgs in
    let got =
      Same-Fits (s.sessions c) (deliver_all all (s.sessions c))
        (deliver_all-Same all (s.sessions c)) (h c) in
    let joined = modify-AllFit c (deliver_all all) s got h in
    modify-AllFit c (λ k. record k { reading = header }) (modify c (deliver_all all) s)
      ((joined c).0, λ r. ground arith) joined

-- A change of a session, at that session.
pub modify_self :
    (c : ℕ) (f : Session → Session) (s : ChatServer) → (modify c f s).sessions c ≡ f (s.sessions c)
modify_self c f s =
    let same : (c == c) ≡ true = ground arith in
    ap (λ b. if b then f (s.sessions c) else s.sessions c) same

-- What `decode_header` may leave of the message.
abbrev Decoded : ChatMessage → Bool × ChatMessage → Type 0
Decoded m r =
    (r.1.body_length ≤ max_body_length)
    × (r.1.data_ ≡ m.data_)
    × ((r.0 ≡ true) ⊎ (r.1.body_length ≡ 0))

on_header-AllFit :
    (c : ℕ) (r : Bool × ChatMessage) (s : ChatServer)
    → Decoded (s.sessions c).read_msg r
    → AllFit s
    → AllFit (on_header c r s)
unfolding on_header leave
on_header-AllFit c (true, m) s b h =
    let set : Session → Session = λ k. record k { read_msg = m } in
    modify-AllFit c (λ k. record k { reading = body }) (modify c set s)
      (subst (λ k. Fits (record k { reading = body })) (sym (modify_self c set s))
        (ap length b.1 ∙ (h c).0, λ r. b.0))
      (modify-AllFit c set s (ap length b.1 ∙ (h c).0, λ r. b.0) h)
on_header-AllFit c (false, m) s b h =
    modify-AllFit c (λ k. record k { read_msg = m }) s (ap length b.1 ∙ (h c).0, λ r. b.0) h

header-AllFit :
    (c : ℕ) (error : Bool) (s : ChatServer) → AllFit s → AllFit (handle_read_header c error s)
unfolding handle_read_header leave
header-AllFit c true s h = h
header-AllFit c false s h =
    let m = (s.sessions c).read_msg in
    on_header-AllFit c (decode_header m) s (decode_header-bound m) h

body-AllFit :
    (c : ℕ) (error : Bool) (s : ChatServer) → AllFit s → AllFit (handle_read_body c error s)
unfolding handle_read_body leave
body-AllFit c true s h = h
body-AllFit c false s h =
    let after = deliver-AllFit (s.sessions c).read_msg s h in
    modify-AllFit c (λ k. record k { reading = header }) (deliver (s.sessions c).read_msg s)
      ((after c).0, λ r. ground arith) after

read-AllFit :
    (c offset : ℕ) (bs : Bytes) (s : ChatServer)
    → offset + length bs ≤ data_size
    → AllFit s
    → AllFit (was_read c offset bs s)
read-AllFit c offset bs s b h =
    modify-AllFit c
      (λ k. record k {
        read_msg = record k.read_msg { data_ = overwrite offset bs k.read_msg.data_ };
        reading = idle;
      })
      s
      (
        length-overwrite offset bs (s.sessions c).read_msg.data_ (omega (arith, (h c).0)) ∙ (h c).0,
        λ r. ground arith,
      )
      h

next_write-Same : (k t : Session) → next_write k ≡ some t → Same k t
unfolding next_write
next_write-Same k t h = ground arith

-- The completion of a write touches neither the message nor the read.
sent-AllFit : (c : ℕ) (error : Bool) (s : ChatServer) → AllFit s → AllFit (write_ends c error s)
unfolding write_ends was_sent was_not_sent
sent-AllFit c true s h =
    let k = s.sessions c in
    modify-AllFit c was_not_sent s
      (Same-Fits k (was_not_sent k) (drop_write-Same k k.writing) (h c)) h
sent-AllFit c false s h =
    let k = s.sessions c in
    modify-AllFit c was_sent s (Same-Fits k (was_sent k) (finish_write-Same k k.writing) (h c)) h

put-AllFit :
    (c : ℕ) (s t : ChatServer) (o : Option Session)
    → ((k : Session) → o ≡ some k → Fits k)
    → put_session c s o ≡ some t
    → AllFit s
    → AllFit t
put-AllFit c s t none now e h = ground arith
put-AllFit c s t (some k) now e h =
    let same : modify c (λ old. k) s ≡ t = cc e in
    subst AllFit same (modify-AllFit c (λ old. k) s (now k refl) h)

write-AllFit :
    (c : ℕ) (error : Bool) (s t : ChatServer)
    → AllFit s
    → handle_write c error s ≡ some t
    → AllFit t
unfolding handle_write leave
write-AllFit c true s t h e = let same : leave c s ≡ t = cc e in subst AllFit same h
write-AllFit c false s t h e =
    put-AllFit c s t (next_write (s.sessions c))
      (λ k n. Same-Fits (s.sessions c) k (next_write-Same (s.sessions c) k n) (h c)) e h

step-AllFit : (s t : ChatServer) → AllFit s → Step s t → AllFit t
step-AllFit s t h (accepted error) = accept-AllFit error s h
step-AllFit s t h (header_read c error bs p q r) =
    header-AllFit c error (was_read c 0 bs s) (read-AllFit c 0 bs s (omega arith) h)
step-AllFit s t h (body_read c error bs p q r) =
    let fits : header_length + length bs ≤ data_size = omega (arith, (h c).1 p) in
    body-AllFit c error (was_read c header_length bs s) (read-AllFit c header_length bs s fits h)
step-AllFit s t h (written c error t' p q) =
    write-AllFit c error (write_ends c error s) t (sent-AllFit c error s h) q

Reach-AllFit :
    (fresh : ℕ → Bytes) (s : ChatServer)
    → ((c : ℕ) → length (fresh c) ≡ data_size)
    → Reach fresh s
    → AllFit s
Reach-AllFit fresh s size begins = λ c. (size c, λ r. ground arith)
Reach-AllFit fresh t size (steps {s} r st) = step-AllFit s t (Reach-AllFit fresh s size r) st

body-or_not : (r : Reading) → (r ≡ body) ⊎ (r ≢ body)
body-or_not idle = inr (λ e. cc)
body-or_not header = inr (λ e. cc)
body-or_not body = inl refl

within :
    (k : Session) (n : ℕ)
    → length k.read_msg.data_ ≡ n
    → header_length + max_body_length ≤ n
    → (k.reading ≡ body → k.read_msg.body_length ≤ max_body_length)
    → (k.reading ≡ body) ⊎ (k.reading ≢ body)
    → (header_length + k.read_msg.body_length ≤ n) ⊎ (k.reading ≢ body)
within k n e m h (inl r) = let b = h r in inl (omega (arith, b, m))
within k n e m h (inr r) = inr r

-- In every run in which the buffers have their size at first, the buffer of every session keeps that
-- size, and a read of a body that is outstanding ends inside it, whatever the clients have sent as a
-- header.
pub Reach-body_read :
    (fresh : ℕ → Bytes) (s : ChatServer) (c : ℕ)
    → ((d : ℕ) → length (fresh d) ≡ data_size)
    → Reach fresh s
    → (length (s.sessions c).read_msg.data_ ≡ data_size)
      × ((header_length + (s.sessions c).read_msg.body_length ≤ data_size)
          ⊎ ((s.sessions c).reading ≢ body))
Reach-body_read fresh s c size r =
    let h = Reach-AllFit fresh s size r c in
    (
      h.0,
      within (s.sessions c) data_size h.0 (omega arith) h.1 (body-or_not (s.sessions c).reading),
    )
