-- ===== src/Chat/Room/Relay.antt =====
-- What the room is given is what the client sent.
use boost_learn.Common.{
  take-front, ℕ, ◌+◌, ◌≡◌, refl, sym, ap, ◌∙◌, Bool, true, false, [], ◌∷◌, ◌++◌, arith, Bytes,
  length, take, drop, length-append,
}
use boost_learn.Chat.Message.{ChatMessage, decode_header, overwrite, header_length, message_bytes}
use boost_learn.Chat.Room.{
  ChatServer, modify, handle_read_header, handle_read_body, on_header, leave, deliver, was_read,
}
use boost_learn.Chat.Room.Bounds.{modify_self}
use boost_learn.Chat.Message.Header.{decode_header-bound}
use boost_learn.Chat.Session.{Session, idle, body}

-- The header that was read stays in front when the body is read behind it.
overwritten :
    (h b old : Bytes)
    → length h ≡ header_length
    → take (header_length + length b) (overwrite header_length b (overwrite 0 h old)) ≡ h ++ b
overwritten h b old e =
    let rest = drop (header_length + length b) (overwrite 0 h old) in
    let front : take header_length (overwrite 0 h old) ≡ h =
      take-front header_length h (drop (0 + length h) old) e in
    ap (λ t. take (header_length + length b) (t ++ b ++ rest)) front
    ∙ take-front (header_length + length b) (h ++ b) rest (omega (arith, e, length-append h b))

on_header-read_msg :
    (c : ℕ) (r : Bool × ChatMessage) (s : ChatServer)
    → ((on_header c r s).sessions c).read_msg ≡ r.1
unfolding on_header leave
on_header-read_msg c (true, m) s =
    let set : Session → Session = λ k. record k { read_msg = m } in
    let set_reading : Session → Session = λ k. record k { reading = body } in
    ap (λ (k : Session). k.read_msg) (modify_self c set_reading (modify c set s))
    ∙ ap (λ (k : Session). k.read_msg) (modify_self c set s)
on_header-read_msg c (false, m) s =
    ap (λ (k : Session). k.read_msg) (modify_self c (λ k. record k { read_msg = m }) s)

was_read-read_msg :
    (c offset : ℕ) (bs : Bytes) (s : ChatServer)
    → ((was_read c offset bs s).sessions c).read_msg
      ≡ record (s.sessions c).read_msg { data_ = overwrite offset bs (s.sessions c).read_msg.data_ }
was_read-read_msg c offset bs s =
    ap (λ (k : Session). k.read_msg)
      (modify_self c
        (λ k. record k {
          read_msg = record k.read_msg { data_ = overwrite offset bs k.read_msg.data_ };
          reading = idle;
        })
        s)

-- The bytes of the header are in the message when its handler is done.
after_header :
    (c : ℕ) (h : Bytes) (s : ChatServer)
    → ((handle_read_header c false (was_read c 0 h s)).sessions c).read_msg.data_
      ≡ overwrite 0 h (s.sessions c).read_msg.data_
unfolding handle_read_header
after_header c h s =
    let r = was_read c 0 h s in
    let m = (r.sessions c).read_msg in
    ap (λ (n : ChatMessage). n.data_) (on_header-read_msg c (decode_header m) r)
    ∙ (decode_header-bound m).1
    ∙ ap (λ (n : ChatMessage). n.data_) (was_read-read_msg c 0 h s)

-- A session reads a header and then a body of the length that the header says, while whatever else
-- happens leaves its message alone: the message that goes to the room stands on the wire byte for byte
-- as it was received.
pub handle_read_body-bytes :
    (c : ℕ) (s t : ChatServer) (h b : Bytes)
    → length h ≡ header_length
    → (t.sessions c).read_msg
      ≡ ((handle_read_header c false (was_read c 0 h s)).sessions c).read_msg
    → length b ≡ (t.sessions c).read_msg.body_length
    → (m : ChatMessage) × ((handle_read_body c false (was_read c header_length b t)).history
        ≡ t.history ++ m ∷ [])
      × (message_bytes m ≡ h ++ b)
unfolding handle_read_body deliver
handle_read_body-bytes c s t h b size same fits =
    let r = was_read c header_length b t in
    (
      (r.sessions c).read_msg,
      refl,
      ap message_bytes (was_read-read_msg c header_length b t)
          ∙ ap
              (λ n.
                take (header_length + n) (overwrite header_length b (t.sessions c).read_msg.data_))
              (sym fits)
          ∙ ap (λ d. take (header_length + length b) (overwrite header_length b d))
              (ap (λ (n : ChatMessage). n.data_) same ∙ after_header c h s)
          ∙ overwritten h b (s.sessions c).read_msg.data_ size,
    )
