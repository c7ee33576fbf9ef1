-- ===== src/Chat/PosixClient/Input.antt =====
-- A line of input on the wire.
use boost_learn.Common.{
  ℕ, ◌+◌, ◌-◌, ◌%◌, ◌^◌, ◌≡◌, ◌≤◌, refl, sym, ap, ◌∙◌, false, none, some, [], ◌∷◌, ◌++◌, arith, ltb,
  if◌then◌else◌, Bytes, length, take, drop, take-front, drop-front,
}
use boost_learn.Chat.Message.{
  ChatMessage, encode_header, header_length, max_body_length, message_bytes,
}
use boost_learn.Chat.Message.Header.{header_text}
use boost_learn.Chat.Client.Lines.{
  set_body_length-small, with_line, compose-with_line, compose-bytes,
}
use boost_learn.Chat.PosixClient.{
  found, PosixClient, send_encoded, put_input, send_input, handle_read_input,
}

send_input-line :
    (c : PosixClient) (line rest : Bytes) (skip : ℕ)
    → c.input_buffer ≡ line ++ rest
    → length line ≤ max_body_length
    → header_length ≤ length c.write_msg.data_
    → (d : PosixClient) × (send_input (length line) skip c ≡ some d)
      × (d.input_buffer ≡ drop skip rest)
      × (d.writing ≡ c.writing ++ (header_text (length line) ++ line) ∷ [])
unfolding send_input
send_input-line c line rest skip e h g =
    let m : ChatMessage = record c.write_msg { body_length = length line } in
    let made = compose-bytes c.write_msg.data_ line g h in
    let got : take (length line) c.input_buffer ≡ line =
      ap (take (length line)) e ∙ take-front (length line) line rest refl in
    let left : drop (length line) c.input_buffer ≡ rest =
      ap (drop (length line)) e ∙ drop-front (length line) line rest refl in
    let fits : ltb max_body_length (length line) ≡ false = ground arith in
    let encoded : encode_header (with_line c.write_msg.data_ line) ≡ some made.0 =
      sym (compose-with_line c.write_msg.data_ line h) ∙ made.1 in
    (
      record c {
        write_msg = made.0;
        input_buffer = drop skip rest;
        writing = c.writing ++ message_bytes made.0 ∷ [];
      },
      ap
            (λ m.
              put_input c m (take (length line) c.input_buffer)
                (drop skip (drop (length line) c.input_buffer)))
            (set_body_length-small (length line) c.write_msg h)
          ∙ ap (λ b. put_input c m b (drop skip (drop (length line) c.input_buffer))) got
          ∙ ap (λ b. put_input c m line (drop skip b)) left
          ∙ ap
              (λ b.
                if b
                then none
                else send_encoded c (drop skip rest)
                    (encode_header (with_line c.write_msg.data_ line)))
              fits
          ∙ ap (send_encoded c (drop skip rest)) encoded,
      refl,
      ap (λ b. c.writing ++ b ∷ []) made.2,
    )

-- A line that was found in the input, within the bound, goes out as the four characters of its length
-- and then the line; its newline is dropped, and what stands behind it stays in the buffer.
pub handle_read_input-line :
    (c : PosixClient) (line rest : Bytes)
    → c.input_buffer ≡ line ++ (b'\n' ∷ rest)
    → length line ≤ max_body_length
    → header_length ≤ length c.write_msg.data_
    → (d : PosixClient) × (handle_read_input found (length line + 1) c ≡ some d)
      × (d.input_buffer ≡ rest)
      × (d.writing ≡ c.writing ++ (header_text (length line) ++ line) ∷ [])
unfolding handle_read_input
handle_read_input-line c line rest e h g =
    let size : (length line + 1 + (2 ^ 64 - 1)) % 2 ^ 64 ≡ length line = omega arith in
    let s = send_input-line (record c { reads_input = false }) line (b'\n' ∷ rest) 1 e h g in
    (s.0, ap (λ n. send_input n 1 (record c { reads_input = false })) size ∙ s.1, s.2, s.3)
