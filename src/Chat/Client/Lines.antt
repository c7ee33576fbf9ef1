-- ===== src/Chat/Client/Lines.antt =====
-- From a line of input to the wire.
use boost_learn.Common.{
  take-front, drop-front, ℕ, ◌+◌, ◌≡◌, ◌≤◌, refl, sym, ap, ◌∙◌, some, [], ◌∷◌, ◌++◌, arith, Bytes,
  length, take, drop, append_assoc, length-append, length-take,
}
use boost_learn.Chat.Message.{
  ChatMessage, header_length, max_body_length, message_bytes, body, encode_header, overwrite,
  set_body_length, new_message,
}
use boost_learn.Chat.Message.Header.{header_text, encode_header-small, length-header_text}
use boost_learn.Chat.Client.{compose}

pub set_body_length-small :
    (n : ℕ) (m : ChatMessage)
    → n ≤ max_body_length
    → set_body_length n m ≡ record m { body_length = n }
unfolding set_body_length
set_body_length-small n m h = ground arith

take_all : (xs : Bytes) → take (length xs) xs ≡ xs
take_all [] = refl
take_all (x ∷ xs) = ap (λ t. x ∷ t) (take_all xs)

-- The message of the line before its header is encoded.
abbrev pub with_line : Bytes → Bytes → ChatMessage
with_line garbage line = record {
  data_ = overwrite header_length line garbage;
  body_length = length line;
}

pub compose-with_line :
    (garbage line : Bytes)
    → length line ≤ max_body_length
    → compose garbage line ≡ encode_header (with_line garbage line)
unfolding compose
compose-with_line garbage line h =
    ap
      (λ (m : ChatMessage).
        encode_header
          (record m { data_ = overwrite header_length (take m.body_length line) m.data_ }))
      (set_body_length-small (length line) (new_message garbage) h)
    ∙ ap
        (λ l.
          encode_header
            (record { data_ = overwrite header_length l garbage; body_length = length line }))
        (take_all line)

body-with_line :
    (garbage line : Bytes)
    → header_length ≤ length garbage
    → drop header_length (overwrite header_length line garbage)
      ≡ line ++ drop (header_length + length line) garbage
body-with_line garbage line h =
    ap (drop header_length)
      (append_assoc (take header_length garbage) line (drop (header_length + length line) garbage))
    ∙ drop-front header_length (take header_length garbage)
        (line ++ drop (header_length + length line) garbage)
        (omega (arith, length-take header_length garbage, h))

-- A line of input within the bound becomes a message that is on the wire the four characters of its
-- length and then the line, whatever the buffer held before.
pub compose-bytes :
    (garbage line : Bytes)
    → header_length ≤ length garbage
    → length line ≤ max_body_length
    → (m : ChatMessage) × (compose garbage line ≡ some m)
      × (message_bytes m ≡ header_text (length line) ++ line)
      × (body m ≡ line)
compose-bytes garbage line g h =
    let text = header_text (length line) in
    let rest = drop (header_length + length line) garbage in
    let size = length-header_text (length line) h in
    let m : ChatMessage = record { data_ = text ++ (line ++ rest); body_length = length line } in
    (
      m,
      compose-with_line garbage line h
          ∙ encode_header-small (with_line garbage line) h
          ∙ ap (λ d. some (record { data_ = text ++ d; body_length = length line }))
              (body-with_line garbage line g),
      ap (take (header_length + length line)) (sym (append_assoc text line rest))
          ∙ take-front (header_length + length line) (text ++ line) rest
              (omega (arith, size, length-append text line)),
      ap (take (length line)) (drop-front header_length text (line ++ rest) size)
          ∙ take-front (length line) line rest refl,
    )
