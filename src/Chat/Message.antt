-- ===== src/Chat/Message.antt =====
-- boost_asio/cpp_03_example/chat_message.hpp.
pub mod Header
use boost_learn.Common.{
  ℕ, zero, suc, ◌+◌, ◌-◌, ◌*◌, ◌%◌, ◌^◌, ◌≡◌, refl, Bool, true, false, ◌&&◌, Option, none, some,
  List, [], ◌∷◌, ◌++◌, ltb, leb, ◌==◌, if◌then◌else◌, Bytes, codes, length, take, drop, is_space,
  to_decimal,
}

-- `data_` has `header_length + max_body_length` bytes.
pub record ChatMessage : Type 0 where
  pub data_ : Bytes
  pub body_length : ℕ

abbrev pub header_length : ℕ
header_length = 4

abbrev pub max_body_length : ℕ
max_body_length = 512

-- The constructor leaves in `data_` whatever was there.
abbrev pub new_message : Bytes → ChatMessage
new_message garbage = record { data_ = garbage; body_length = 0 }

-- `length()`.
abbrev pub message_length : ChatMessage → ℕ
message_length m = header_length + m.body_length

-- `body()`, as far as it goes.
abbrev pub body : ChatMessage → Bytes
body m = take m.body_length (drop header_length m.data_)

-- The buffer of `data()` and `length()`.
abbrev pub message_bytes : ChatMessage → Bytes
message_bytes m = take (message_length m) m.data_

-- `body_length(new_length)`.
unfoldable pub set_body_length : ℕ → ChatMessage → ChatMessage
set_body_length n m = record m {
  body_length = if ltb max_body_length n then max_body_length else n;
}

-- `memcpy(target + offset, bytes, ...)`.
abbrev pub overwrite : ℕ → Bytes → Bytes → Bytes
overwrite offset bytes target = take offset target ++ bytes ++ drop (offset + length bytes) target

-- What `strncat` copies: up to the first NUL.
until_nul : Bytes → Bytes
until_nul [] = []
until_nul (c ∷ cs) = let rest = until_nul cs in if c == 0 then [] else c ∷ rest

-- `atoi`, converted to `std::size_t`; it never sees more than the four characters of a header, so
-- it cannot overflow.
read_digits : ℕ → Bytes → ℕ
read_digits v [] = v
read_digits v (c ∷ cs) =
    let rest = read_digits (v * 10 + (c - b'0')) cs in if leb b'0' c && leb c b'9' then rest else v

read_sign : Bytes → ℕ
unfolding read_digits
read_sign [] = 0
read_sign (c ∷ cs) =
    if c == b'-'
    then (2 ^ 64 - read_digits 0 cs) % 2 ^ 64
    else if c == b'+'
    then read_digits 0 cs
    else read_digits 0 (c ∷ cs)

atoi : Bytes → ℕ
unfolding read_sign is_space
atoi [] = 0
atoi (c ∷ cs) = let rest = atoi cs in if is_space c then rest else read_sign (c ∷ cs)

-- `body_length_ = n`, and the test.
abbrev pub take_length : ℕ → ChatMessage → Bool × ChatMessage
take_length n m =
    if ltb max_body_length n
    then (false, record m { body_length = 0 })
    else (true, record m { body_length = n })

unfoldable pub decode_header : ChatMessage → Bool × ChatMessage
unfolding atoi until_nul
decode_header m = take_length (atoi (until_nul (take header_length m.data_))) m

-- `sprintf("%d", static_cast<int>(n))`.
int_text : ℕ → Bytes
unfolding to_decimal
int_text n =
    let v = n % 2 ^ 32 in if ltb v (2 ^ 31) then to_decimal v else b'-' ∷ to_decimal (2 ^ 32 - v)

-- The width of `%4d`.
spaces : ℕ → Bytes → Bytes
spaces zero text = text
spaces (suc n) text = b' ' ∷ spaces n text

-- `%4d`.
abbrev pub padded : Bytes → Bytes
unfolding spaces
padded text = spaces (4 - length text) text

-- `none` if the text and its NUL do not fit into `header`.
abbrev pub put_header : Bytes → ChatMessage → Option ChatMessage
put_header text m =
    if ltb header_length (length text)
    then none
    else some (record m { data_ = overwrite 0 (take header_length text) m.data_ })

unfoldable pub encode_header : ChatMessage → Option ChatMessage
unfolding int_text spaces
encode_header m = put_header (padded (int_text m.body_length)) m

encode_header_test :
    encode_header (record { data_ = codes "????hello"; body_length = 5 })
    ≡ some (record { data_ = codes "   5hello"; body_length = 5 })
unfolding encode_header
encode_header_test = refl

decode_header_test :
    decode_header (record { data_ = codes " 12xhello"; body_length = 0 })
    ≡ (true, record { data_ = codes " 12xhello"; body_length = 12 })
unfolding decode_header
decode_header_test = refl

decode_header_negative :
    decode_header (record { data_ = codes "-12 hello"; body_length = 7 })
    ≡ (false, record { data_ = codes "-12 hello"; body_length = 0 })
unfolding decode_header
decode_header_negative = refl
