-- ===== src/Chat/Message/Header.antt =====
-- The header that one side encodes, decoded by the other.
use boost_learn.Common.{
  ◌⊎◌, ℕ, zero, suc, ◌+◌, ◌-◌, ◌*◌, ◌≤◌, ◌≡◌, refl, sym, ap, ◌∙◌, true, some, [], ◌∷◌, ◌++◌, arith,
  Bytes, length, take, drop, to_decimal, decimal, IsDigit, All, decimal-to_decimal, to_decimal-All,
  length-to_decimal,
}
use boost_learn.Chat.Message.{
  ChatMessage, header_length, max_body_length, until_nul, read_digits, atoi, decode_header,
  int_text, spaces, encode_header, padded, take_length, put_header, overwrite,
}

-- A received header never makes the length of the body more than what the buffer has room for, so
-- that the read of the body stays inside `data_`; a header that is refused leaves the length 0.
pub decode_header-bound :
    (m : ChatMessage)
    → ((decode_header m).1.body_length ≤ max_body_length)
      × ((decode_header m).1.data_ ≡ m.data_)
      × (((decode_header m).0 ≡ true) ⊎ ((decode_header m).1.body_length ≡ 0))
unfolding decode_header
decode_header-bound m = ground arith

read_digits_lem : (v : ℕ) (d : Bytes) → All IsDigit d → read_digits v d ≡ decimal v d
unfolding read_digits
read_digits_lem v [] h = refl
read_digits_lem v (c ∷ d) h = ground (arith, read_digits_lem (v * 10 + (c - b'0')) d h.1)

atoi-digits : (d : Bytes) → All IsDigit d → atoi d ≡ decimal 0 d
unfolding atoi
atoi-digits [] h = refl
atoi-digits (c ∷ d) h = ground (arith, read_digits_lem 0 (c ∷ d) h)

atoi-spaces : (n : ℕ) (d : Bytes) → atoi (spaces n d) ≡ atoi d
unfolding atoi spaces
atoi-spaces zero d = refl
atoi-spaces (suc n) d = atoi-spaces n d

until_nul-digits : (d : Bytes) → All IsDigit d → until_nul d ≡ d
unfolding until_nul
until_nul-digits [] h = refl
until_nul-digits (c ∷ d) h = ground (arith, until_nul-digits d h.1)

until_nul-spaces : (n : ℕ) (d : Bytes) → until_nul (spaces n d) ≡ spaces n (until_nul d)
unfolding until_nul spaces
until_nul-spaces zero d = refl
until_nul-spaces (suc n) d = rw (until_nul-spaces n d)

length-spaces : (n : ℕ) (d : Bytes) → length (spaces n d) ≡ n + length d
unfolding spaces
length-spaces zero d = omega arith
length-spaces (suc n) d = omega (arith, length-spaces n d)

-- The text of a length that fits into a header.
pub header_text : ℕ → Bytes
unfolding spaces
header_text n = padded (to_decimal n)

int_text-small : (n : ℕ) → n ≤ max_body_length → int_text n ≡ to_decimal n
unfolding int_text
int_text-small n h = ground arith

pub length-header_text : (n : ℕ) → n ≤ max_body_length → length (header_text n) ≡ 4
unfolding header_text
length-header_text n h = omega (
  arith,
  length-spaces (4 - length (to_decimal n)) (to_decimal n),
  length-to_decimal n 3 (omega arith),
)

take-all : (xs : Bytes) → take (length xs) xs ≡ xs
take-all [] = refl
take-all (x ∷ xs) = rw (take-all xs)

take-length : (xs ys : Bytes) → take (length xs) (xs ++ ys) ≡ xs
take-length [] ys = refl
take-length (x ∷ xs) ys = rw (take-length xs ys)

drop-length : (xs ys : Bytes) → drop (length xs) (xs ++ ys) ≡ ys
drop-length [] ys = refl
drop-length (x ∷ xs) ys = drop-length xs ys

take-4 : (xs : Bytes) → length xs ≡ 4 → take 4 xs ≡ xs
take-4 xs h = rw (sym h) (take-all xs)

take-append-4 : (xs ys : Bytes) → length xs ≡ 4 → take 4 (xs ++ ys) ≡ xs
take-append-4 xs ys h = rw (sym h) (take-length xs ys)

drop-append-4 : (xs ys : Bytes) → length xs ≡ 4 → drop 4 (xs ++ ys) ≡ ys
drop-append-4 xs ys h = rw (sym h) (drop-length xs ys)

put_header-4 :
    (text : Bytes) (m : ChatMessage)
    → length text ≡ 4
    → put_header text m ≡ some (record m { data_ = text ++ drop 4 m.data_ })
put_header-4 text m h = simp (take-4 text h, h)

pub encode_header-small :
    (m : ChatMessage)
    → m.body_length ≤ max_body_length
    → encode_header m ≡ some (record m { data_ = header_text m.body_length ++ drop 4 m.data_ })
unfolding encode_header header_text
encode_header-small m h =
    ap (λ t. put_header (padded t) m) (int_text-small m.body_length h)
    ∙ put_header-4 (header_text m.body_length) m (length-header_text m.body_length h)

seen-header_text :
    (n : ℕ) (rest : Bytes)
    → n ≤ max_body_length
    → until_nul (take 4 (header_text n ++ rest)) ≡ header_text n
unfolding header_text
seen-header_text n rest h =
    ap until_nul (take-append-4 (header_text n) rest (length-header_text n h))
    ∙ until_nul-spaces (4 - length (to_decimal n)) (to_decimal n)
    ∙ ap (spaces (4 - length (to_decimal n))) (until_nul-digits (to_decimal n) (to_decimal-All n))

atoi-header_text : (n : ℕ) → atoi (header_text n) ≡ n
unfolding header_text
atoi-header_text n =
    atoi-spaces (4 - length (to_decimal n)) (to_decimal n)
    ∙ atoi-digits (to_decimal n) (to_decimal-All n)
    ∙ decimal-to_decimal n

take_length-small :
    (n : ℕ) (m : ChatMessage)
    → n ≤ max_body_length
    → take_length n m ≡ (true, record m { body_length = n })
take_length-small n m h = ground arith

pub decode_header-header_text :
    (m : ChatMessage) (n : ℕ) (rest : Bytes)
    → n ≤ max_body_length
    → m.data_ ≡ header_text n ++ rest
    → decode_header m ≡ (true, record m { body_length = n })
unfolding decode_header
decode_header-header_text m n rest h e =
    ap (λ t. take_length (atoi (until_nul (take 4 t))) m) e
    ∙ ap (λ t. take_length (atoi t) m) (seen-header_text n rest h)
    ∙ ap (λ t. take_length t m) (atoi-header_text n)
    ∙ take_length-small n m h

-- For a body length within the bound, `encode_header` does not write beyond its five bytes and leaves
-- the length and the body as they are; and a receiver that reads the header that it made into its own
-- message, `decode_header` accepts it and sets the length that was encoded.
pub decode_header-encode_header :
    (m r : ChatMessage)
    → m.body_length ≤ max_body_length
    → (m' : ChatMessage) × (encode_header m ≡ some m')
      × (m'.body_length ≡ m.body_length)
      × (drop header_length m'.data_ ≡ drop header_length m.data_)
      × (decode_header (record r { data_ = overwrite 0 (take header_length m'.data_) r.data_ }) ≡ (
        true,
        record {
          data_ = overwrite 0 (take header_length m'.data_) r.data_;
          body_length = m.body_length;
        },
      ))
decode_header-encode_header m r h =
    let text = header_text m.body_length in
    let size = length-header_text m.body_length h in
    let head = take-append-4 text (drop 4 m.data_) size in
    (
      record m { data_ = text ++ drop 4 m.data_ },
      encode_header-small m h,
      refl,
      drop-append-4 text (drop 4 m.data_) size,
      decode_header-header_text
          (record r { data_ = overwrite 0 (take header_length (text ++ drop 4 m.data_)) r.data_ })
          m.body_length (drop (0 + length (take header_length (text ++ drop 4 m.data_))) r.data_) h
          (ap (λ t. t ++ drop (0 + length (take header_length (text ++ drop 4 m.data_))) r.data_)
            head),
    )
