-- ===== src/Http/UrlDecode/RoundTrip.antt =====
-- What clients send: an encoder that escapes at least `%` and `+`.
use boost_learn.Common.{
  ◌≤◌, ℕ, ◌+◌, ◌/◌, ◌%◌, ◌<◌, ◌≡◌, ◌≢◌, Bool, true, false, not, ◌&&◌, ◌||◌, some, [], ◌∷◌, arith,
  ltb, ◌==◌, if◌then◌else◌, Bytes, All, Bool-cases, inl, inr,
}
use boost_learn.Http.UrlDecode.Encodes.{Encodes, done, literal, plus, escape, url_decode_iff}
use boost_learn.Common.{is_space}
use boost_learn.Http.UrlDecode.Escapes.{Escaped-read_hex}
use boost_learn.Http.UrlDecode.{hex_digit, two_digits, read_hex, url_decode}

-- The digit of a number below 16, as a capital or a small letter.
pub hex_char : Bool → ℕ → ℕ
hex_char upper v = if ltb v 10 then v + b'0' else if upper then v + 55 else v + 87

-- The characters that `keep` names stay as they are, but for `%` and `+`.
unfoldable pub percent_encode : (ℕ → Bool) → Bool → Bytes → Bytes
percent_encode keep upper [] = []
percent_encode keep upper (c ∷ cs) =
    let rest = percent_encode keep upper cs in
    if keep c && not (c == b'%' || c == b'+')
    then c ∷ rest
    else if c == b' '
    then b'+' ∷ rest
    else b'%' ∷ hex_char upper (c / 16) ∷ hex_char upper (c % 16) ∷ rest

hex_digit-hex_char : (upper : Bool) (v : ℕ) → v < 16 → hex_digit (hex_char upper v) ≡ some v
unfolding hex_digit hex_char
hex_digit-hex_char true v h = ground arith
hex_digit-hex_char false v h = ground arith

hex_char_bounds :
    (upper : Bool) (v : ℕ)
    → v < 16
    → (48 ≤ hex_char upper v)
      × (hex_char upper v < 103)
      × (hex_char upper v ≢ b'X')
      × (hex_char upper v ≢ b'X')
unfolding hex_char
hex_char_bounds true v h = ground arith
hex_char_bounds false v h = ground arith

read_hex-hex_char :
    (upper : Bool) (c : ℕ)
    → c < 256
    → read_hex (hex_char upper (c / 16)) (hex_char upper (c % 16)) ≡ some c
unfolding read_hex is_space two_digits
read_hex-hex_char upper c h = ground (
  arith,
  hex_digit-hex_char upper (c / 16),
  hex_digit-hex_char upper (c % 16),
  hex_char_bounds upper (c / 16),
  hex_char_bounds upper (c % 16),
)

Encodes-percent_encode :
    (keep : ℕ → Bool) (upper : Bool) (s : Bytes)
    → All (λ c. c < 256) s
    → Encodes (percent_encode keep upper s) s
unfolding percent_encode
Encodes-percent_encode keep upper [] h = done
Encodes-percent_encode keep upper (c ∷ cs) (h, hs) =
    elim (Bool-cases (keep c && not (c == b'%' || c == b'+'))) [
      | inl kept ↦
          rw kept (literal (ground arith) (ground arith) (Encodes-percent_encode keep upper cs hs))
      | inr other ↦ rw other (elim (Bool-cases (c == b' ')) [
        | inl p ↦
            let is_space : c ≡ b' ' = ground arith in
            rw p (rw is_space (plus (Encodes-percent_encode keep upper cs hs)))
        | inr p ↦ rw p (
            escape (Escaped-read_hex _ _ _ (read_hex-hex_char upper c h))
              (Encodes-percent_encode keep upper cs hs))
      ])
    ]

-- Every text of bytes is read back from its encoding, whichever characters the encoder leaves as
-- they are, and whether its hexadecimal digits are capitals or small letters.
pub url_decode-percent_encode :
    (keep : ℕ → Bool) (upper : Bool) (s : Bytes)
    → All (λ c. c < 256) s
    → url_decode (percent_encode keep upper s) ≡ some s
url_decode-percent_encode keep upper s h =
    (url_decode_iff _ s).1 (Encodes-percent_encode keep upper s h)

-- What an encoding is made of: the characters that are kept, and those of the escapes.
pub percent_encode-All :
    (P : ℕ → Type 0) (keep : ℕ → Bool) (upper : Bool) (s : Bytes)
    → ((c : ℕ) → keep c ≡ true → P c)
    → ((c : ℕ) → 48 ≤ c → c < 103 → P c)
    → P b'+'
    → P b'%'
    → All (λ c. c < 256) s
    → All P (percent_encode keep upper s)
unfolding percent_encode
percent_encode-All P keep upper [] kept digit is_plus percent h = tt
percent_encode-All P keep upper (c ∷ cs) kept digit is_plus percent (h, hs) =
    let more = percent_encode-All P keep upper cs kept digit is_plus percent hs in
    elim (Bool-cases (keep c && not (c == b'%' || c == b'+'))) [
      | inl p ↦ rw p (kept c (ground arith), more)
      | inr p ↦ rw p (elim (Bool-cases (c == b' ')) [
        | inl q ↦ rw q (is_plus, more)
        | inr q ↦
            let (a, b, _, _) = hex_char_bounds upper (c / 16) (omega (arith, h)) in
            let (d, e, _, _) = hex_char_bounds upper (c % 16) (omega (arith, h)) in
            rw q (percent, (digit _ a b, (digit _ d e, more)))
      ])
    ]
