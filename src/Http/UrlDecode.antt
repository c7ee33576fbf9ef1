-- ===== src/Http/UrlDecode.antt =====
-- `request_handler::url_decode` of boost_http_server_1/src/request_handler.cpp.
pub mod Escapes
pub mod Encodes
pub mod RoundTrip
use boost_learn.Common.{
  ℕ, zero, suc, ◌+◌, ◌-◌, ◌*◌, ◌%◌, ◌≡◌, refl, Bool, true, false, ◌&&◌, ◌||◌, Option, none, some,
  List, [], ◌∷◌, ◌++◌, leb, ◌==◌, if◌then◌else◌, Bytes, codes, is_space,
}

-- The value of a hexadecimal digit.
unfoldable pub hex_digit : ℕ → Option ℕ
hex_digit c =
    if leb b'0' c && leb c b'9'
    then some (c - b'0')
    else if leb b'a' c && leb c b'f'
    then some (c - b'a' + 10)
    else if leb b'A' c && leb c b'F'
    then some (c - b'A' + 10)
    else none

-- `static_cast<char>(-value)` by its byte.
abbrev negate : ℕ → ℕ
negate v = (256 - v) % 256

-- The number of one digit and perhaps a second one; a second character that is no digit is left
-- unread. `0x` is a prefix with no digit behind it.
pub two_digits : ℕ → ℕ → ℕ → ℕ
two_digits h c d = elim (hex_digit d) [ none ↦ h | some l ↦ h * 16 + l ]

abbrev pub unsigned_hex : ℕ → ℕ → Option ℕ
unsigned_hex c d = elim (hex_digit c) [
  | none ↦ none
  | some h ↦ if c == b'0' && (d == b'x' || d == b'X') then none else some (two_digits h c d)
]

-- `std::istringstream is({c, d}); is >> std::hex >> value`: white space is skipped, then a sign, a
-- prefix and digits are read as far as they go. The result is `static_cast<char>(value)`.
pub read_hex : ℕ → ℕ → Option ℕ
read_hex c d =
    if is_space c || c == b'+'
    then hex_digit d
    else if c == b'-'
    then elim (hex_digit d) [ none ↦ none | some v ↦ some (negate v) ]
    else unsigned_hex c d

-- The two characters behind a `%`, if they are there.
hex_pair : Bytes → Option ℕ
hex_pair [] = none
hex_pair (c ∷ []) = none
hex_pair (c ∷ d ∷ cs) = read_hex c d

-- The loop over `in[i]`, with the text decoded so far. The number is what `i += 2` has still to
-- jump over.
decode : Bytes → ℕ → Bytes → Option Bytes
decode [] skip out = some out
decode (c ∷ cs) (suc skip) out = decode cs skip out
decode (c ∷ cs) zero out = elim (c == b'%') [
  | true ↦ elim (hex_pair cs) [ none ↦ none | some v ↦ decode cs 2 (out ++ v ∷ []) ]
  | false ↦ decode cs 0 (out ++ (if c == b'+' then b' ' else c) ∷ [])
]

unfoldable pub url_decode : Bytes → Option Bytes
unfolding decode hex_pair read_hex is_space hex_digit two_digits
url_decode s = decode s 0 []

url_decode_test : url_decode (codes "%41+b%2fc") ≡ some (codes "A b/c")
unfolding url_decode
url_decode_test = refl

url_decode_sample :
    url_decode (codes "%E5%9C%A8+%E9%97%B4")
    ≡ some (0xe5 ∷ 0x9c ∷ 0xa8 ∷ 0x20 ∷ 0xe9 ∷ 0x97 ∷ 0xb4 ∷ [])
unfolding url_decode
url_decode_sample = refl

-- Sign, white space and a lone digit are all read.
url_decode_lax :
    (url_decode (codes "%-1%+a% 4%4Z") ≡ some (255 ∷ 10 ∷ 4 ∷ 4 ∷ []))
    × (url_decode (codes "%0x") ≡ none)
    × (url_decode (codes "%4") ≡ none)
    × (url_decode (codes "%zz") ≡ none)
unfolding url_decode
url_decode_lax = (refl, refl, refl, refl)
