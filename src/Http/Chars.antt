-- ===== src/Http/Chars.antt =====
-- The character tests of boost_http_server_1/src/request_parser.cpp.
use boost_learn.Common.{ℕ, Bool, ◌&&◌, ◌||◌, leb, ◌==◌}

-- The four tests take a char as an `int`. A byte from 128 on is negative where `char` is signed and
-- above 127 where it is not, so that the first test fails on it and the others too.
unfoldable pub is_char : ℕ → Bool
is_char c = leb 0 c && leb c 127

unfoldable pub is_ctl : ℕ → Bool
is_ctl c = (leb 0 c && leb c 31) || c == 127

unfoldable pub is_tspecial : ℕ → Bool
is_tspecial c =
    c == b'('
    || c == b')'
    || c == b'<'
    || c == b'>'
    || c == b'@'
    || c == b','
    || c == b';'
    || c == b':'
    || c == b'\\'
    || c == b'"'
    || c == b'/'
    || c == b'['
    || c == b']'
    || c == b'?'
    || c == b'='
    || c == b'{'
    || c == b'}'
    || c == b' '
    || c == b'\t'

unfoldable pub is_digit : ℕ → Bool
is_digit c = leb b'0' c && leb c b'9'
