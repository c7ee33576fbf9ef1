-- ===== src/Http/Reply/Pages.antt =====
-- The status lines and the stock pages agree with the status codes.
use boost_learn.Common.{
  ℕ, ◌+◌, ◌-◌, ◌/◌, ◌%◌, ◌≡◌, ◌≢◌, refl, [], ◌∷◌, ◌++◌, Bytes, codes, length, take, drop,
}
use boost_learn.Http.Reply.{
  StatusType, ok, no_content, created, status_code, to_buffer, to_string, crlf,
}

-- A status code in decimal.
abbrev pub three_digits : ℕ → Bytes
three_digits n = (n / 100 + b'0') ∷ (n / 10 % 10 + b'0') ∷ (n % 10 + b'0') ∷ []

-- What a status line says behind the code.
abbrev pub reason : StatusType → Bytes
unfolding to_buffer
reason s = let line = to_buffer s in take (length line - 15) (drop 13 line)

-- Every status line is the protocol, the three digits of the status code, and a reason.
pub to_buffer_lem :
    (s : StatusType)
    → to_buffer s
      ≡ codes "HTTP/1.0 " ++ (three_digits (status_code s) ++ (b' ' ∷ (reason s ++ crlf)))
unfolding to_buffer status_code
to_buffer_lem ok = refl
to_buffer_lem _ = refl

-- The page of every status but `ok`, whose page is empty, and `no_content` shows what the status line
-- says: the reason as its title, and the code with the reason as its heading.
pub to_string_lem :
    (s : StatusType)
    → s ≢ ok
    → s ≢ no_content
    → to_string s
      ≡ codes "<html><head><title>"
        ++ (reason s
            ++ (codes "</title></head><body><h1>"
                ++ (three_digits (status_code s)
                    ++ (b' ' ∷ (reason s ++ codes "</h1></body></html>")))))
unfolding to_buffer to_string status_code
to_string_lem ok n m = absurd (n refl)
to_string_lem no_content n m = absurd (m refl)
to_string_lem created n m = refl
to_string_lem _ n m = refl
