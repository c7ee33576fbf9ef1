-- ===== src/HttpClient/Refused.antt =====
-- Replies whose content the client does not show.
use boost_learn.Common.{
  false, ◌==◌, ℕ, ◌≡◌, ◌≢◌, refl, ap, ◌∙◌, some, ◌++◌, arith, Bytes, codes, equal, to_decimal,
}
use boost_learn.Http.Reply.{StatusType, ok, status_code, to_buffer}
use boost_learn.HttpClient.{
  ErrorCode, success, HttpClient, nothing, handle_read_status_line, on_status,
}
use boost_learn.HttpClient.Status.{status_line}

-- `>>` into the string and the number, and `getline`, of each status line that the server sends.
status_line-to_buffer :
    (s : StatusType) (more : Bytes)
    → status_line (to_buffer s ++ more) ≡ some (codes "HTTP/1.0", status_code s, more)
unfolding status_line to_buffer status_code
status_line-to_buffer ok more = refl
status_line-to_buffer _ more = refl

other_code : (n : ℕ) → n ≢ 200 → (n == 200) ≡ false
other_code n h = ground arith

-- A status line of the server with another code than 200, and whatever has come behind it: the client
-- prints the code, in decimal digits, and stops.
pub handle_read_status_line_refused :
    (message code : ErrorCode → Bytes) (s : StatusType) (more : Bytes) (c : HttpClient)
    → status_code s ≢ 200
    → handle_read_status_line message code success (record c { response_ = to_buffer s ++ more })
      ≡ record c {
        response_ = more;
        output =
            c.output
            ++ (codes "Response returned with status code "
                ++ (to_decimal (status_code s) ++ codes "\n"));
        waiting = nothing;
      }
unfolding handle_read_status_line equal
handle_read_status_line_refused message code s more c n =
    ap (λ o. on_status message code o (record c { response_ = to_buffer s ++ more }))
      (status_line-to_buffer s more)
    ∙ rw (other_code (status_code s) n) refl
