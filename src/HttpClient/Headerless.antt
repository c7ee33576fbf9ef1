-- ===== src/HttpClient/Headerless.antt =====
-- A reply without headers: the second `async_read_until` waits for a second empty line.
use mathlib.Core.Path.{subst}
use boost_learn.Common.{
  ℕ, Option, ◌≡◌, ◌≢◌, refl, sym, codes, equal, ◌∙◌, true, [], ◌∷◌, ◌++◌, append_assoc, arith,
  Bytes, Lacks, some, none,
}
use boost_learn.Http.Reply.{Reply, ok, to_buffer, to_buffers, crlf}
use boost_learn.Http.Reply.Framing.{gather, lines, gather-to_buffers}
use boost_learn.HttpClient.{
  ErrorCode, success, eof, failure, HttpClient, Waiting, resolve, connect, write, read_status_line,
  read_headers, read_content, handle_resolve, handle_connect, handle_write_request,
  handle_read_status_line, handle_read_headers, handle_read_content, on_status, new_client,
}
use boost_learn.HttpClient.Status.{status_line}
use boost_learn.HttpClient.Cuts.{starts_with, contains, blank_line, Cut-crlf}
use boost_learn.HttpClient.Shows.{Reach-IsWhole, Whole, ok_line, status_line_ok}
use boost_learn.HttpClient.Running.{
  Reach, begins, resolves, connects, writes, reads_status_line, reads_headers, reads_content,
  fails_status_line, fails_headers, fails_content, arrives, written,
}

no_blank_line : (a r x : Bytes) → Lacks b'\r' x → a ++ r ≡ x → contains blank_line a ≢ true
unfolding contains starts_with
no_blank_line [] r x h e = ground arith
no_blank_line (c ∷ a) r [] h e = ground arith
no_blank_line (c ∷ a) r (d ∷ x) (n, h) e = ground (arith, no_blank_line a r x h)

no_second_line : (a r x : Bytes) → Lacks b'\r' x → a ++ r ≡ crlf ++ x → contains blank_line a ≢ true
unfolding contains starts_with
no_second_line [] r x h e = ground arith
no_second_line (c ∷ []) r x h e = ground arith
no_second_line (c ∷ d ∷ []) r x h e = ground arith
no_second_line (c ∷ d ∷ i ∷ a) r [] h e = ground arith
no_second_line (c ∷ d ∷ i ∷ a) r (j ∷ x) (n, h) e =
    ground (arith, no_blank_line (i ∷ a) r (j ∷ x) (n, h))

abbrev pub headerless : Bytes → Reply
headerless content = record { status = ok; headers = []; content = content }

module _ (message code : ErrorCode → Bytes) where
  before_content :
      (e : ErrorCode) (c : HttpClient)
      → ((handle_resolve message code e c).waiting ≢ read_content)
        × ((handle_connect message code e c).waiting ≢ read_content)
        × ((handle_write_request message code e c).waiting ≢ read_content)
  unfolding handle_resolve handle_connect handle_write_request
  before_content success c = ground arith
  before_content eof c = ground arith
  before_content failure c = ground arith

  status_before_content :
      (read : Option (Bytes × ℕ × Bytes)) (c : HttpClient)
      → (on_status message code read c).waiting ≢ read_content
  status_before_content none c = ground arith
  status_before_content (some (v, n, rest)) c = ground arith

  failed_before_content :
      (e : ErrorCode) (c : HttpClient)
      → e ≢ success
      → ((handle_read_status_line message code e c).waiting ≢ read_content)
        × ((handle_read_headers message code e c).waiting ≢ read_content)
        × ((handle_read_content message code e c).waiting ≢ read_content)
  unfolding handle_read_status_line handle_read_headers handle_read_content
  failed_before_content success c n = absurd (n refl)
  failed_before_content eof c n = ground arith
  failed_before_content failure c n = ground arith

  never_content :
      (content : Bytes) {server path rest : Bytes} {c : HttpClient}
      → Lacks b'\r' content
      → Reach message code server path (ok_line ++ (crlf ++ (crlf ++ content))) rest c
      → c.waiting ≢ read_content
  unfolding new_client handle_read_status_line lines
  never_content content k begins = ground arith
  never_content content k (resolves {rest} {c} e w h) = (before_content e c).0
  never_content content k (connects {rest} {c} e w h) = (before_content e c).1
  never_content content k (writes {rest} {c} e w h) = (before_content e (written c)).2
  never_content content k (reads_status_line {rest} {c} bs w d h) =
      status_before_content (status_line (c.response_ ++ bs)) (arrives bs c)
  never_content content k (reads_headers {rest} {c} bs w d h) =
      let whole =
        subst (λ w. Whole message code (headerless content) w (bs ++ rest) c) w
          (Reach-IsWhole message code (headerless content) tt h) in
      absurd (
        no_second_line (c.response_ ++ bs) rest content k
          (append_assoc c.response_ bs rest ∙ whole.0) d)
  never_content content k (reads_content {rest} {c} bs w h) = absurd (never_content content k h w)
  never_content content k (fails_status_line {rest} {c} e bs w d h) =
      (failed_before_content e (arrives bs c) d).0
  never_content content k (fails_headers {rest} {c} e bs w d h) =
      (failed_before_content e (arrives bs c) d).1
  never_content content k (fails_content {rest} {c} e w d h) = (failed_before_content e c d).2

  -- What is written to the output: nothing, or the message or the number of one error.
  pub data OnlyErrors : Bytes → Type 0 where
    silent : OnlyErrors []
    of_message : (e : ErrorCode) → OnlyErrors (codes "Error: " ++ (message e ++ codes "\n"))
    of_code : (e : ErrorCode) → OnlyErrors (codes "Error: " ++ (code e ++ codes "\n"))

  early-OnlyErrors :
      (e : ErrorCode) (c : HttpClient)
      → c.output ≡ []
      → OnlyErrors (handle_resolve message code e c).output
        × OnlyErrors (handle_connect message code e c).output
        × OnlyErrors (handle_write_request message code e c).output
  unfolding handle_resolve handle_connect handle_write_request
  early-OnlyErrors success c o = rw o (silent, silent, silent)
  early-OnlyErrors eof c o = rw o (of_message eof, of_message eof, of_message eof)
  early-OnlyErrors failure c o = rw o (of_message failure, of_message failure, of_message failure)

  failed-OnlyErrors :
      (e : ErrorCode) (c : HttpClient)
      → e ≢ success
      → c.output ≡ []
      → OnlyErrors (handle_read_status_line message code e c).output
        × OnlyErrors (handle_read_headers message code e c).output
  unfolding handle_read_status_line handle_read_headers
  failed-OnlyErrors success c n o = absurd (n refl)
  failed-OnlyErrors eof c n o = rw o (of_code eof, of_code eof)
  failed-OnlyErrors failure c n o = rw o (of_code failure, of_code failure)

  status-OnlyErrors :
      (bs rest y : Bytes) (c : HttpClient)
      → contains crlf (c.response_ ++ bs) ≡ true
      → (c.response_ ++ bs) ++ rest ≡ ok_line ++ (crlf ++ y)
      → c.output ≡ []
      → OnlyErrors (handle_read_status_line message code success (arrives bs c)).output
  unfolding handle_read_status_line equal
  status-OnlyErrors bs rest y c k w o =
      let (z, (p, q)) = Cut-crlf ok_line (c.response_ ++ bs) rest y (omega arith) k w in
      subst (λ t. OnlyErrors (on_status message code (status_line t) (arrives bs c)).output) (sym p)
        (subst (λ t. OnlyErrors (on_status message code t (arrives bs c)).output)
          (sym (status_line_ok z)) (rw o silent))

  -- What has come and what is to come, while the client waits for `w`.
  before :
      (content : Bytes) {server path : Bytes} (w : Waiting) (rest : Bytes) (c : HttpClient)
      → Reach message code server path (ok_line ++ (crlf ++ (crlf ++ content))) rest c
      → c.waiting ≡ w
      → Whole message code (headerless content) w rest c
  unfolding lines
  before content w rest c h e =
      subst (λ w. Whole message code (headerless content) w rest c) e
        (Reach-IsWhole message code (headerless content) tt h)

  only_errors :
      (content : Bytes) {server path rest : Bytes} {c : HttpClient}
      → Lacks b'\r' content
      → Reach message code server path (ok_line ++ (crlf ++ (crlf ++ content))) rest c
      → OnlyErrors c.output
  unfolding new_client lines
  only_errors content k begins = silent
  only_errors content k (resolves {rest} {c} e w h) =
      (early-OnlyErrors e c (before content resolve rest c h w).1).0
  only_errors content k (connects {rest} {c} e w h) =
      (early-OnlyErrors e c (before content connect rest c h w).1).1
  only_errors content k (writes {rest} {c} e w h) =
      (early-OnlyErrors e (written c) (before content write rest c h w).1).2
  only_errors content k (reads_status_line {rest} {c} bs w d h) =
      let whole = before content read_status_line (bs ++ rest) c h w in
      status-OnlyErrors bs rest (crlf ++ content) c d (append_assoc c.response_ bs rest ∙ whole.0)
        whole.1
  only_errors content k (reads_headers {rest} {c} bs w d h) =
      let whole = before content read_headers (bs ++ rest) c h w in
      absurd (
        no_second_line (c.response_ ++ bs) rest content k
          (append_assoc c.response_ bs rest ∙ whole.0) d)
  only_errors content k (reads_content {rest} {c} bs w h) = absurd (never_content content k h w)
  only_errors content k (fails_status_line {rest} {c} e bs w d h) =
      (failed-OnlyErrors e (arrives bs c) d
        (before content read_status_line (bs ++ rest) c h w).1).0
  only_errors content k (fails_headers {rest} {c} e bs w d h) =
      (failed-OnlyErrors e (arrives bs c) d (before content read_headers (bs ++ rest) c h w).1).1
  only_errors content k (fails_content {rest} {c} e w d h) = absurd (never_content content k h w)

  -- In every run against a reply of status ok without headers, whose content holds no carriage return,
  -- the client never comes to wait for the content, and whatever it prints is at most the text of one
  -- error: nothing of the content is shown.
  pub Reach-never_content :
      (content : Bytes) {server path rest : Bytes} {c : HttpClient}
      → Lacks b'\r' content
      → Reach message code server path (gather (to_buffers (headerless content))) rest c
      → (c.waiting ≢ read_content) × OnlyErrors c.output
  unfolding to_buffer lines
  Reach-never_content content {server} {path} {rest} {c} k h =
      let run =
        subst (λ t. Reach message code server path t rest c)
          (gather-to_buffers (headerless content)) h in
      (never_content content k run, only_errors content k run)
