-- ===== src/HttpClient/Running.antt =====
-- The runs of the client against a server that sends `sent` and then closes the connection: the
-- bytes arrive in any pieces, any operation may fail, and `async_read_until` completes without an
-- error only once its delimiter is in the buffer.
use boost_learn.Common.{◌≡◌, ◌≢◌, true, [], ◌++◌, Bytes}
use boost_learn.Http.Reply.{crlf}
use boost_learn.HttpClient.{
  ErrorCode, success, HttpClient, new_client, resolve, connect, write, read_status_line,
  read_headers, read_content, handle_resolve, handle_connect, handle_write_request,
  handle_read_status_line, handle_read_headers, handle_read_content,
}
use boost_learn.HttpClient.Cuts.{contains, blank_line}

-- Bytes arrive in the buffer of the response.
abbrev pub arrives : Bytes → HttpClient → HttpClient
arrives bs c = record c { response_ = c.response_ ++ bs }

-- `async_write` takes the request from its buffer.
abbrev pub written : HttpClient → HttpClient
written c = record c { request_ = [] }

-- A run, with what is still to come from the server.
pub data Reach (message code : ErrorCode → Bytes) (server path sent : Bytes)
    : Bytes → HttpClient → Type 0 where
  begins : Reach message code server path sent sent (new_client server path)
  resolves :
      {rest : Bytes} {c : HttpClient} (e : ErrorCode)
      → c.waiting ≡ resolve
      → Reach message code server path sent rest c
      → Reach message code server path sent rest (handle_resolve message code e c)
  connects :
      {rest : Bytes} {c : HttpClient} (e : ErrorCode)
      → c.waiting ≡ connect
      → Reach message code server path sent rest c
      → Reach message code server path sent rest (handle_connect message code e c)
  writes :
      {rest : Bytes} {c : HttpClient} (e : ErrorCode)
      → c.waiting ≡ write
      → Reach message code server path sent rest c
      → Reach message code server path sent rest (handle_write_request message code e (written c))
  reads_status_line :
      {rest : Bytes} {c : HttpClient} (bs : Bytes)
      → c.waiting ≡ read_status_line
      → contains crlf (c.response_ ++ bs) ≡ true
      → Reach message code server path sent (bs ++ rest) c
      → Reach message code server path sent rest
          (handle_read_status_line message code success (arrives bs c))
  reads_headers :
      {rest : Bytes} {c : HttpClient} (bs : Bytes)
      → c.waiting ≡ read_headers
      → contains blank_line (c.response_ ++ bs) ≡ true
      → Reach message code server path sent (bs ++ rest) c
      → Reach message code server path sent rest
          (handle_read_headers message code success (arrives bs c))
  reads_content :
      {rest : Bytes} {c : HttpClient} (bs : Bytes)
      → c.waiting ≡ read_content
      → Reach message code server path sent (bs ++ rest) c
      → Reach message code server path sent rest
          (handle_read_content message code success (arrives bs c))
  fails_status_line :
      {rest : Bytes} {c : HttpClient} (e : ErrorCode) (bs : Bytes)
      → c.waiting ≡ read_status_line
      → e ≢ success
      → Reach message code server path sent (bs ++ rest) c
      → Reach message code server path sent rest
          (handle_read_status_line message code e (arrives bs c))
  fails_headers :
      {rest : Bytes} {c : HttpClient} (e : ErrorCode) (bs : Bytes)
      → c.waiting ≡ read_headers
      → e ≢ success
      → Reach message code server path sent (bs ++ rest) c
      → Reach message code server path sent rest (handle_read_headers message code e (arrives bs c))
  fails_content :
      {rest : Bytes} {c : HttpClient} (e : ErrorCode)
      → c.waiting ≡ read_content
      → e ≢ success
      → Reach message code server path sent rest c
      → Reach message code server path sent rest (handle_read_content message code e c)
