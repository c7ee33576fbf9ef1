-- ===== src/Tests/FetchTests.antt =====
-- The clients of boost_asio/cpp_03_example/boost_http_server_1, and its server behind them.
use boost_learn.Common.{
  ℕ, ◌≡◌, ◌≢◌, refl, Bool, true, ◌||◌, List, [], ◌∷◌, ◌++◌, arith, Bytes, codes, leb, ◌&&◌, equal,
  to_decimal,
}
use boost_learn.Http.Connection.{Connection}
use boost_learn.Http.Parser.{expecting_newline_3}
use boost_learn.Http.Parser.Message.{request_of}
use boost_learn.Http.Reply.{Reply, ok, not_found, status_code, to_buffer, to_buffers, stock_reply}
use boost_learn.Http.Reply.Framing.{gather, lines, header_text}
use boost_learn.Http.UrlDecode.RoundTrip.{percent_encode}
use boost_learn.HttpClient.{
  handle_read_content, ErrorCode, HttpClient, read_content, nothing, new_client, handle_resolve,
  handle_connect, handle_write_request, handle_read_status_line, handle_read_headers, header_lines,
}
use boost_learn.HttpClient.{success as done}
use boost_learn.HttpClient.Status.{status_line}
use boost_learn.HttpClient.Cuts.{contains, starts_with}
use boost_learn.HttpClient.Fetch.{request_message}
use boost_learn.HttpClient.Headerless.{headerless, OnlyErrors, Reach-never_content}
use boost_learn.HttpClient.Refused.{handle_read_status_line_refused}
use boost_learn.HttpClient.Running.{
  Reach, begins, resolves, connects, writes, reads_status_line, reads_headers, arrives, written,
}
use boost_learn.HttpClient.Shows.{Reach-shown}
use boost_learn.HttpClient.Status.{status_line, ends_status}
use boost_learn.HttpClient.Sync.{main_prints, drive, main_prints-drive}
use boost_learn.Tests.HttpTests.{no_request}

-- The texts of error codes.
abbrev no_text : ErrorCode → Bytes
no_text e = []

-- A page of three bytes, with one header.
abbrev small : Reply
small = record {
  status = ok;
  headers = record { name = codes "A"; value = codes "b" } ∷ [];
  content = codes "xyz";
}

module _ (path sent : Bytes) where
  abbrev asked : HttpClient
  asked = handle_write_request no_text no_text done (
      written (
        handle_connect no_text no_text done
          (handle_resolve no_text no_text done (new_client (codes "here") path))))

  asked-Reach : Reach no_text no_text (codes "here") path sent sent asked
  unfolding new_client handle_resolve handle_connect handle_write_request
  asked-Reach = writes done refl (connects done refl (resolves done refl begins))

abbrev first : Bytes
first = codes "HTTP/1.0 200 OK\r\nA:"

abbrev second : Bytes
second = codes " b\r\n\r\nx"

abbrev third : Bytes
third = codes "yz"

abbrev shown_page : HttpClient
shown_page = handle_read_headers no_text no_text done (
    arrives second (
      handle_read_status_line no_text no_text done
        (arrives first (asked (codes "/a.gif") (first ++ (second ++ third))))))

shown_page-Reach :
    Reach no_text no_text
      (codes "here")
      (codes "/a.gif")
      (gather (to_buffers small))
      third
      shown_page
unfolding gather to_buffers to_buffer new_client handle_resolve handle_connect handle_write_request
    handle_read_status_line status_line contains starts_with equal
shown_page-Reach =
    reads_headers second refl refl (
      reads_status_line first refl refl (asked-Reach (codes "/a.gif") (first ++ (second ++ third))))

Reach-shown_example :
    (shown_page.output ++ third ≡ lines small.headers (b'\n' ∷ small.content))
    × (let d = handle_read_content no_text no_text ErrorCode.eof shown_page in
        (d.output ≡ shown_page.output) × (d.waiting ≡ nothing))
unfolding new_client handle_resolve handle_connect handle_write_request handle_read_headers
    header_lines handle_read_status_line status_line equal header_text
Reach-shown_example =
    Reach-shown no_text no_text small refl ((((omega arith, omega arith), omega arith), tt))
      shown_page-Reach refl

abbrev page_of_404 : Reply
page_of_404 = stock_reply to_decimal not_found

handle_read_status_line_refused_example :
    handle_read_status_line no_text no_text done
      (record (asked (codes "/a.gif") []) { response_ = to_buffer not_found ++ codes "Con" })
    ≡ record (asked (codes "/a.gif") []) {
      response_ = codes "Con";
      output =
          (asked (codes "/a.gif") []).output
          ++ (codes "Response returned with status code "
              ++ (to_decimal (status_code not_found) ++ codes "\n"));
      waiting = nothing;
    }
unfolding status_code
handle_read_status_line_refused_example =
    handle_read_status_line_refused no_text no_text not_found (codes "Con")
      (asked (codes "/a.gif") []) (ground arith)

-- The whole reply has arrived with the status line.
abbrev bare : Bytes
bare = gather (to_buffers (headerless (codes "xyz")))

abbrev bare_read : HttpClient
bare_read =
    handle_read_status_line no_text no_text done (arrives bare (asked (codes "/a.gif") bare))

bare_read-Reach : Reach no_text no_text (codes "here") (codes "/a.gif") bare [] bare_read
unfolding gather to_buffers to_buffer new_client handle_resolve handle_connect handle_write_request
    contains starts_with
bare_read-Reach = reads_status_line bare refl refl (asked-Reach (codes "/a.gif") bare)

Reach-never_content_example :
    (bare_read.waiting ≢ read_content) × OnlyErrors no_text no_text bare_read.output
Reach-never_content_example =
    Reach-never_content no_text no_text (codes "xyz") (omega arith) bare_read-Reach

main_prints-drive_example :
    main_prints no_text first second (third ∷ []) ErrorCode.eof
    ≡ (drive no_text no_text no_text first second (third ∷ []) (asked (codes "/a.gif") [])).output
unfolding new_client handle_resolve handle_connect handle_write_request ends_status
main_prints-drive_example =
    main_prints-drive no_text no_text no_text first second (third ∷ []) (asked (codes "/a.gif") [])
      refl refl refl

-- A status line whose newline has not come with it: no header line is read as one.
main_prints-at_end :
    main_prints no_text (codes "\r\nHTTP/1.0 200 OK") (codes "\r\nA: b\r\n\r\nx") [] ErrorCode.eof
    ≡ codes "\n\r\nA: b\r\n\r\nx"
unfolding main_prints status_line ends_status equal
main_prints-at_end = refl

-- Letters, digits, slashes and dots are not escaped.
abbrev kept : ℕ → Bool
kept c = leb b'a' c && leb c b'z' || (leb b'.' c && leb c b'9')

abbrev path : Bytes
path = percent_encode kept true (codes "/a.gif")

abbrev gif : Reply
gif = record {
  status = ok;
  headers =
      record { name = codes "Content-Length"; value = codes "6" }
      ∷ record { name = codes "Content-Type"; value = codes "image/gif" }
      ∷ [];
  content = codes "GIF89a";
}

abbrev request_pieces : List Bytes
request_pieces =
    codes "GET /a.gif HTTP/1.0\r\nHost: he"
    ∷ codes "re\r\nAccept: */*\r\nConnection: close\r\n\r"
    ∷ codes "\n"
    ∷ []

abbrev gif_served : Connection
gif_served = record {
  parser = expecting_newline_3;
  request = request_of (request_message (codes "here") path) no_request;
  reply = gif;
}

abbrev gif_first : Bytes
gif_first = codes "HTTP/1.0 200 OK\r\nContent-Length: 6\r\n"

abbrev gif_second : Bytes
gif_second = codes "Content-Type: image/gif\r\n\r\nGIF"

abbrev gif_third : Bytes
gif_third = codes "89a"

abbrev gif_shown : HttpClient
gif_shown = handle_read_headers no_text no_text done (
    arrives gif_second (
      handle_read_status_line no_text no_text done
        (arrives gif_first (asked path (gif_first ++ (gif_second ++ gif_third))))))
