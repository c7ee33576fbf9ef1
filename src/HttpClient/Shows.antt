-- ===== src/HttpClient/Shows.antt =====
-- What the client shows of a reply of the server.
use mathlib.Core.Path.{subst}
use boost_learn.Common.{
  ◌≡◌, ◌≢◌, inr, refl, sym, ap, ◌∙◌, true, some, [], ◌∷◌, ◌++◌, append_assoc, arith, Bytes, codes,
  All, equal,
}
use boost_learn.Http.Reply.{Reply, ok, to_buffer, to_buffers, crlf}
use boost_learn.Http.Reply.Framing.{gather, lines, gather-to_buffers}
use boost_learn.HttpClient.{
  ErrorCode, success, eof, failure, HttpClient, Waiting, resolve, connect, write, read_status_line,
  read_headers, read_content, nothing, new_client, handle_resolve, handle_connect,
  handle_write_request, handle_read_status_line, handle_read_headers, handle_read_content,
  on_status, shows, header_lines,
}
use boost_learn.HttpClient.Status.{status_line}
use boost_learn.HttpClient.Cuts.{contains, blank_line, Cut-crlf}
use boost_learn.HttpClient.Lines.{IsLine, header_lines-lines, headers_cut, shown-append}
use boost_learn.HttpClient.Running.{
  Reach, begins, resolves, connects, writes, reads_status_line, reads_headers, reads_content,
  fails_status_line, fails_headers, fails_content, arrives, written,
}

abbrev pub ok_line : Bytes
ok_line = codes "HTTP/1.0 200 OK"

pub status_line_ok :
    (y : Bytes) → status_line (ok_line ++ (crlf ++ y)) ≡ some (codes "HTTP/1.0", 200, y)
unfolding status_line
status_line_ok y = refl

module _ (message code : ErrorCode → Bytes) (r : Reply) where
  -- What follows the status line.
  abbrev pub behind_status : Bytes
  behind_status = lines r.headers (crlf ++ r.content)

  -- What is to be shown.
  abbrev pub shown : Bytes
  shown = lines r.headers (b'\n' ∷ r.content)

  -- What has come, or has been shown, and what is still to come are together what the server sends.
  abbrev pub Whole : Waiting → Bytes → HttpClient → Type 0
  Whole read_headers rest c = (c.response_ ++ rest ≡ behind_status) × (c.output ≡ [])
  Whole read_content rest c = (c.response_ ≡ []) × (c.output ++ rest ≡ shown)
  Whole nothing rest c = Unit
  Whole w rest c = (c.response_ ++ rest ≡ ok_line ++ (crlf ++ behind_status)) × (c.output ≡ [])

  abbrev pub IsWhole : Bytes → HttpClient → Type 0
  IsWhole rest c = Whole c.waiting rest c

  resolve-IsWhole :
      (e : ErrorCode) (rest : Bytes) (c : HttpClient)
      → Whole resolve rest c
      → IsWhole rest (handle_resolve message code e c)
  unfolding handle_resolve
  resolve-IsWhole success rest c w = w
  resolve-IsWhole _ rest c w = tt

  connect-IsWhole :
      (e : ErrorCode) (rest : Bytes) (c : HttpClient)
      → Whole connect rest c
      → IsWhole rest (handle_connect message code e c)
  unfolding handle_connect
  connect-IsWhole success rest c w = w
  connect-IsWhole _ rest c w = tt

  write-IsWhole :
      (e : ErrorCode) (rest : Bytes) (c : HttpClient)
      → Whole write rest c
      → IsWhole rest (handle_write_request message code e (written c))
  unfolding handle_write_request
  write-IsWhole success rest c w = w
  write-IsWhole _ rest c w = tt

  status-IsWhole :
      (bs rest : Bytes) (c : HttpClient)
      → contains crlf (c.response_ ++ bs) ≡ true
      → Whole read_status_line (bs ++ rest) c
      → IsWhole rest (handle_read_status_line message code success (arrives bs c))
  unfolding handle_read_status_line equal
  status-IsWhole bs rest c k (w, o) =
      let (y, (p, q)) =
        Cut-crlf ok_line (c.response_ ++ bs) rest behind_status (omega arith) k
          (append_assoc c.response_ bs rest ∙ w) in
      subst (λ t. IsWhole rest (on_status message code (status_line t) (arrives bs c))) (sym p)
        (subst (λ t. IsWhole rest (on_status message code t (arrives bs c)))
          (sym (status_line_ok y)) (sym q, o))

  headers-IsWhole :
      All IsLine r.headers
      → (bs rest : Bytes) (c : HttpClient) → contains blank_line (c.response_ ++ bs) ≡ true
      → Whole read_headers (bs ++ rest) c
      → IsWhole rest (handle_read_headers message code success (arrives bs c))
  unfolding handle_read_headers
  headers-IsWhole good bs rest c k (w, o) =
      let (y, p, q) =
        headers_cut r.headers (c.response_ ++ bs) rest r.content good (inr k)
          (append_assoc c.response_ bs rest ∙ w) in
      subst (λ t. IsWhole rest (shows message code (header_lines [] t) (arrives bs c))) (sym p)
        (subst (λ t. IsWhole rest (shows message code t (arrives bs c)))
          (sym (header_lines-lines r.headers y good))
          (
            refl,
            ap (λ t. (t ++ (lines r.headers [] ++ (b'\n' ∷ y))) ++ rest) o
                ∙ shown-append r.headers y rest
                ∙ ap (λ t. lines r.headers (b'\n' ∷ t)) (sym q),
          ))

  content-IsWhole :
      (e : ErrorCode) (bs rest : Bytes) (c : HttpClient)
      → Whole read_content (bs ++ rest) c
      → IsWhole rest (handle_read_content message code e (arrives bs c))
  unfolding handle_read_content
  content-IsWhole success bs rest c (w, o) = (refl, rw w (append_assoc c.output bs rest ∙ o))
  content-IsWhole eof bs rest c w = tt
  content-IsWhole failure bs rest c w = tt

  failed :
      (e : ErrorCode) (rest : Bytes) (c : HttpClient)
      → e ≢ success
      → IsWhole rest (handle_read_status_line message code e c)
        × IsWhole rest (handle_read_headers message code e c)
        × IsWhole rest (handle_read_content message code e c)
  unfolding handle_read_status_line handle_read_headers handle_read_content
  failed success rest c n = absurd (n refl)
  failed _ rest c n = (tt, tt, tt)

  pub Reach-IsWhole :
      {server path rest : Bytes} {c : HttpClient}
      → All IsLine r.headers
      → Reach message code server path (ok_line ++ (crlf ++ behind_status)) rest c
      → IsWhole rest c
  unfolding new_client
  Reach-IsWhole g begins = (refl, refl)
  Reach-IsWhole g (resolves {rest} {c} e w h) =
      resolve-IsWhole e rest c (subst (λ w. Whole w rest c) w (Reach-IsWhole g h))
  Reach-IsWhole g (connects {rest} {c} e w h) =
      connect-IsWhole e rest c (subst (λ w. Whole w rest c) w (Reach-IsWhole g h))
  Reach-IsWhole g (writes {rest} {c} e w h) =
      write-IsWhole e rest c (subst (λ w. Whole w rest c) w (Reach-IsWhole g h))
  Reach-IsWhole g (reads_status_line {rest} {c} bs w k h) =
      status-IsWhole bs rest c k (subst (λ w. Whole w (bs ++ rest) c) w (Reach-IsWhole g h))
  Reach-IsWhole g (reads_headers {rest} {c} bs w k h) =
      headers-IsWhole g bs rest c k (subst (λ w. Whole w (bs ++ rest) c) w (Reach-IsWhole g h))
  Reach-IsWhole g (reads_content {rest} {c} bs w h) =
      content-IsWhole success bs rest c (subst (λ w. Whole w (bs ++ rest) c) w (Reach-IsWhole g h))
  Reach-IsWhole g (fails_status_line {rest} {c} e bs w n h) = (failed e rest (arrives bs c) n).0
  Reach-IsWhole g (fails_headers {rest} {c} e bs w n h) = (failed e rest (arrives bs c) n).1
  Reach-IsWhole g (fails_content {rest} {c} e w n h) = (failed e rest c n).2

-- In every run of the client against the server's reply `r`, a reply of status ok whose headers stand
-- in one line each: whenever the client waits for content, the header lines, an empty line and the
-- content are together what was shown and what is still to come, so that nothing is lost or shown twice;
-- and the end of the file makes it stop without showing any more.
pub Reach-shown :
    (message code : ErrorCode → Bytes) (r : Reply) {server path rest : Bytes} {c : HttpClient}
    → r.status ≡ ok
    → All IsLine r.headers
    → Reach message code server path (gather (to_buffers r)) rest c
    → c.waiting ≡ read_content
    → (c.output ++ rest ≡ lines r.headers (b'\n' ∷ r.content))
      × (let d = handle_read_content message code eof c in
          (d.output ≡ c.output) × (d.waiting ≡ nothing))
unfolding to_buffer handle_read_content
Reach-shown message code r {server} {path} {rest} {c} s g h w =
    let e = gather-to_buffers r ∙ ap (λ t. to_buffer t ++ lines r.headers (crlf ++ r.content)) s in
    (
      (subst (λ w. Whole message code r w rest c) w
          (Reach-IsWhole message code r g
            (subst (λ t. Reach message code server path t rest c) e h))).1,
      (refl, refl),
    )
