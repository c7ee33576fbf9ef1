-- ===== src/Http/Parser/Accepts.antt =====
-- `parse` accepts every message of the grammar and fills the request with its parts.
use mathlib.Core.List.{map}
use boost_learn.Common.{
  ◌≡◌, ◌≢◌, refl, ◌∙◌, List, [], ◌∷◌, ◌++◌, append-nil, append_assoc, arith, Bytes, All,
}
use boost_learn.Http.Request.{Header, Request}
use boost_learn.Http.Tribool.{Tribool}
use boost_learn.Http.Parser.{
  initial_state, method_start, method, uri, http_version_major_start, http_version_minor_start,
  header_line_start, header_name, header_value, expecting_newline_3, consume, parsed, parse,
  add_digit,
}
use boost_learn.Http.Parser.Message.{
  Fold, Line, Message, IsToken, IsDigit, IsBlank, IsFold, IsLine, IsMessage, crlf, render_folds,
  render_lines, render, fold_texts, header_of, number, request_of,
}
use boost_learn.Http.Parser.Steps.{
  blank_step, new_step, parse-go, parse_blanks, parse_fold_text, parse_major, parse_method,
  parse_minor, parse_name, parse_uri, parse_value, with_last,
}

-- One continuation line, behind a line whose last header is `h`.
parse_fold :
    (f : Fold) (rest : Bytes) (req : Request) (hs : List Header) (h : Header)
    → IsFold f
    → parse header_line_start (with_last req hs h) (f.blanks ++ (f.text ++ crlf rest))
      ≡ parse header_line_start (with_last req hs (record h { value = h.value ++ f.text })) rest
parse_fold f rest req hs h w = go_on f.blanks w.some_blank w.all_blank
  where
    go_on :
        (b : Bytes)
        → b ≢ []
        → All IsBlank b
        → parse header_line_start (with_last req hs h) (b ++ (f.text ++ crlf rest))
          ≡ parse header_line_start (with_last req hs (record h { value = h.value ++ f.text })) rest
    go_on [] ne t = absurd (ne refl)
    go_on (c ∷ cs) ne (t, ts) =
        parse-go _ _ c (cs ++ (f.text ++ crlf rest)) (blank_step req hs c h t)
        ∙ parse_blanks req hs (f.text ++ crlf rest) cs _ ts
        ∙ parse_fold_text req hs rest f.text h w.all_text w.starts

parse_folds :
    (fs : List Fold) (rest : Bytes) (req : Request) (hs : List Header) (h : Header)
    → All IsFold fs
    → parse header_line_start (with_last req hs h) (render_folds fs rest)
      ≡ parse header_line_start
          (with_last req hs (record h { value = h.value ++ fold_texts fs }))
          rest
parse_folds [] rest req hs h w = rw append-nil
parse_folds (f ∷ fs) rest req hs h (w, ws) =
    parse_fold f (render_folds fs rest) req hs h w
    ∙ parse_folds fs rest req hs (record h { value = h.value ++ f.text }) ws
    ∙ rw append_assoc

colon_step :
    (req : Request) (rest : Bytes)
    → parse header_name req (b':' ∷ b' ' ∷ rest) ≡ parse header_value req rest
unfolding parse consume
colon_step req rest = refl

parse_line :
    (l : Line) (rest : Bytes) (req : Request)
    → IsLine l
    → parse header_line_start req
        (l.name ++ (b':' ∷ b' ' ∷ (l.value ++ crlf (render_folds l.folds rest))))
      ≡ parse header_line_start (with_last req req.headers (header_of l)) rest
parse_line l rest req w = go_on l.name w.some_name w.all_token
  where
    tail : Bytes
    tail = b':' ∷ b' ' ∷ (l.value ++ crlf (render_folds l.folds rest))

    go_on :
        (n : Bytes)
        → n ≢ []
        → All IsToken n
        → parse header_line_start req (n ++ tail)
          ≡ parse header_line_start
              (with_last req req.headers
                (record { name = n; value = l.value ++ fold_texts l.folds }))
              rest
    go_on [] ne t = absurd (ne refl)
    go_on (c ∷ cs) ne (t, ts) =
        parse-go _ _ c (cs ++ tail) (new_step req req.headers c t)
        ∙ parse_name req req.headers tail cs (record { name = c ∷ []; value = [] }) ts
        ∙ colon_step (with_last req req.headers (record { name = c ∷ cs; value = [] })) _
        ∙ parse_value req req.headers (render_folds l.folds rest) l.value
            (record { name = c ∷ cs; value = [] }) w.all_text
        ∙ parse_folds l.folds rest req req.headers (record { name = c ∷ cs; value = l.value })
            w.all_folds

parse_lines :
    (ls : List Line) (rest : Bytes) (req : Request)
    → All IsLine ls
    → parse header_line_start req (render_lines ls rest)
      ≡ parse header_line_start (record req { headers = req.headers ++ map header_of ls }) rest
parse_lines [] rest req w = rw append-nil
parse_lines (l ∷ ls) rest req (w, ws) =
    parse_line l (render_lines ls rest) req w
    ∙ parse_lines ls rest (with_last req req.headers (header_of l)) ws
    ∙ rw append_assoc

-- A loop state's lemma over a text that is not empty, from the state before the loop.
method_part :
    (m rest : Bytes) (req : Request)
    → m ≢ []
    → All IsToken m
    → parse method_start req (m ++ rest)
      ≡ parse method (record req { method = req.method ++ m }) rest
unfolding parse consume
method_part [] rest req ne t = absurd (ne refl)
method_part (c ∷ cs) rest req ne (t, ts) = ground (
  arith,
  parse_method cs rest (record req { method = req.method ++ c ∷ [] }) ts,
  append_assoc req.method (c ∷ []) cs,
)

major_part :
    (m rest : Bytes) (req : Request)
    → m ≢ []
    → All IsDigit m
    → parse http_version_major_start req (m ++ (b'.' ∷ rest))
      ≡ parse http_version_minor_start
          (record req { http_version_major = number req.http_version_major m })
          rest
unfolding parse consume
major_part [] rest req ne t = absurd (ne refl)
major_part (c ∷ cs) rest req ne (t, ts) = ground (
  arith,
  parse_major cs (b'.' ∷ rest)
      (record req { http_version_major = add_digit req.http_version_major c }) ts,
)

minor_part :
    (m rest : Bytes) (req : Request)
    → m ≢ []
    → All IsDigit m
    → parse http_version_minor_start req (m ++ crlf rest)
      ≡ parse header_line_start
          (record req { http_version_minor = number req.http_version_minor m })
          rest
unfolding parse consume
minor_part [] rest req ne t = absurd (ne refl)
minor_part (c ∷ cs) rest req ne (t, ts) = ground (
  arith,
  parse_minor cs (crlf rest)
      (record req { http_version_minor = add_digit req.http_version_minor c }) ts,
)

space_step : (req : Request) (rest : Bytes) → parse method req (b' ' ∷ rest) ≡ parse uri req rest
unfolding parse consume
space_step req rest = refl

protocol_step :
    (req : Request) (rest : Bytes)
    → parse uri req (b' ' ∷ b'H' ∷ b'T' ∷ b'T' ∷ b'P' ∷ b'/' ∷ rest)
      ≡ parse http_version_major_start
          (record req { http_version_major = 0; http_version_minor = 0 })
          rest
unfolding parse consume
protocol_step req rest = refl

end_step :
    (req : Request) (rest : Bytes)
    → parse header_line_start req (crlf rest) ≡ parsed Tribool.true rest expecting_newline_3 req
unfolding parse consume
end_step req rest = refl

-- A message of the grammar with any bytes behind it is accepted from the initial state: the parser
-- stops right behind the message, and the request holds its method, URI, versions and headers, with
-- continuation lines joined, behind what the request held before; the old versions are lost.
pub parse-render :
    (m : Message) (rest : Bytes) (req : Request)
    → IsMessage m
    → parse initial_state req (render m rest)
      ≡ parsed Tribool.true rest expecting_newline_3 (request_of m req)
parse-render m rest req w =
    method_part m.method _ req w.some_method w.all_token
    ∙ space_step _ _
    ∙ parse_uri m.uri _ _ w.all_uri
    ∙ protocol_step _ _
    ∙ major_part m.major _ _ w.some_major w.major_digits
    ∙ minor_part m.minor _ _ w.some_minor w.minor_digits
    ∙ parse_lines m.lines (crlf rest) _ w.all_lines
    ∙ end_step _ rest
