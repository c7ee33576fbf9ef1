-- ===== src/Http/RequestHandler/Framed.antt =====
-- Every reply of the handler can be read by a client.
use boost_learn.Common.{
  equal, decimal, if◌then◌else◌, ℕ, ◌≡◌, refl, ap, ◌∙◌, none, some, Option, List, [], ◌∷◌, ◌++◌,
  arith, Bytes, codes, length, Lacks, All, Bool-cases, Option-cases, inl, inr,
}
use boost_learn.Http.MimeTypes.{extension_to_type, extension_to_type-Lacks}
use boost_learn.Http.Reply.{
  Reply, StatusType, to_buffers, stock_reply, standard_headers, bad_request, not_found,
}
use boost_learn.Http.Reply.Framing.{gather, body_of, IsClean, body_of-to_buffers}
use boost_learn.Http.Request.{Request, Header}
use boost_learn.Http.UrlDecode.{url_decode}
use boost_learn.Http.RequestHandler.{
  refused_path, with_index, extension_of, c_str, serve, handle_request,
}

-- The two headers are those for the content, with a type that is one line.
record Standard (lexical_cast : ℕ → Bytes) (r : Reply) : Type 0 where
  type : Bytes
  one_line : Lacks b'\r' type
  headers_are : r.headers ≡ standard_headers lexical_cast r.content type

module _ (lexical_cast : ℕ → Bytes) where
  stock_reply-Standard : (s : StatusType) → Standard lexical_cast (stock_reply lexical_cast s)
  unfolding stock_reply
  stock_reply-Standard s = record {
    type = codes "text/html";
    one_line = omega arith;
    headers_are = refl;
  }

  serve-Standard :
      (open_file : Bytes → Option Bytes) (doc_root path : Bytes) (rep : Reply)
      → Standard lexical_cast (serve lexical_cast open_file doc_root path rep)
  unfolding serve
  serve-Standard open_file doc_root path rep =
      elim (Option-cases (open_file (c_str (doc_root ++ path)))) [
        | inl e ↦ rw (e, serve) (stock_reply-Standard not_found)
        | inr (file, e) ↦
            rw (e, serve)
              (record {
                type = extension_to_type (extension_of path);
                one_line = extension_to_type-Lacks (extension_of path);
                headers_are = refl;
              })
      ]

  handle_request-Standard :
      (open_file : Bytes → Option Bytes) (doc_root : Bytes) (req : Request) (rep : Reply)
      → Standard lexical_cast (handle_request lexical_cast open_file doc_root req rep)
  handle_request-Standard open_file doc_root req rep = elim (Option-cases (url_decode req.uri)) [
    | inl e ↦ unfold handle_request in rw (e, handle_request) (stock_reply-Standard bad_request)
    | inr (path, e) ↦ elim (Bool-cases (refused_path path)) [
      | inl r ↦
          unfold handle_request in rw (e, r, handle_request) (stock_reply-Standard bad_request)
      | inr r ↦
          unfold handle_request in
          rw (e, r, handle_request) (serve-Standard open_file doc_root (with_index path) rep)
    ]
  ]

-- The number in the first `Content-Length` header.
abbrev pub announced : List Header → Option ℕ
announced [] = none
announced (h ∷ hs) =
    if equal h.name (codes "Content-Length") then some (decimal 0 h.value) else announced hs

announced-standard_headers :
    (lexical_cast : ℕ → Bytes) (content type : Bytes)
    → announced (standard_headers lexical_cast content type)
      ≡ some (decimal 0 (lexical_cast (length content)))
unfolding equal
announced-standard_headers lexical_cast content type = refl

Standard-IsClean :
    (lexical_cast : ℕ → Bytes) (r : Reply)
    → ((n : ℕ) → Lacks b'\r' (lexical_cast n))
    → Standard lexical_cast r
    → All IsClean r.headers
Standard-IsClean lexical_cast r clean s =
    rw s.headers_are ((omega arith, clean (length r.content)), ((omega arith, s.one_line), tt))

-- On every branch, errors included, a client that reads the reply up to the first empty line finds
-- exactly the content behind it, and the Content-Length header announces the length of that content.
-- The strings that `lexical_cast` makes are the decimal ones: the two hypotheses on it say that they
-- hold no carriage return and spell the number.
pub handle_request_framed :
    (lexical_cast : ℕ → Bytes) (open_file : Bytes → Option Bytes) (doc_root : Bytes) (req : Request)
    (rep : Reply)
    → ((n : ℕ) → Lacks b'\r' (lexical_cast n))
    → ((n : ℕ) → decimal 0 (lexical_cast n) ≡ n)
    → let r = handle_request lexical_cast open_file doc_root req rep in
      (body_of (gather (to_buffers r)) ≡ some r.content)
      × (announced r.headers ≡ some (length r.content))
handle_request_framed lexical_cast open_file doc_root req rep clean exact =
    let r = handle_request lexical_cast open_file doc_root req rep in
    let s = handle_request-Standard lexical_cast open_file doc_root req rep in
    (
      body_of-to_buffers r (Standard-IsClean lexical_cast r clean s),
      ap announced s.headers_are
          ∙ announced-standard_headers lexical_cast r.content s.type
          ∙ ap some (exact (length r.content)),
    )
