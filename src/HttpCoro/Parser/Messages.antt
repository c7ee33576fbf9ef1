-- ===== src/HttpCoro/Parser/Messages.antt =====
-- The messages that the coroutine accepts.
use mathlib.Core.List.{map}
use mathlib.Core.Path.{subst}
use boost_learn.Common.{
  ◌≡◌, refl, sym, ap, ◌∙◌, ℕ, Option, some, [], ◌++◌, Bytes, length, All, arith, true, false,
}
use boost_learn.Http.Tribool.{Tribool}
use boost_learn.Http.Parser
use boost_learn.Http.Parser.{initial_state, expecting_newline_3}
use boost_learn.Http.Parser.Chunks.{parse-append}
use boost_learn.Http.Parser.Message.{Message, IsMessage, render, header_of, request_of}
use boost_learn.Http.Parser.Sound
use boost_learn.Http.Request.{Request as BasicRequest}
use boost_learn.HttpCoro.Request.{Request, basic}
use boost_learn.Http.Chars.{is_char}
use boost_learn.Http.Parser.Accepts.{parse-render}
use boost_learn.Http.Parser.Renders.{render-append}
use boost_learn.HttpCoro.Parser.Chunks.{resume, parse_pieces}
use boost_learn.HttpCoro.Parser.Completes.{and_then, content_ends, reaches}
use boost_learn.HttpCoro.Parser.{
  Place, start, done, content_length_of, parsed, parse, cleared, at_content, is_empty_text,
}
use boost_learn.HttpCoro.Parser.Refines.{parse-Framed}

abbrev with_body : BasicRequest → Bytes → Request
with_body r body = record {
  method = r.method;
  uri = r.uri;
  http_version_major = r.http_version_major;
  http_version_minor = r.http_version_minor;
  headers = r.headers;
  content = body;
}

-- The parts of a message and a content.
abbrev pub request_with : Message → Bytes → Request
request_with m body = with_body (request_of m (basic cleared)) body

module _ (lexical_cast : Bytes → Option ℕ) where
  -- A message of the grammar, and the content that its headers announce.
  pub record Carries (cs rest : Bytes) (r : Request) : Type 0 where
    pub message : Message
    pub body : Bytes
    pub good : IsMessage message
    pub splits : cs ≡ render message (body ++ rest)
    pub parts : basic r ≡ request_of message (basic cleared)
    pub holds : r.content ≡ body
    pub announces :
        content_length_of lexical_cast (map header_of message.lines) 0 ≡ some (length body)

  -- Whatever the coroutine accepts, entered anew and with any request object, is a message of the
  -- grammar that the first parser reads, then as many bytes as its headers announce, then the bytes
  -- that are left unread; the request holds the parts of the message, and those bytes as its content.
  pub parse-Carries :
      (cs rest : Bytes) (n n' : ℕ) (req r : Request) (p : Place)
      → parse lexical_cast start n req cs ≡ parsed Tribool.true rest p n' r
      → Carries cs rest r
  parse-Carries cs rest n n' req r p h =
      let w = parse-Framed lexical_cast rest start n req cs p n' r tt h in
      let a =
        parse-append w.head (w.body ++ rest) initial_state (basic cleared)
        ∙ ap (λ t. Parser.Chunks.resume t (w.body ++ rest)) w.accepts in
      let (m, good, e, q) =
        Sound.parse_sound _ (w.body ++ rest) (basic cleared) (basic r) _ refl a in
      record {
        message = m;
        body = w.body;
        good = good;
        splits = w.splits ∙ e;
        parts = q;
        holds = w.holds;
        announces =
            subst (λ t. content_length_of lexical_cast t 0 ≡ some (length w.body))
              (ap (λ t. t.headers) q) w.announces;
      }

  resume_content :
      (n : ℕ) (req : Request) (more : Bytes)
      → resume lexical_cast (and_then lexical_cast (at_content n req) []) more
        ≡ and_then lexical_cast (at_content n req) more
  unfolding parse
  resume_content n req more = ground arith

  -- A message of the grammar that is all ASCII and has a URI, and behind it as many bytes as its
  -- headers announce, are accepted, entered anew and with any request object; the coroutine stops
  -- right behind them, and the request holds the parts of the message and those bytes as its content.
  pub parse_carried :
      (m : Message) (body rest : Bytes) (n : ℕ) (req : Request)
      → IsMessage m
      → All (λ c. is_char c ≡ true) (render m [])
      → is_empty_text m.uri ≡ false
      → content_length_of lexical_cast (map header_of m.lines) 0 ≡ some (length body)
      → parse lexical_cast start n req (render m (body ++ rest))
        ≡ parsed Tribool.true rest done (length body) (request_with m body)
  parse_carried m body rest n req good ascii u l =
      let (q, e, none_read, w) =
        reaches lexical_cast (render m []) start n req [] _ _ (length body) tt ascii u l
          (parse-render m [] (basic cleared) good) in
      ap (parse lexical_cast start n req) (sym (render-append m [] (body ++ rest)))
      ∙ parse_pieces lexical_cast (render m []) (body ++ rest) start n req
      ∙ ap (λ t. resume lexical_cast t (body ++ rest)) w
      ∙ resume_content (length body) q (body ++ rest)
      ∙ content_ends lexical_cast body rest (length body) q (rw none_read refl)
      ∙ ap (parsed Tribool.true rest done (length body))
          (ap (λ t. with_body (basic q) (t ++ body)) none_read ∙ ap (λ r. with_body r body) e)
