-- ===== src/HttpCoro/Session/Answers.antt =====
-- What a child answers, from the bytes of its client to the reply.
use mathlib.Core.List.{map}
use boost_learn.Common.{
  ◌⊎◌, inl, inr, arith, ℕ, ◌≡◌, refl, sym, ap, ◌∙◌, false, true, Option, none, some, List, [], ◌∷◌,
  ◌++◌, Bytes, All, length,
}
use boost_learn.Http.Chars.{is_char}
use boost_learn.Http.Connection.Chunks.{joined}
use boost_learn.Http.Parser.Message.{Message, IsMessage, render, header_of}
use boost_learn.Http.Reply.{Reply, to_buffers, stock_reply, bad_request}
use boost_learn.Http.Tribool.{Tribool, indeterminate}
use boost_learn.HttpCoro.Request.{Request}
use boost_learn.HttpCoro.Parser.{
  Place, start, done, Parsed, parsed, parse, content_length_of, is_empty_text,
}
use boost_learn.HttpCoro.Parser.Chunks.{resume, parse_pieces}
use boost_learn.HttpCoro.Parser.Messages.{Carries, parse-Carries, request_with, parse_carried}
use boost_learn.HttpCoro.Session.{
  Session, reading, writing, Call, async_read_some, async_write, forked, on_parsed, resumes,
}

module _ (lexical_cast : ℕ → Bytes) (to_size : Bytes → Option ℕ)
    (request_handler : Request → Reply → Reply) (new_reply : Reply) where
  -- The next piece is handed over only if it was asked for.
  abbrev next_read :
      Option (Session × List Call)
      → (Session → Option (Session × List Call))
      → Option (Session × List Call)
  next_read none more = none
  next_read (some (s, async_read_some ∷ [])) more = more s
  next_read (some (s, calls)) more = some (s, calls)

  abbrev call : Bytes → Session → Option (Session × List Call)
  call = resumes lexical_cast to_size request_handler new_reply

  pub feed : Session → List Bytes → Option (Session × List Call)
  feed s [] = some (s, async_read_some ∷ [])
  feed s (b ∷ bs) = next_read (call b s) (λ s'. feed s' bs)

  abbrev on : Session → Parsed → Option (Session × List Call)
  on = on_parsed lexical_cast to_size request_handler new_reply

  same_session :
      (s : Session) (p : Place) (n : ℕ) (r : Request) (o : Parsed)
      → on s o ≡ on (record s { point = reading; parser = p; content_length = n; request = r }) o
  same_session s p n r Parsed.fault = refl
  same_session s p n r (parsed Tribool.true rest p' n' q) = refl
  same_session s p n r (parsed Tribool.false rest p' n' q) = refl
  same_session s p n r (parsed indeterminate rest p' n' q) = refl

  resumed :
      (s : Session) (p : Parsed) (more : Bytes)
      → next_read (on s p) (λ s'. call more s') ≡ on s (resume to_size p more)
  unfolding resumes
  resumed s Parsed.fault more = refl
  resumed s (parsed Tribool.true rest p n r) more = refl
  resumed s (parsed Tribool.false rest p n r) more = refl
  resumed s (parsed indeterminate rest p n r) more =
      sym (same_session s p n r (parse to_size p n r more))

  called :
      (b : Bytes) (s : Session)
      → s.point ≡ reading
      → call b s ≡ on s (parse to_size s.parser s.content_length s.request b)
  unfolding resumes
  called b s e = rw e refl

  read-append :
      (b more : Bytes) (s : Session)
      → s.point ≡ reading
      → next_read (call b s) (λ s'. call more s') ≡ call (b ++ more) s
  read-append b more s e =
      ap (λ o. next_read o (λ s'. call more s')) (called b s e)
      ∙ resumed s (parse to_size s.parser s.content_length s.request b) more
      ∙ ap (on s) (sym (parse_pieces to_size b more s.parser s.content_length s.request))
      ∙ sym (called (b ++ more) s e)

  read-nil : (s : Session) → s.point ≡ reading → some (s, async_read_some ∷ []) ≡ call [] s
  unfolding resumes parse
  read-nil s e = rw e refl

  next_same :
      (s : Session) (p : Parsed) (more : Bytes) (f : Session → Option (Session × List Call))
      → ((s' : Session) → s'.point ≡ reading → f s' ≡ call more s')
      → next_read (on s p) f ≡ next_read (on s p) (λ s'. call more s')
  next_same s Parsed.fault more f h = refl
  next_same s (parsed Tribool.true rest p n r) more f h = refl
  next_same s (parsed Tribool.false rest p n r) more f h = refl
  next_same s (parsed indeterminate rest p n r) more f h = h _ refl

  -- Called for one piece after the other, as long as it asks for more, a child that reads does what
  -- one call for the whole input does.
  pub feed_whole :
      (bs : List Bytes) (s : Session) → s.point ≡ reading → feed s bs ≡ call (joined bs) s
  unfolding feed
  feed_whole [] s e = read-nil s e
  feed_whole (b ∷ bs) s e =
      ap (λ o. next_read o (λ s'. feed s' bs)) (called b s e)
      ∙ next_same s (parse to_size s.parser s.content_length s.request b) (joined bs)
          (λ s'. feed s' bs) (feed_whole bs)
      ∙ ap (λ o. next_read o (λ s'. call (joined bs) s')) (sym (called b s e))
      ∙ read-append b (joined bs) s e

  -- A client that sends a message of the grammar, all ASCII and with a URI, and behind it the content
  -- that its headers announce, in any pieces and with any bytes behind that, is sent what the request
  -- handler makes of the request with that content, and nothing else.
  pub feed_carried :
      (m : Message) (body rest : Bytes) (bs : List Bytes) (n : ℕ) (req : Request) (rep : Reply)
      → IsMessage m
      → All (λ c. is_char c ≡ true) (render m [])
      → is_empty_text m.uri ≡ false
      → content_length_of to_size (map header_of m.lines) 0 ≡ some (length body)
      → joined bs ≡ render m (body ++ rest)
      → let r = request_handler (request_with m body) new_reply in
        feed (forked n req rep).0 bs
        ≡ some (
          record {
            point = writing;
            parser = done;
            content_length = length body;
            request = request_with m body;
            reply = r;
          },
          async_write (to_buffers r) ∷ [],
        )
  unfolding forked
  feed_carried m body rest bs n req rep good ascii u l e =
      let s = (forked n req rep).0 in
      feed_whole bs s refl
      ∙ called (joined bs) s refl
      ∙ ap (λ t. on s (parse to_size start n req t)) e
      ∙ ap (on s) (parse_carried to_size m body rest n req good ascii u l)

  -- A request that a child has handed to its handler, and what it was sent.
  pub record Handled (cs : Bytes) (bufs : List Bytes) : Type 0 where
    pub rest : Bytes
    pub request : Request
    pub carries : Carries to_size cs rest request
    pub sent : bufs ≡ to_buffers (request_handler request new_reply)

  answered_by :
      (s : Session) (cs : Bytes) (o : Parsed) (s' : Session) (bufs : List Bytes)
      → parse to_size start s.content_length s.request cs ≡ o
      → on s o ≡ some (s', async_write bufs ∷ [])
      → Handled cs bufs ⊎ (bufs ≡ to_buffers (stock_reply lexical_cast bad_request))
  answered_by s cs Parsed.fault s' bufs e h = absurd (ground arith)
  answered_by s cs (parsed indeterminate rest p n r) s' bufs e h = absurd (ground arith)
  answered_by s cs (parsed Tribool.false rest p n r) s' bufs e h = inr (ground arith)
  answered_by s cs (parsed Tribool.true rest p n r) s' bufs e h = inl (record {
    rest = rest;
    request = r;
    carries = parse-Carries to_size cs rest s.content_length n s.request r p e;
    sent = ground arith;
  })

  -- Whatever a client sends, in any pieces: if the child comes to write, then the client has sent a
  -- message of the grammar with the content that its headers announce, and is sent what the request
  -- handler makes of it, or is sent the page of a bad request.
  pub feed_answers :
      (bs : List Bytes) (n : ℕ) (req : Request) (rep : Reply) (s : Session) (bufs : List Bytes)
      → feed (forked n req rep).0 bs ≡ some (s, async_write bufs ∷ [])
      → Handled (joined bs) bufs ⊎ (bufs ≡ to_buffers (stock_reply lexical_cast bad_request))
  unfolding forked
  feed_answers bs n req rep s bufs h =
      let c = (forked n req rep).0 in
      answered_by c (joined bs) _ s bufs refl
        (sym (feed_whole bs c refl ∙ called (joined bs) c refl) ∙ h)
