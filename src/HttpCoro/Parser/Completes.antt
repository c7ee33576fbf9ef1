-- ===== src/HttpCoro/Parser/Completes.antt =====
-- The coroutine accepts what the first parser accepts, with its content, where it asks no more.
use boost_learn.Common.{
  ℕ, ◌≡◌, refl, ap, ◌∙◌, true, false, Option, some, [], ◌∷◌, ◌++◌, append-nil, append_assoc, Bytes,
  arith, length, length-append, All,
}
use boost_learn.Http.Chars.{is_char, is_tspecial, is_digit}
use boost_learn.Http.Tribool.{Tribool, indeterminate}
use boost_learn.Http.Request.{Request as BasicRequest}
use boost_learn.Http.Parser
use boost_learn.Http.Parser.{State}
use boost_learn.HttpCoro.Request.{Request, basic}
use boost_learn.HttpCoro.Parser.{
  Place, start, method, uri, protocol_h, protocol_t_1, protocol_t_2, protocol_p, protocol_slash,
  major_start, major, minor_start, minor, newline_1, headers, lws, name, space_before_value, value,
  newline_2, last_newline, content, done, Outcome, next, consume, content_length_of, Parsed, parsed,
  parse, at_content, with_length, is_empty_text,
}
use boost_learn.HttpCoro.Parser.Kept.{parse-LeavesUri}
use boost_learn.HttpCoro.Parser.View.{state_of, request_at, IsReading}
use boost_learn.HttpCoro.Parser.Steps.{IsStep, consume-IsStep}
use boost_learn.HttpCoro.Parser.Refines.{with_content}

-- Where the coroutine asks more than the first parser: it refuses an empty URI, and a byte from 128
-- on in the value of a header.
abbrev IsStrict : Place → Request → ℕ → Type 0
IsStrict uri req c = c ≡ b' ' → is_empty_text req.uri ≡ false
IsStrict p req c = Unit

abbrev GoesOn : Outcome → Type 0
GoesOn Outcome.fault = ⊥
GoesOn (next indeterminate p n req) = Unit
GoesOn (next decided p n req) = ⊥

module _ (lexical_cast : Bytes → Option ℕ) where
  consume-GoesOn :
      (p : Place) (n : ℕ) (req : Request) (c : ℕ) (s : State) (r : BasicRequest)
      → IsReading p n req
      → is_char c ≡ true
      → IsStrict p req c
      → Parser.consume (state_of p) (request_at p req) c ≡ Parser.go s r
      → GoesOn (consume lexical_cast p n req c)
  unfolding consume Parser.consume is_tspecial is_digit
  consume-GoesOn start n req c s r i a k h = ground arith
  consume-GoesOn method n req c s r i a k h = ground arith
  consume-GoesOn uri n req c s r i a k h = ground arith
  consume-GoesOn protocol_h n req c s r i a k h = ground arith
  consume-GoesOn protocol_t_1 n req c s r i a k h = ground arith
  consume-GoesOn protocol_t_2 n req c s r i a k h = ground arith
  consume-GoesOn protocol_p n req c s r i a k h = ground arith
  consume-GoesOn protocol_slash n req c s r i a k h = ground arith
  consume-GoesOn major_start n req c s r i a k h = ground arith
  consume-GoesOn major n req c s r i a k h = ground arith
  consume-GoesOn minor_start n req c s r i a k h = ground arith
  consume-GoesOn minor n req c s r i a k h = ground arith
  consume-GoesOn newline_1 n req c s r i a k h = ground arith
  consume-GoesOn headers n req c s r i a k h = ground arith
  consume-GoesOn lws n req c s r i a k h = ground arith
  consume-GoesOn name n req c s r i a k h = ground arith
  consume-GoesOn space_before_value n req c s r i a k h = ground arith
  consume-GoesOn value n req c s r i a k h = ground arith
  consume-GoesOn newline_2 n req c s r i a k h = ground arith
  consume-GoesOn last_newline n req c s r i a k h = ground arith
  consume-GoesOn content n req c s r i a k h = elim i [ ]
  consume-GoesOn done n req c s r i a k h = elim i [ ]

  -- What a call leaves, and then the rest of the input.
  abbrev pub and_then : Outcome → Bytes → Parsed
  and_then Outcome.fault cs = Parsed.fault
  and_then (next indeterminate p n req) cs = parse lexical_cast p n req cs
  and_then (next decided p n req) cs = parsed decided cs p n req

  parse-and_then :
      (p : Place) (n : ℕ) (req : Request) (c : ℕ) (cs : Bytes) (o : Outcome)
      → consume lexical_cast p n req c ≡ o
      → parse lexical_cast p n req (c ∷ cs) ≡ and_then o cs
  unfolding parse
  parse-and_then p n req c cs Outcome.fault e = rw (e, parse)
  parse-and_then p n req c cs (next Tribool.true p' n' q) e = rw (e, parse)
  parse-and_then p n req c cs (next Tribool.false p' n' q) e = rw (e, parse)
  parse-and_then p n req c cs (next indeterminate p' n' q) e = rw (e, parse)

  abbrev Some : Bytes → Type 0
  Some [] = ⊥
  Some (c ∷ cs) = Unit

  goes_on :
      (body : Bytes) (n : ℕ) (req : Request)
      → length (req.content ++ body) ≡ n
      → Some body
      → at_content n req ≡ next indeterminate content n req
  goes_on [] n req e h = elim h [ ]
  goes_on (c ∷ body) n req e h = ground (arith, length-append req.content (c ∷ body))

  -- As many bytes as are missing end the loop of the content.
  pub content_ends :
      (body rest : Bytes) (n : ℕ) (req : Request)
      → length (req.content ++ body) ≡ n
      → and_then (at_content n req) (body ++ rest)
        ≡ parsed Tribool.true rest done n (with_content req body)
  content_ends [] rest n req e = rw append-nil (ground (arith, append-nil req.content))
  content_ends (c ∷ body) rest n req e =
      ap (λ o. and_then o (c ∷ (body ++ rest))) (goes_on (c ∷ body) n req e tt)
      ∙ parse-and_then content n req c (body ++ rest) (at_content n (with_content req (c ∷ [])))
          (unfold consume in refl)
      ∙ content_ends body rest n (with_content req (c ∷ [])) (rw append_assoc e)
      ∙ rw append_assoc refl

  -- The coroutine is where the headers end, with the request of the first parser.
  abbrev pub Reaches : Place → ℕ → Request → Bytes → Bytes → BasicRequest → ℕ → Type 0
  Reaches p n req cs rest r k =
      (q : Request) × (basic q ≡ r)
      × (q.content ≡ [])
      × (parse lexical_cast p n req cs ≡ and_then (at_content k q) rest)

  consume_ends :
      (p : Place) (n : ℕ) (req : Request) (c : ℕ) (s : State) (r : BasicRequest)
      → IsReading p n req
      → Parser.consume (state_of p) (request_at p req) c ≡ Parser.next Tribool.true s r
      → (basic req ≡ r)
        × (req.content ≡ [])
        × (consume lexical_cast p n req c
            ≡ with_length (content_length_of lexical_cast req.headers 0) n req)
  unfolding consume Parser.consume
  consume_ends start n req c s r i h = absurd (ground arith)
  consume_ends method n req c s r i h = absurd (ground arith)
  consume_ends uri n req c s r i h = absurd (ground arith)
  consume_ends headers n req c s r i h = absurd (ground arith)
  consume_ends lws n req c s r i h = absurd (ground arith)
  consume_ends name n req c s r i h = absurd (ground arith)
  consume_ends value n req c s r i h = absurd (ground arith)
  consume_ends last_newline n req c s r i h = ground arith
  consume_ends content n req c s r i h = elim i [ ]
  consume_ends done n req c s r i h = elim i [ ]
  consume_ends p n req c s r i h = absurd (ground arith)

  IsStrict-uri :
      (p : Place) (n : ℕ) (req : Request) (c : ℕ) (cs rest : Bytes) (s : State) (r : BasicRequest)
      → IsReading p n req
      → is_empty_text r.uri ≡ false
      → Parser.parse (state_of p) (request_at p req) (c ∷ cs) ≡ Parser.parsed Tribool.true rest s r
      → IsStrict p req c
  unfolding Parser.parse Parser.consume
  IsStrict-uri uri n req c cs rest s r i u h =
      λ e. let w = parse-LeavesUri cs Parser.http_version_h (basic req) tt in ground arith
  IsStrict-uri p n req c cs rest s r i u h = tt

  Reaches-by :
      (p : Place) (n : ℕ) (req : Request) (c : ℕ) (cs rest : Bytes) (s : State) (r : BasicRequest)
      (k : ℕ) (p' : Place) (n' : ℕ) (q : Request)
      → consume lexical_cast p n req c ≡ next indeterminate p' n' q
      → IsStep lexical_cast p req c (next indeterminate p' n' q)
      → (s₂ : State) (r₂ : BasicRequest)
      → Parser.consume (state_of p) (request_at p req) c ≡ Parser.go s₂ r₂
      → Parser.parse s₂ r₂ cs ≡ Parser.parsed Tribool.true rest s r
      → (IsReading p' n' q
          → Parser.parse (state_of p') (request_at p' q) cs ≡ Parser.parsed Tribool.true rest s r
          → Reaches p' n' q cs rest r k)
      → Reaches p n req (c ∷ cs) rest r k
  Reaches-by p n req c cs rest s r k start n' q e i s₂ r₂ g h ih = elim i [ ]
  Reaches-by p n req c cs rest s r k content n' q e i s₂ r₂ g h ih =
      let a = i.0.accepts in absurd (ground arith)
  Reaches-by p n req c cs rest s r k p' n' q e i s₂ r₂ g h ih =
      let a = i.goes in
      let (w, x, y, z) = ih i.reading (ground arith) in
      (w, x, y, parse-and_then p n req c cs _ e ∙ z)

  Reaches-on :
      (p : Place) (n : ℕ) (req : Request) (c : ℕ) (cs rest : Bytes) (s : State) (r : BasicRequest)
      (k : ℕ) (o : Outcome)
      → consume lexical_cast p n req c ≡ o
      → IsStep lexical_cast p req c o
      → GoesOn o
      → (s₂ : State) (r₂ : BasicRequest)
      → Parser.consume (state_of p) (request_at p req) c ≡ Parser.go s₂ r₂
      → Parser.parse s₂ r₂ cs ≡ Parser.parsed Tribool.true rest s r
      → ((p' : Place) (n' : ℕ) (q : Request)
          → IsReading p' n' q
          → Parser.parse (state_of p') (request_at p' q) cs ≡ Parser.parsed Tribool.true rest s r
          → Reaches p' n' q cs rest r k)
      → Reaches p n req (c ∷ cs) rest r k
  Reaches-on p n req c cs rest s r k Outcome.fault e i g s₂ r₂ a h ih = elim g [ ]
  Reaches-on p n req c cs rest s r k (next Tribool.true p' n' q) e i g s₂ r₂ a h ih = elim g [ ]
  Reaches-on p n req c cs rest s r k (next Tribool.false p' n' q) e i g s₂ r₂ a h ih = elim g [ ]
  Reaches-on p n req c cs rest s r k (next indeterminate p' n' q) e i g s₂ r₂ a h ih =
      Reaches-by p n req c cs rest s r k p' n' q e i s₂ r₂ a h (ih p' n' q)

  Reaches-ends :
      (p : Place) (n : ℕ) (req : Request) (c : ℕ) (cs rest : Bytes) (s s₂ : State)
      (r r₂ : BasicRequest) (k : ℕ)
      → IsReading p n req
      → content_length_of lexical_cast r.headers 0 ≡ some k
      → Parser.consume (state_of p) (request_at p req) c ≡ Parser.next Tribool.true s₂ r₂
      → cs ≡ rest
      → r₂ ≡ r
      → Reaches p n req (c ∷ cs) rest r k
  Reaches-ends p n req c cs rest s s₂ r r₂ k i l e f g =
      let (x, y, z) = consume_ends p n req c s₂ r₂ i e in
      let x' = x ∙ g in
      (
        req,
        x',
        y,
        parse-and_then p n req c cs _ z
            ∙ ap (λ o. and_then (with_length o n req) cs)
                (ap (λ t. content_length_of lexical_cast t.headers 0) x' ∙ l)
            ∙ ap (and_then (at_content k req)) f,
      )

  Reaches-taken :
      (p : Place) (n : ℕ) (req : Request) (c : ℕ) (cs rest : Bytes) (s : State) (r : BasicRequest)
      (k : ℕ) (o : Parser.Outcome)
      → Parser.consume (state_of p) (request_at p req) c ≡ o
      → IsReading p n req
      → is_char c ≡ true
      → is_empty_text r.uri ≡ false
      → content_length_of lexical_cast r.headers 0 ≡ some k
      → Parser.parse (state_of p) (request_at p req) (c ∷ cs) ≡ Parser.parsed Tribool.true rest s r
      → ((p' : Place) (n' : ℕ) (q : Request)
          → IsReading p' n' q
          → Parser.parse (state_of p') (request_at p' q) cs ≡ Parser.parsed Tribool.true rest s r
          → Reaches p' n' q cs rest r k)
      → Reaches p n req (c ∷ cs) rest r k
  unfolding Parser.parse
  Reaches-taken p n req c cs rest s r k Parser.Outcome.fault e i a u l h ih = absurd (ground arith)
  Reaches-taken p n req c cs rest s r k (Parser.next Tribool.false s₂ r₂) e i a u l h ih =
      absurd (ground arith)
  Reaches-taken p n req c cs rest s r k (Parser.next Tribool.true s₂ r₂) e i a u l h ih =
      Reaches-ends p n req c cs rest s s₂ r r₂ k i l e (ground arith) (ground arith)
  Reaches-taken p n req c cs rest s r k (Parser.next indeterminate s₂ r₂) e i a u l h ih =
      Reaches-on p n req c cs rest s r k _ refl (consume-IsStep lexical_cast p n req c i)
        (consume-GoesOn p n req c s₂ r₂ i a (IsStrict-uri p n req c cs rest s r i u h) e) s₂ r₂ e
        (rw (e, Parser.parse) at h) ih

  pub reaches :
      (cs : Bytes) (p : Place) (n : ℕ) (req : Request) (rest : Bytes) (s : State) (r : BasicRequest)
      (k : ℕ)
      → IsReading p n req
      → All (λ c. is_char c ≡ true) cs
      → is_empty_text r.uri ≡ false
      → content_length_of lexical_cast r.headers 0 ≡ some k
      → Parser.parse (state_of p) (request_at p req) cs ≡ Parser.parsed Tribool.true rest s r
      → Reaches p n req cs rest r k
  unfolding Parser.parse
  reaches [] p n req rest s r k i a u l h = absurd (ground arith)
  reaches (c ∷ cs) p n req rest s r k i (a, more) u l h =
      Reaches-taken p n req c cs rest s r k _ refl i a u l h
        (λ p' n' q j. reaches cs p' n' q rest s r k j more u l)
