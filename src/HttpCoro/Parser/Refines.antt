-- ===== src/HttpCoro/Parser/Refines.antt =====
-- What the coroutine accepts is what the first parser accepts, and its content behind it.
use boost_learn.Common.{
  ℕ, ◌<◌, ◌≡◌, refl, sym, ap, ◌∙◌, Bool, true, false, Option, some, [], ◌∷◌, ◌++◌, append-nil,
  append_assoc, Bytes, arith, ltb, length, length-append,
}
use boost_learn.Http.Tribool.{Tribool, indeterminate}
use boost_learn.Http.Parser
use boost_learn.Http.Parser.{expecting_newline_3}
use boost_learn.Http.Parser.Steps.{parse-go, parse_ends}
use boost_learn.HttpCoro.Request.{Request, basic}
use boost_learn.HttpCoro.Parser.{
  Place, start, content, Outcome, next, consume, content_length_of, parsed, parse,
}
use boost_learn.HttpCoro.Parser.View.{state_of, request_at, IsReading}
use boost_learn.HttpCoro.Parser.Steps.{IsStep, consume-IsStep, Ends}

-- The request with more content.
abbrev pub with_content : Request → Bytes → Request
with_content req body = record req { content = req.content ++ body }

module _ (lexical_cast : Bytes → Option ℕ) where
  -- What the loop of the content has read.
  pub record Filled (rest : Bytes) (n : ℕ) (req : Request) (cs : Bytes) (r : Request) : Type 0 where
    pub body : Bytes
    pub splits : cs ≡ body ++ rest
    pub is : r ≡ with_content req body
    pub full : length (req.content ++ body) ≡ n

  content_step :
      (rest : Bytes) (n : ℕ) (req : Request) (c : ℕ) (cs : Bytes) (p' : Place) (n' : ℕ)
      (r : Request)
      → length req.content < n
      → parse lexical_cast content n req (c ∷ cs) ≡ parsed Tribool.true rest p' n' r
      → ((q : Request)
          → length q.content < n
          → parse lexical_cast content n q cs ≡ parsed Tribool.true rest p' n' r
          → Filled rest n q cs r)
      → (b : Bool) → ltb (length (req.content ++ c ∷ [])) n ≡ b
      → Filled rest n req (c ∷ cs) r
  unfolding parse consume
  content_step rest n req c cs p' n' r l h ih true e =
      let w = ih (with_content req (c ∷ [])) (ground arith) (ground arith) in
      record {
        body = c ∷ w.body;
        splits = ap (λ t. c ∷ t) w.splits;
        is = w.is ∙ rw append_assoc;
        full = rw append_assoc at w.full;
      }
  content_step rest n req c cs p' n' r l h ih false e = record {
    body = c ∷ [];
    splits = ground arith;
    is = ground arith;
    full = ground (arith, length-append req.content (c ∷ []));
  }

  content_fills :
      (rest : Bytes) (n : ℕ) (req : Request) (cs : Bytes) (p' : Place) (n' : ℕ) (r : Request)
      → length req.content < n
      → parse lexical_cast content n req cs ≡ parsed Tribool.true rest p' n' r
      → Filled rest n req cs r
  unfolding parse
  content_fills rest n req [] p' n' r l h = ground arith
  content_fills rest n req (c ∷ cs) p' n' r l h =
      content_step rest n req c cs p' n' r l h (λ q. content_fills rest n q cs p' n' r) _ refl

  -- The parts of an accepted input: a message for the first parser, and the content.
  pub record Framed (rest : Bytes) (p : Place) (req : Request) (cs : Bytes) (r : Request)
      : Type 0 where
    pub head : Bytes
    pub body : Bytes
    pub splits : cs ≡ head ++ (body ++ rest)
    pub accepts :
        Parser.parse (state_of p) (request_at p req) head
        ≡ Parser.parsed Tribool.true [] expecting_newline_3 (basic r)
    pub announces : content_length_of lexical_cast r.headers 0 ≡ some (length body)
    pub holds : r.content ≡ body

  Ends-Framed :
      (rest : Bytes) (p : Place) (req : Request) (c : ℕ) (cs : Bytes) (n : ℕ) (after r : Request)
      → Ends lexical_cast p req c n after
      → Filled rest n after cs r
      → Framed rest p req (c ∷ cs) r
  Ends-Framed rest p req c cs n after r e w = record {
    head = c ∷ [];
    body = w.body;
    splits = ap (λ t. c ∷ t) w.splits;
    accepts = rw w.is (parse_ends _ _ c [] e.accepts);
    announces = rw w.is (e.announces ∙ ap some (sym (rw e.nothing_read at w.full)));
    holds = rw (w.is, e.nothing_read);
  }

  goes-Framed :
      (rest : Bytes) (p : Place) (req : Request) (c : ℕ) (cs : Bytes) (p' : Place) (n : ℕ)
      (after r : Request)
      → Parser.consume (state_of p) (request_at p req) c
        ≡ Parser.go (state_of p') (request_at p' after)
      → Framed rest p' after cs r
      → Framed rest p req (c ∷ cs) r
  goes-Framed rest p req c cs p' n after r e w = record {
    head = c ∷ w.head;
    body = w.body;
    splits = ap (λ t. c ∷ t) w.splits;
    accepts = parse-go _ _ c w.head e ∙ w.accepts;
    announces = w.announces;
    holds = w.holds;
  }

  none_left :
      (rest cs : Bytes) (q r : Request)
      → cs ≡ rest
      → q ≡ r
      → (n : ℕ) → q.content ≡ []
      → n ≡ 0
      → Filled rest n q cs r
  none_left rest cs q r e f n none_read z = record {
    body = [];
    splits = e;
    is = sym f ∙ rw append-nil;
    full = rw (append-nil, none_read, z);
  }

  Framed-by :
      (rest : Bytes) (p : Place) (n : ℕ) (req : Request) (c : ℕ) (cs : Bytes) (p' : Place) (n' : ℕ)
      (r : Request) (o : Outcome)
      → consume lexical_cast p n req c ≡ o
      → IsStep lexical_cast p req c o
      → parse lexical_cast p n req (c ∷ cs) ≡ parsed Tribool.true rest p' n' r
      → ((p₂ : Place) (n₂ : ℕ) (q : Request)
          → IsReading p₂ n₂ q
          → parse lexical_cast p₂ n₂ q cs ≡ parsed Tribool.true rest p' n' r
          → Framed rest p₂ q cs r)
      → Framed rest p req (c ∷ cs) r
  unfolding parse
  Framed-by rest p n req c cs p' n' r Outcome.fault e s h ih = absurd (ground arith)
  Framed-by rest p n req c cs p' n' r (next Tribool.false p₂ n₂ q) e s h ih = absurd (ground arith)
  Framed-by rest p n req c cs p' n' r (next Tribool.true p₂ n₂ q) e s h ih =
      Ends-Framed rest p req c cs n₂ q r s.0
        (none_left rest cs q r (ground arith) (ground arith) n₂ s.0.nothing_read s.1)
  Framed-by rest p n req c cs p' n' r (next indeterminate start n₂ q) e s h ih = elim s [ ]
  Framed-by rest p n req c cs p' n' r (next indeterminate content n₂ q) e s h ih =
      Ends-Framed rest p req c cs n₂ q r s.0
        (content_fills rest n₂ q cs p' n' r (rw s.0.nothing_read s.1) (rw (e, parse) at h))
  Framed-by rest p n req c cs p' n' r (next indeterminate p₂ n₂ q) e s h ih =
      goes-Framed rest p req c cs p₂ n₂ q r s.goes (ih p₂ n₂ q s.reading (rw (e, parse) at h))

  -- From a place of the request line or of the headers.
  pub parse-Framed :
      (rest : Bytes) (p : Place) (n : ℕ) (req : Request) (cs : Bytes) (p' : Place) (n' : ℕ)
      (r : Request)
      → IsReading p n req
      → parse lexical_cast p n req cs ≡ parsed Tribool.true rest p' n' r
      → Framed rest p req cs r
  unfolding parse
  parse-Framed rest p n req [] p' n' r i h = absurd (ground arith)
  parse-Framed rest p n req (c ∷ cs) p' n' r i h =
      Framed-by rest p n req c cs p' n' r _ refl (consume-IsStep lexical_cast p n req c i) h
        (λ p₂ n₂ q. parse-Framed rest p₂ n₂ q cs p' n' r)
