-- ===== src/HttpCoro/Parser/Chunks.antt =====
-- The coroutine over a request that arrives in pieces, as the server calls it.
use boost_learn.Common.{ℕ, ◌≡◌, refl, Option, [], ◌∷◌, ◌++◌, Bytes}
use boost_learn.Http.Tribool.{Tribool, indeterminate}
use boost_learn.HttpCoro.Request.{Request}
use boost_learn.HttpCoro.Parser.{Place, Outcome, next, consume, Parsed, parsed, parse}

module _ (lexical_cast : Bytes → Option ℕ) where
  -- What a parse of more input makes of the result so far.
  abbrev pub resume : Parsed → Bytes → Parsed
  resume Parsed.fault more = Parsed.fault
  resume (parsed indeterminate rest p n req) more = parse lexical_cast p n req more
  resume (parsed decided rest p n req) more = parsed decided (rest ++ more) p n req

  resume_step :
      (c : ℕ) (xs ys : Bytes) (p : Place) (n : ℕ) (req : Request) (o : Outcome)
      → consume lexical_cast p n req c ≡ o
      → ((p' : Place) (n' : ℕ) (q : Request)
          → parse lexical_cast p' n' q (xs ++ ys) ≡ resume (parse lexical_cast p' n' q xs) ys)
      → parse lexical_cast p n req (c ∷ (xs ++ ys))
        ≡ resume (parse lexical_cast p n req (c ∷ xs)) ys
  unfolding parse
  resume_step c xs ys p n req Outcome.fault e ih = rw (e, parse)
  resume_step c xs ys p n req (next Tribool.true p' n' q) e ih = rw (e, parse)
  resume_step c xs ys p n req (next Tribool.false p' n' q) e ih = rw (e, parse)
  resume_step c xs ys p n req (next indeterminate p' n' q) e ih = rw (e, parse) (ih p' n' q)

  -- Parsing the input in two pieces, the second by the coroutine that the first one left and only if
  -- it decided nothing, gives what parsing it whole gives.
  pub parse_pieces :
      (xs ys : Bytes) (p : Place) (n : ℕ) (req : Request)
      → parse lexical_cast p n req (xs ++ ys) ≡ resume (parse lexical_cast p n req xs) ys
  unfolding parse
  parse_pieces [] ys p n req = refl
  parse_pieces (c ∷ xs) ys p n req =
      resume_step c xs ys p n req _ refl (λ p' n' q. parse_pieces xs ys p' n' q)
