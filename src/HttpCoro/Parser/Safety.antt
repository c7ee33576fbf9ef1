-- ===== src/HttpCoro/Parser/Safety.antt =====
-- No call of the coroutine meets `back()` of an empty vector.
use mathlib.Core.Path.{subst}
use boost_learn.Common.{ℕ, ◌≡◌, ◌≢◌, refl, Option, [], ◌∷◌, ◌++◌, Bytes, arith}
use boost_learn.Http.Tribool.{Tribool, indeterminate}
use boost_learn.Http.Parser
use boost_learn.Http.Parser.Safety.{HasHeader, Keeps, consume-Keeps}
use boost_learn.HttpCoro.Request.{Request}
use boost_learn.HttpCoro.Parser.{Place, start, content, Outcome, next, consume, Parsed, parse}
use boost_learn.HttpCoro.Parser.View.{state_of, request_at, IsReading}
use boost_learn.HttpCoro.Parser.Steps.{IsStep, consume-IsStep}

module _ (lexical_cast : Bytes → Option ℕ) where
  content_safe :
      (cs : Bytes) (n : ℕ) (req : Request) → parse lexical_cast content n req cs ≢ Parsed.fault
  unfolding parse consume
  content_safe [] n req = ground arith
  content_safe (c ∷ cs) n req =
      ground (arith, content_safe cs n (record req { content = req.content ++ c ∷ [] }))

  -- The parser of the first server is well formed there, and so it does not fault either.
  abbrev IsSafe : Place → ℕ → Request → Type 0
  IsSafe p n req = IsReading p n req × HasHeader (state_of p) (request_at p req)

  safe_step :
      (p : Place) (n : ℕ) (req : Request) (c : ℕ) (cs : Bytes) (o : Outcome)
      → consume lexical_cast p n req c ≡ o
      → IsStep lexical_cast p req c o
      → Keeps (Parser.consume (state_of p) (request_at p req) c)
      → ((p' : Place) (n' : ℕ) (q : Request)
          → IsSafe p' n' q
          → parse lexical_cast p' n' q cs ≢ Parsed.fault)
      → parse lexical_cast p n req (c ∷ cs) ≢ Parsed.fault
  unfolding parse
  safe_step p n req c cs Outcome.fault e i k ih = absurd (subst Keeps i k)
  safe_step p n req c cs (next Tribool.true p' n' q) e i k ih = ground arith
  safe_step p n req c cs (next Tribool.false p' n' q) e i k ih = ground arith
  safe_step p n req c cs (next indeterminate start n' q) e i k ih = elim i [ ]
  safe_step p n req c cs (next indeterminate content n' q) e i k ih =
      rw (e, parse) (content_safe cs n' q)
  safe_step p n req c cs (next indeterminate p' n' q) e i k ih =
      rw (e, parse) (ih p' n' q (i.reading, subst Keeps i.goes k))

  safe_from :
      (cs : Bytes) (p : Place) (n : ℕ) (req : Request)
      → IsSafe p n req
      → parse lexical_cast p n req cs ≢ Parsed.fault
  unfolding parse
  safe_from [] p n req i = ground arith
  safe_from (c ∷ cs) p n req (i, h) =
      safe_step p n req c cs _ refl (consume-IsStep lexical_cast p n req c i)
        (consume-Keeps (state_of p) (request_at p req) c h) (safe_from cs)

  -- Entered anew, the coroutine never calls `back()` of an empty vector, whatever it reads.
  pub parse_safe :
      (cs : Bytes) (n : ℕ) (req : Request) → parse lexical_cast start n req cs ≢ Parsed.fault
  parse_safe cs n req = safe_from cs start n req (tt, tt)
