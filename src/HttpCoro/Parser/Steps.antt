-- ===== src/HttpCoro/Parser/Steps.antt =====
-- Each step of the coroutine over the request line and the headers is one of the first parser.
use boost_learn.Common.{ℕ, ◌<◌, ◌≡◌, Option, some, Bytes, arith, []}
use boost_learn.Http.Chars.{is_tspecial, is_digit}
use boost_learn.Http.Tribool.{Tribool, indeterminate}
use boost_learn.Http.Parser
use boost_learn.Http.Parser.{go, expecting_newline_3}
use boost_learn.HttpCoro.Request.{Request, basic}
use boost_learn.HttpCoro.Parser.{
  Place, start, method, uri, protocol_h, protocol_t_1, protocol_t_2, protocol_p, protocol_slash,
  major_start, major, minor_start, minor, newline_1, headers, lws, name, space_before_value, value,
  newline_2, last_newline, content, done, Outcome, next, consume, content_length_of,
}
use boost_learn.HttpCoro.Parser.View.{state_of, request_at, IsReading}

module _ (lexical_cast : Bytes → Option ℕ) where
  -- The headers are over: the first parser accepts, and the length of the content is known.
  pub record Ends (p : Place) (req : Request) (c n : ℕ) (after : Request) : Type 0 where
    pub accepts :
        Parser.consume (state_of p) (request_at p req) c
        ≡ Parser.next Tribool.true expecting_newline_3 (basic after)
    pub announces : content_length_of lexical_cast after.headers 0 ≡ some n
    pub nothing_read : after.content ≡ []

  -- The headers go on.
  pub record Goes (p : Place) (req : Request) (c : ℕ) (p' : Place) (n : ℕ) (after : Request)
      : Type 0 where
    pub goes : Parser.consume (state_of p) (request_at p req) c ≡ go (state_of p') (basic after)
    pub reading : IsReading p' n after

  abbrev pub IsStep : Place → Request → ℕ → Outcome → Type 0
  IsStep p req c Outcome.fault =
      Parser.consume (state_of p) (request_at p req) c ≡ Parser.Outcome.fault
  IsStep p req c (next Tribool.false p' n after) = Unit
  IsStep p req c (next Tribool.true p' n after) = Ends p req c n after × (n ≡ 0)
  IsStep p req c (next indeterminate content n after) = Ends p req c n after × (0 < n)
  IsStep p req c (next indeterminate start n after) = ⊥
  IsStep p req c (next indeterminate p' n after) = Goes p req c p' n after

  pub consume-IsStep :
      (p : Place) (n : ℕ) (req : Request) (c : ℕ)
      → IsReading p n req
      → IsStep p req c (consume lexical_cast p n req c)
  unfolding consume Parser.consume is_tspecial is_digit
  consume-IsStep start n req c h = ground arith
  consume-IsStep method n req c h = ground arith
  consume-IsStep uri n req c h = ground arith
  consume-IsStep protocol_h n req c h = ground arith
  consume-IsStep protocol_t_1 n req c h = ground arith
  consume-IsStep protocol_t_2 n req c h = ground arith
  consume-IsStep protocol_p n req c h = ground arith
  consume-IsStep protocol_slash n req c h = ground arith
  consume-IsStep major_start n req c h = ground arith
  consume-IsStep major n req c h = ground arith
  consume-IsStep minor_start n req c h = ground arith
  consume-IsStep minor n req c h = ground arith
  consume-IsStep newline_1 n req c h = ground arith
  consume-IsStep headers n req c h = ground arith
  consume-IsStep lws n req c h = ground arith
  consume-IsStep name n req c h = ground arith
  consume-IsStep space_before_value n req c h = ground arith
  consume-IsStep value n req c h = ground arith
  consume-IsStep newline_2 n req c h = ground arith
  consume-IsStep last_newline n req c h = ground arith
  consume-IsStep content n req c h = elim h [ ]
  consume-IsStep done n req c h = elim h [ ]
