-- ===== src/Http/Parser/Chunks.antt =====
-- `parse` over a request that arrives in pieces, as `connection::handle_read` calls it.
use boost_learn.Common.{◌≡◌, refl, [], ◌∷◌, ◌++◌, Bytes}
use boost_learn.Http.Request.{Request}
use boost_learn.Http.Tribool.{Tribool, indeterminate}
use boost_learn.Http.Parser.{State, Outcome, next, consume, Parsed, parsed, parse}

-- What a parse of more input makes of the result so far.
abbrev pub resume : Parsed → Bytes → Parsed
resume Parsed.fault more = Parsed.fault
resume (parsed Tribool.true rest s req) more = parsed Tribool.true (rest ++ more) s req
resume (parsed Tribool.false rest s req) more = parsed Tribool.false (rest ++ more) s req
resume (parsed indeterminate rest s req) more = parse s req more

resume_step :
    (x : _) (xs ys : Bytes) (s : State) (req : Request) (o : Outcome)
    → consume s req x ≡ o
    → ((s' : State) (r' : Request) → parse s' r' (xs ++ ys) ≡ resume (parse s' r' xs) ys)
    → parse s req (x ∷ (xs ++ ys)) ≡ resume (parse s req (x ∷ xs)) ys
unfolding parse
resume_step x xs ys s req Outcome.fault e ih = rw (e, parse)
resume_step x xs ys s req (next Tribool.true s' r') e ih = rw (e, parse)
resume_step x xs ys s req (next Tribool.false s' r') e ih = rw (e, parse)
resume_step x xs ys s req (next indeterminate s' r') e ih = rw (e, parse) (ih s' r')

-- Parsing the input in two pieces, the second with the state and the request that the first one
-- left, and only if the first one decided nothing, gives what parsing it whole gives.
pub parse-append :
    (xs ys : Bytes) (s : State) (req : Request)
    → parse s req (xs ++ ys) ≡ resume (parse s req xs) ys
unfolding parse
parse-append [] ys s req = refl
parse-append (x ∷ xs) ys s req =
    resume_step x xs ys s req (consume s req x) refl (parse-append xs ys)
