-- ===== src/Http/Parser/Prefix.antt =====
-- A request that has not arrived whole.
use boost_learn.Common.{refl, ap, ◌≡◌, ◌≢◌, sym, ◌∙◌, [], ◌++◌, arith, Bytes}
use boost_learn.Http.Request.{Request}
use boost_learn.Http.Tribool.{Tribool, indeterminate}
use boost_learn.Http.Parser.{State, initial_state, Parsed, parsed, parse}
use boost_learn.Http.Parser.Accepts.{parse-render}
use boost_learn.Http.Parser.Chunks.{resume, parse-append}
use boost_learn.Http.Parser.Message.{Message, IsMessage, render}
use mathlib.Core.List.{append-ne-nil_of_right_ne-nil}

undecided :
    (p : Parsed) (ys : Bytes) {s : State} {r : Request}
    → ys ≢ []
    → resume p ys ≡ parsed Tribool.true [] s r
    → (rest : Bytes) × (s' : State) × (r' : Request) × (p ≡ parsed indeterminate rest s' r')
undecided Parsed.fault ys ne h = cc
undecided (parsed Tribool.true rest s' r') ys ne h =
    absurd (append-ne-nil_of_right_ne-nil rest ne (ground arith))
undecided (parsed Tribool.false rest s' r') ys ne h = cc
undecided (parsed indeterminate rest s' r') ys ne h = (rest, s', r', refl)

-- While a message of the grammar has not arrived whole, the parser neither accepts nor refuses what
-- has arrived.
pub parse_prefix :
    (m : Message) (xs ys : Bytes) (req : Request)
    → IsMessage m
    → render m [] ≡ xs ++ ys
    → ys ≢ []
    → (rest : Bytes) × (s : State) × (r : Request) × (parse initial_state req xs
        ≡ parsed indeterminate rest s r)
parse_prefix m xs ys req good e ne = undecided (parse initial_state req xs) ys ne (
    sym (parse-append xs ys initial_state req)
    ∙ ap (parse initial_state req) (sym e)
    ∙ parse-render m [] req good)
