-- ===== src/HttpCoro/Parser/Kept.antt =====
-- Behind the URI the first parser leaves the URI alone.
use mathlib.Core.Path.{subst}
use boost_learn.Common.{ℕ, ◌≡◌, refl, [], ◌∷◌, Bytes, arith}
use boost_learn.Http.Request.{Request}
use boost_learn.Http.Tribool.{Tribool, indeterminate}
use boost_learn.Http.Parser.{
  State, method_start, method, uri, Outcome, next, consume, Parsed, parsed, parse,
}

abbrev pub IsBehindUri : State → Type 0
IsBehindUri method_start = ⊥
IsBehindUri method = ⊥
IsBehindUri uri = ⊥
IsBehindUri s = Unit

abbrev KeepsUri : Bytes → Outcome → Type 0
KeepsUri u Outcome.fault = Unit
KeepsUri u (next t s r) = IsBehindUri s × (r.uri ≡ u)

consume-KeepsUri :
    (s : State) (req : Request) (c : ℕ) → IsBehindUri s → KeepsUri req.uri (consume s req c)
unfolding consume
consume-KeepsUri method_start req c h = elim h [ ]
consume-KeepsUri method req c h = elim h [ ]
consume-KeepsUri uri req c h = elim h [ ]
consume-KeepsUri s req c h = ground arith

abbrev LeavesUri : Bytes → Parsed → Type 0
LeavesUri u Parsed.fault = Unit
LeavesUri u (parsed t rest s r) = r.uri ≡ u

leaves_step :
    (s : State) (req : Request) (c : ℕ) (cs : Bytes) (o : Outcome)
    → consume s req c ≡ o
    → KeepsUri req.uri o
    → ((s' : State) (r' : Request) → IsBehindUri s' → LeavesUri r'.uri (parse s' r' cs))
    → LeavesUri req.uri (parse s req (c ∷ cs))
unfolding parse
leaves_step s req c cs Outcome.fault e k ih = rw (e, parse) tt
leaves_step s req c cs (next Tribool.true s' r') e k ih = rw (e, parse) k.1
leaves_step s req c cs (next Tribool.false s' r') e k ih = rw (e, parse) k.1
leaves_step s req c cs (next indeterminate s' r') e k ih =
    rw (e, parse) (subst (λ u. LeavesUri u (parse s' r' cs)) k.1 (ih s' r' k.0))

pub parse-LeavesUri :
    (cs : Bytes) (s : State) (req : Request) → IsBehindUri s → LeavesUri req.uri (parse s req cs)
unfolding parse
parse-LeavesUri [] s req h = refl
parse-LeavesUri (c ∷ cs) s req h =
    leaves_step s req c cs _ refl (consume-KeepsUri s req c h) (parse-LeavesUri cs)
