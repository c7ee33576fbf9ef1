-- ===== src/Http/Parser/Safety.antt =====
-- No call of `headers.back()` meets an empty vector.
use boost_learn.Common.{ℕ, ◌≡◌, ◌≢◌, refl, some, List, [], ◌∷◌, arith, Bytes}
use boost_learn.Http.Request.{Header, Request}
use boost_learn.Http.Tribool.{Tribool, indeterminate}
use mathlib.Core.List.{concat-ne-nil}
use boost_learn.Http.Parser.{
  header_line_start, add_name, add_value, State, header_lws, header_name, space_before_header_value,
  header_value, expecting_newline_2, Outcome, next, modify_back, consume, Parsed, parsed, parse,
}

-- The states inside a header line, which were reached by pushing a header.
abbrev pub HasHeader : State → Request → Type 0
HasHeader header_lws req = req.headers ≢ []
HasHeader header_name req = req.headers ≢ []
HasHeader space_before_header_value req = req.headers ≢ []
HasHeader header_value req = req.headers ≢ []
HasHeader expecting_newline_2 req = req.headers ≢ []
HasHeader _ req = Unit

-- The call did not fault, and what it left is well formed again.
abbrev pub Keeps : Outcome → Type 0
Keeps Outcome.fault = ⊥
Keeps (next t s req) = HasHeader s req

modify_back-some :
    (f : Header → Header) (hs : List Header)
    → hs ≢ []
    → (h : Header) × (hs' : List Header) × (modify_back f hs ≡ some (h ∷ hs'))
unfolding modify_back
modify_back-some f [] ne = absurd (ne refl)
modify_back-some f (h ∷ []) ne = (f h, [], refl)
modify_back-some f (h ∷ i ∷ hs) ne =
    let (k, ks, e) = modify_back-some f (i ∷ hs) (cc) in (h, k ∷ ks, rw e)

pub consume-Keeps : (s : State) (req : Request) (c : ℕ) → HasHeader s req → Keeps (consume s req c)
unfolding consume
consume-Keeps header_line_start req c h = ground (
  arith,
  modify_back-some (add_name c) _ (concat-ne-nil (record { name = []; value = [] }) req.headers),
)
consume-Keeps header_lws req c h = ground (arith, modify_back-some (add_value c) req.headers h)
consume-Keeps header_name req c h = ground (arith, modify_back-some (add_name c) req.headers h)
consume-Keeps header_value req c h = ground (arith, modify_back-some (add_value c) req.headers h)
consume-Keeps s req c h = ground arith

abbrev pub KeepsAll : Parsed → Type 0
KeepsAll Parsed.fault = ⊥
KeepsAll (parsed t rest s req) = HasHeader s req

parse_step :
    (s : State) (req : Request) (c : ℕ) (cs : Bytes) (o : Outcome)
    → consume s req c ≡ o
    → Keeps o
    → ((s' : State) (r' : Request) → HasHeader s' r' → KeepsAll (parse s' r' cs))
    → KeepsAll (parse s req (c ∷ cs))
unfolding parse
parse_step s req c cs Outcome.fault e k ih = elim k [ ]
parse_step s req c cs (next Tribool.true s' r') e k ih = rw (e, parse) k
parse_step s req c cs (next Tribool.false s' r') e k ih = rw (e, parse) k
parse_step s req c cs (next indeterminate s' r') e k ih = rw (e, parse) (ih s' r' k)

-- From a state inside a header line with a header pushed, or any other state, `parse` never faults,
-- and leaves such a state.
pub parse-KeepsAll :
    (cs : Bytes) (s : State) (req : Request) → HasHeader s req → KeepsAll (parse s req cs)
unfolding parse
parse-KeepsAll [] s req h = h
parse-KeepsAll (c ∷ cs) s req h =
    parse_step s req c cs (consume s req c) refl (consume-Keeps s req c h) (parse-KeepsAll cs)
