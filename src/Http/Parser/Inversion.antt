-- ===== src/Http/Parser/Inversion.antt =====
-- An accepting run taken apart: what each state may have read.
use boost_learn.Common.{
  true, false, ◌∙◌, Bool, ℕ, ◌≡◌, ◌≢◌, ◌⊎◌, inl, inr, refl, ap, [], ◌∷◌, ◌++◌, arith, Bytes, All,
}
use boost_learn.Http.Request.{Request}
use boost_learn.Http.Tribool.{Tribool, indeterminate}
use boost_learn.Http.Parser.{State, Outcome, next, consume, parsed, parse, go}

-- Acceptance with `rest` unread, in some state and with some request.
abbrev pub Accepts : Bytes → State → Request → Bytes → Type 0
Accepts rest s req cs =
    (s' : State) × (r' : Request) × (parse s req cs ≡ parsed Tribool.true rest s' r')

-- The first byte of an accepted input moves the parser on, or ends the request.
pub data Taken (rest : Bytes) (s : State) (req : Request) (c : ℕ) (cs : Bytes) : Type 0 where
  moves :
      (s₂ : State) (req₂ : Request)
      → consume s req c ≡ go s₂ req₂
      → Accepts rest s₂ req₂ cs
      → Taken rest s req c cs
  ends :
      (s₂ : State) (req₂ : Request)
      → consume s req c ≡ next Tribool.true s₂ req₂
      → cs ≡ rest
      → Taken rest s req c cs

by_grammar :
    (rest : Bytes) (s : State) (req : Request) (c : ℕ) (cs : Bytes) (o : Outcome)
    → consume s req c ≡ o
    → Accepts rest s req (c ∷ cs)
    → Taken rest s req c cs
unfolding parse
by_grammar rest s req c cs Outcome.fault e (s', r', h) = ground arith
by_grammar rest s req c cs (next Tribool.false s₂ r₂) e (s', r', h) = ground arith
by_grammar rest s req c cs (next Tribool.true s₂ r₂) e (s', r', h) = ends s₂ r₂ e (ground arith)
by_grammar rest s req c cs (next indeterminate s₂ r₂) e (s', r', h) =
    moves s₂ r₂ e (s', r', ground arith)

pub taken :
    (rest : Bytes) (s : State) (req : Request) (c : ℕ) (cs : Bytes)
    → Accepts rest s req (c ∷ cs)
    → Taken rest s req c cs
taken rest s req c cs h = by_grammar rest s req c cs _ refl h

pub not-Accepts_nil : (rest : Bytes) (s : State) (req : Request) → ¬ Accepts rest s req []
unfolding parse
not-Accepts_nil rest s req (s', r', h) = ground arith

-- Whether the headers are the same in two requests, where that is asked for.
abbrev pub Same : Bool → Request → Request → Type 0
Same true a b = b.headers ≡ a.headers
Same false a b = Unit

Same-refl : (k : Bool) (a : Request) → Same k a a
Same-refl true a = refl
Same-refl false a = tt

pub Same-trans : (k : Bool) (a b c : Request) → Same k a b → Same k b c → Same k a c
Same-trans true a b c p q = q ∙ p
Same-trans false a b c p q = tt

-- A state `s` that reads bytes of `P`, each time going to `stay`, and goes to `t` at the byte `e`.
pub record Loop (k : Bool) (s t : State) (e : ℕ) (P : ℕ → Type 0) : Type 0 where
  pub goes :
      (req : Request) (c : ℕ) (s₂ : State) (req₂ : Request)
      → consume s req c ≡ go s₂ req₂
      → ((c ≡ e) × (s₂ ≡ t)) ⊎ (P c × (s₂ ≡ s))
  pub same :
      (req : Request) (c : ℕ) (s₂ : State) (req₂ : Request)
      → consume s req c ≡ go s₂ req₂
      → Same k req req₂
  pub no_end :
      (req : Request) (c : ℕ) (s₂ : State) (req₂ : Request)
      → consume s req c ≢ next Tribool.true s₂ req₂

-- What an accepted input is made of from such a state on.
pub record Split (k : Bool) (rest : Bytes) (t : State) (e : ℕ) (P : ℕ → Type 0) (req : Request)
    (cs : Bytes) : Type 0 where
  pub part : Bytes
  pub tail : Bytes
  pub after : Request
  pub all_part : All P part
  pub same : Same k req after
  pub splits : cs ≡ part ++ e ∷ tail
  pub accepts : Accepts rest t after tail

module _ (k : Bool) (rest : Bytes) (s t : State) (e : ℕ) (P : ℕ → Type 0) where
  Split-cons :
      (req : Request) (c : ℕ) (cs : Bytes) (s₂ : State) (r : Request)
      → Same k req r
      → Accepts rest s₂ r cs
      → ((c ≡ e) × (s₂ ≡ t)) ⊎ (P c × (s₂ ≡ s))
      → ((r : Request) → Accepts rest s r cs → Split k rest t e P r cs)
      → Split k rest t e P req (c ∷ cs)
  Split-cons req c cs s₂ r m a (inl (p, q)) ih = record {
    part = [];
    tail = cs;
    after = r;
    all_part = tt;
    same = m;
    splits = ap (λ x. x ∷ cs) p;
    accepts = rw q at a;
  }
  Split-cons req c cs s₂ r m a (inr (p, q)) ih =
      let w = ih r (rw q at a) in
      record {
        part = c ∷ w.part;
        tail = w.tail;
        after = w.after;
        all_part = (p, w.all_part);
        same = Same-trans k req r w.after m w.same;
        splits = ap (◌∷◌ c) w.splits;
        accepts = w.accepts;
      }

  Split-Taken :
      Loop k s t e P
      → (req : Request) (c : ℕ) (cs : Bytes) → Taken rest s req c cs
      → ((r : Request) → Accepts rest s r cs → Split k rest t e P r cs)
      → Split k rest t e P req (c ∷ cs)
  Split-Taken l req c cs (ends s₂ r₂ h q) ih = absurd (l.no_end req c s₂ r₂ h)
  Split-Taken l req c cs (moves s₂ r₂ h a) ih =
      Split-cons req c cs s₂ r₂ (l.same req c s₂ r₂ h) a (l.goes req c s₂ r₂ h) ih

  pub loop_splits :
      Loop k s t e P
      → (req : Request) (cs : Bytes) → Accepts rest s req cs
      → Split k rest t e P req cs
  loop_splits l req [] h = absurd (not-Accepts_nil rest s req h)
  loop_splits l req (c ∷ cs) h =
      Split-Taken l req c cs (taken rest s req c cs h) (λ r. loop_splits l r cs)

-- A state that only a byte of `P` leaves, for `stay`.
pub record Enters (k : Bool) (s stay : State) (P : ℕ → Type 0) : Type 0 where
  pub goes :
      (req : Request) (c : ℕ) (s₂ : State) (req₂ : Request)
      → consume s req c ≡ go s₂ req₂
      → P c × (s₂ ≡ stay)
  pub same :
      (req : Request) (c : ℕ) (s₂ : State) (req₂ : Request)
      → consume s req c ≡ go s₂ req₂
      → Same k req req₂
  pub no_end :
      (req : Request) (c : ℕ) (s₂ : State) (req₂ : Request)
      → consume s req c ≢ next Tribool.true s₂ req₂

-- What it read, and the rest of the input.
pub record Entered (k : Bool) (rest : Bytes) (stay : State) (P : ℕ → Type 0) (req : Request)
    (cs : Bytes) : Type 0 where
  pub byte : ℕ
  pub tail : Bytes
  pub after : Request
  pub is : P byte
  pub same : Same k req after
  pub splits : cs ≡ byte ∷ tail
  pub accepts : Accepts rest stay after tail

module _ (k : Bool) (rest : Bytes) (s stay : State) (P : ℕ → Type 0) (l : Enters k s stay P) where
  Entered-Taken :
      (req : Request) (c : ℕ) (cs : Bytes)
      → Taken rest s req c cs
      → Entered k rest stay P req (c ∷ cs)
  Entered-Taken req c cs (ends s₂ r₂ e q) = absurd (l.no_end req c s₂ r₂ e)
  Entered-Taken req c cs (moves s₂ r₂ e a) =
      let (p, q) = l.goes req c s₂ r₂ e in
      record {
        byte = c;
        tail = cs;
        after = r₂;
        is = p;
        same = l.same req c s₂ r₂ e;
        splits = refl;
        accepts = rw q at a;
      }

  pub enters_splits :
      (req : Request) (cs : Bytes) → Accepts rest s req cs → Entered k rest stay P req cs
  enters_splits req [] h = absurd (not-Accepts_nil rest s req h)
  enters_splits req (c ∷ cs) h = Entered-Taken req c cs (taken rest s req c cs h)
