-- ===== src/Http/Parser/Folds.antt =====
-- What an accepting run reads at the start of a line and on a continuation line.
use boost_learn.Common.{ℕ, ◌≡◌, ◌≢◌, ◌⊎◌, inl, inr, ap, false, [], ◌∷◌, ◌++◌, arith, Bytes, All}
use boost_learn.Http.Request.{Request}
use boost_learn.Http.Tribool.{Tribool}
use boost_learn.Http.Parser.{
  State, header_line_start, header_lws, header_name, header_value, expecting_newline_2,
  expecting_newline_3, next, consume, go, is_empty, is_blank,
}
use boost_learn.Http.Parser.Shapes
use boost_learn.Http.Parser.Inversion.{
  Accepts, Taken, moves, ends, taken, not-Accepts_nil, loop_splits, enters_splits,
}
use boost_learn.Http.Parser.Message.{IsToken, IsText, IsBlank, StartsUnblank, crlf}

-- The three ways to read a byte at the start of a line, and in the blanks of a continuation line.
pub line_start_goes :
    (req : Request) (c : ℕ) (s₂ : State) (req₂ : Request)
    → consume header_line_start req c ≡ go s₂ req₂
    → ((c ≡ b'\r') × (s₂ ≡ expecting_newline_3))
      ⊎ ((IsBlank c × (is_empty req.headers ≡ false) × (s₂ ≡ header_lws))
          ⊎ (IsToken c × (s₂ ≡ header_name)))
unfolding consume
line_start_goes req c s₂ req₂ h = ground arith

pub line_start_no_end :
    (req : Request) (c : ℕ) (s₂ : State) (req₂ : Request)
    → consume header_line_start req c ≢ next Tribool.true s₂ req₂
unfolding consume
line_start_no_end req c s₂ req₂ h = ground arith

pub blanks_goes :
    (req : Request) (c : ℕ) (s₂ : State) (req₂ : Request)
    → consume header_lws req c ≡ go s₂ req₂
    → ((c ≡ b'\r') × (s₂ ≡ expecting_newline_2))
      ⊎ ((IsBlank c × (s₂ ≡ header_lws)) ⊎ ((is_blank c ≡ false) × IsText c × (s₂ ≡ header_value)))
unfolding consume
blanks_goes req c s₂ req₂ h = ground arith

pub blanks_no_end :
    (req : Request) (c : ℕ) (s₂ : State) (req₂ : Request)
    → consume header_lws req c ≢ next Tribool.true s₂ req₂
unfolding consume
blanks_no_end req c s₂ req₂ h = ground arith

pub newline_end :
    (req : Request) (c : ℕ)
    → ((s₂ : State) (req₂ : Request) → consume expecting_newline_3 req c ≢ go s₂ req₂)
      × ((s₂ : State) (req₂ : Request)
          → consume expecting_newline_3 req c ≡ next Tribool.true s₂ req₂
          → c ≡ b'\n')
unfolding consume
newline_end req c = (λ s₂ req₂ h. ground arith, λ s₂ req₂ h. ground arith)

-- What is accepted behind the first blank of a continuation line.
pub record FoldRest (rest cs : Bytes) : Type 0 where
  pub blanks : Bytes
  pub text : Bytes
  pub tail : Bytes
  pub after : Request
  pub all_blank : All IsBlank blanks
  pub starts : StartsUnblank text
  pub all_text : All IsText text
  pub splits : cs ≡ blanks ++ (text ++ crlf tail)
  pub accepts : Accepts rest header_line_start after tail

module _ (rest : Bytes) where
  pub newline_sound :
      (req : Request) (cs : Bytes) → Accepts rest expecting_newline_3 req cs → cs ≡ b'\n' ∷ rest
  newline_sound req [] h = absurd (not-Accepts_nil rest _ req h)
  newline_sound req (c ∷ cs) h = elim (taken rest _ req c cs h) [
    | moves s₂ r₂ e a ↦ absurd ((newline_end req c).0 s₂ r₂ e)
    | ends s₂ r₂ e q ↦ rw ((newline_end req c).1 s₂ r₂ e, q)
  ]

  -- Behind the blanks: the end of the line, or the text.
  pub text_sound :
      (req : Request) (cs : Bytes)
      → Accepts rest expecting_newline_2 req cs
      → FoldRest rest (b'\r' ∷ cs)
  text_sound req cs h =
      let w = enters_splits false rest _ _ _ Shapes.expecting_newline_2_enters req cs h in
      record {
        blanks = [];
        text = [];
        tail = w.tail;
        after = w.after;
        all_blank = tt;
        starts = tt;
        all_text = tt;
        splits = cc (w.splits, w.is);
        accepts = w.accepts;
      }

  pub value_sound :
      (req : Request) (c : ℕ) (cs : Bytes)
      → is_blank c ≡ false
      → IsText c
      → Accepts rest header_value req cs
      → FoldRest rest (c ∷ cs)
  value_sound req c cs u t h =
      let v = loop_splits false rest _ _ _ _ Shapes.header_value_loop req cs h in
      let w =
        enters_splits false rest _ _ _ Shapes.expecting_newline_2_enters v.after v.tail v.accepts in
      record {
        blanks = [];
        text = c ∷ v.part;
        tail = w.tail;
        after = w.after;
        all_blank = tt;
        starts = u;
        all_text = (t, v.all_part);
        splits = cc (v.splits, w.splits, w.is);
        accepts = w.accepts;
      }

  pub blanks_sound :
      (req : Request) (cs : Bytes) → Accepts rest header_lws req cs → FoldRest rest cs
  blanks_sound req [] h = absurd (not-Accepts_nil rest _ req h)
  blanks_sound req (c ∷ cs) h = from (taken rest _ req c cs h) (λ r. blanks_sound r cs)
    where
      goes_on :
          (s₂ : State) (r₂ : Request)
          → ((c ≡ b'\r') × (s₂ ≡ expecting_newline_2))
            ⊎ ((IsBlank c × (s₂ ≡ header_lws))
                ⊎ ((is_blank c ≡ false) × IsText c × (s₂ ≡ header_value)))
          → Accepts rest s₂ r₂ cs
          → ((r : Request) → Accepts rest header_lws r cs → FoldRest rest cs)
          → FoldRest rest (c ∷ cs)
      goes_on s₂ r₂ (inl (p, q)) a ih = rw p (text_sound r₂ cs (rw q at a))
      goes_on s₂ r₂ (inr (inl (p, q))) a ih =
          let w = ih r₂ (rw q at a) in
          record {
            blanks = c ∷ w.blanks;
            text = w.text;
            tail = w.tail;
            after = w.after;
            all_blank = (p, w.all_blank);
            starts = w.starts;
            all_text = w.all_text;
            splits = ap (◌∷◌ c) w.splits;
            accepts = w.accepts;
          }
      goes_on s₂ r₂ (inr (inr (u, t, q))) a ih = value_sound r₂ c cs u t (rw q at a)

      from :
          Taken rest header_lws req c cs
          → ((r : Request) → Accepts rest header_lws r cs → FoldRest rest cs)
          → FoldRest rest (c ∷ cs)
      from (ends s₂ r₂ e q) ih = absurd (blanks_no_end req c s₂ r₂ e)
      from (moves s₂ r₂ e a) ih = goes_on s₂ r₂ (blanks_goes req c s₂ r₂ e) a ih
