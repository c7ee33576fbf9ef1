-- ===== src/Http/Parser/Lines.antt =====
-- What an accepting run reads from the start of a header line on is a list of lines.
use mathlib.Core.List.{cons-ne-nil}
use boost_learn.Common.{
  ℕ, zero, suc, ◌<◌, ◌≡◌, ◌⊎◌, inl, inr, refl, ap, true, false, List, [], ◌∷◌, ◌++◌, arith, Bytes,
  All, length, length-append,
}
use boost_learn.Http.Request.{Header, Request}
use boost_learn.Http.Parser.{
  State, header_line_start, header_lws, header_name, expecting_newline_3, is_empty,
}
use boost_learn.Http.Parser.Shapes
use boost_learn.Http.Parser.Inversion.{
  Accepts, Taken, moves, ends, taken, not-Accepts_nil, loop_splits, enters_splits,
}
use boost_learn.Http.Parser.Message.{
  Fold, Line, IsToken, IsText, IsBlank, IsFold, IsLine, crlf, render_folds, render_lines,
}
use boost_learn.Http.Parser.Folds.{
  line_start_goes, line_start_no_end, FoldRest, newline_sound, blanks_sound,
}

-- The lines accepted from the start of a line on: continuation lines of a header read before, if
-- there is one, then header lines.
pub record Lines (rest : Bytes) (hs : List Header) (cs : Bytes) : Type 0 where
  pub folds : List Fold
  pub lines : List Line
  pub all_folds : All IsFold folds
  pub all_lines : All IsLine lines
  pub orphan : is_empty hs ≡ true → folds ≡ []
  pub splits : cs ≡ render_folds folds (render_lines lines (crlf rest))

module _ (rest : Bytes) (hs : List Header) (c : ℕ) (cs : Bytes) where
  pub no_more-Lines : c ≡ b'\r' → cs ≡ b'\n' ∷ rest → Lines rest hs (c ∷ cs)
  no_more-Lines p e = record {
    folds = [];
    lines = [];
    all_folds = tt;
    all_lines = tt;
    orphan = λ _. refl;
    splits = cc (p, e);
  }

  pub fold-Lines :
      {gs : List Header}
      → IsBlank c
      → is_empty hs ≡ false
      → (f : FoldRest rest cs) → Lines rest gs f.tail
      → Lines rest hs (c ∷ cs)
  fold-Lines b e f ls = record {
    folds = record { blanks = c ∷ f.blanks; text = f.text } ∷ ls.folds;
    lines = ls.lines;
    all_folds = (
      record {
        some_blank = cons-ne-nil c f.blanks;
        all_blank = (b, f.all_blank);
        starts = f.starts;
        all_text = f.all_text;
      },
      ls.all_folds,
    );
    all_lines = ls.all_lines;
    orphan = λ h. cc;
    splits = cc (f.splits, ls.splits);
  }

-- What is accepted behind the first byte of a header line's name.
pub record LineRest (rest cs : Bytes) : Type 0 where
  pub name : Bytes
  pub value : Bytes
  pub tail : Bytes
  pub after : Request
  pub all_token : All IsToken name
  pub all_text : All IsText value
  pub splits : cs ≡ name ++ (b':' ∷ b' ' ∷ (value ++ crlf tail))
  pub accepts : Accepts rest header_line_start after tail

pub name_sound :
    (rest : Bytes) (req : Request) (cs : Bytes) → Accepts rest header_name req cs → LineRest rest cs
name_sound rest req cs h =
    let n = loop_splits false rest _ _ _ _ Shapes.header_name_loop req cs h in
    let b =
      enters_splits false rest _ _ _ Shapes.space_before_header_value_enters n.after n.tail
        n.accepts in
    let v = loop_splits false rest _ _ _ _ Shapes.header_value_loop b.after b.tail b.accepts in
    let w =
      enters_splits false rest _ _ _ Shapes.expecting_newline_2_enters v.after v.tail v.accepts in
    record {
      name = n.part;
      value = v.part;
      tail = w.tail;
      after = w.after;
      all_token = n.all_part;
      all_text = v.all_part;
      splits = cc (n.splits, b.splits, b.is, v.splits, w.splits, w.is);
      accepts = w.accepts;
    }

module _ (rest : Bytes) (hs : List Header) (c : ℕ) (cs : Bytes) where
  pub name-Lines :
      {gs : List Header}
      → IsToken c
      → (l : LineRest rest cs) → Lines rest gs l.tail
      → Lines rest hs (c ∷ cs)
  name-Lines t l ls = record {
    folds = [];
    lines = record { name = c ∷ l.name; value = l.value; folds = ls.folds } ∷ ls.lines;
    all_folds = tt;
    all_lines = (
      record {
        some_name = cons-ne-nil c l.name;
        all_token = (t, l.all_token);
        all_text = l.all_text;
        all_folds = ls.all_folds;
      },
      ls.all_lines,
    );
    orphan = λ _. refl;
    splits = cc (l.splits, ls.splits);
  }

pub length-fold_tail : (rest cs : Bytes) (f : FoldRest rest cs) → length f.tail < length cs
length-fold_tail rest cs f = omega (
  arith,
  ap length f.splits,
  length-append f.blanks (f.text ++ crlf f.tail),
  length-append f.text (crlf f.tail),
)

pub length-line_tail : (rest cs : Bytes) (l : LineRest rest cs) → length l.tail < length cs
length-line_tail rest cs l = omega (
  arith,
  ap length l.splits,
  length-append l.name (b':' ∷ b' ' ∷ (l.value ++ crlf l.tail)),
  length-append l.value (crlf l.tail),
)

pub Lines-sound :
    (n : ℕ) (rest : Bytes) (req : Request) (cs : Bytes)
    → length cs < n
    → Accepts rest header_line_start req cs
    → Lines rest req.headers cs
Lines-sound zero rest req cs lt h = absurd (omega arith)
Lines-sound (suc n) rest req [] lt h = absurd (not-Accepts_nil rest _ req h)
Lines-sound (suc n) rest req (c ∷ cs) lt h = from (taken rest _ req c cs h) (Lines-sound n rest)
  where
    goes_on :
        (s₂ : State) (r₂ : Request)
        → ((c ≡ b'\r') × (s₂ ≡ expecting_newline_3))
          ⊎ ((IsBlank c × (is_empty req.headers ≡ false) × (s₂ ≡ header_lws))
              ⊎ (IsToken c × (s₂ ≡ header_name)))
        → Accepts rest s₂ r₂ cs
        → ((r : Request) (ds : Bytes)
            → length ds < n
            → Accepts rest header_line_start r ds
            → Lines rest r.headers ds)
        → Lines rest req.headers (c ∷ cs)
    goes_on s₂ r₂ (inl (p, q)) a ih =
        no_more-Lines rest req.headers c cs p (newline_sound rest r₂ cs (rw q at a))
    goes_on s₂ r₂ (inr (inl (b, e, q))) a ih =
        let f = blanks_sound rest r₂ cs (rw q at a) in
        fold-Lines rest req.headers c cs b e f
          (ih f.after f.tail (omega (arith, length-fold_tail rest cs f)) f.accepts)
    goes_on s₂ r₂ (inr (inr (t, q))) a ih =
        let l = name_sound rest r₂ cs (rw q at a) in
        name-Lines rest req.headers c cs t l
          (ih l.after l.tail (omega (arith, length-line_tail rest cs l)) l.accepts)

    from :
        Taken rest header_line_start req c cs
        → ((r : Request) (ds : Bytes)
            → length ds < n
            → Accepts rest header_line_start r ds
            → Lines rest r.headers ds)
        → Lines rest req.headers (c ∷ cs)
    from (ends s₂ r₂ e q) ih = absurd (line_start_no_end req c s₂ r₂ e)
    from (moves s₂ r₂ e a) ih = goes_on s₂ r₂ (line_start_goes req c s₂ r₂ e) a ih
