-- ===== src/HttpClient/Lines.antt =====
-- The header lines of a reply, as the client cuts and prints them.
use boost_learn.Common.{
  All-append, ℕ, ◌≡◌, ◌≢◌, ◌⊎◌, inl, inr, refl, sym, ap, ◌∙◌, true, false, List, [], ◌∷◌, ◌++◌,
  append-nil, append_assoc, arith, Bytes, All, Lacks, equal,
}
use boost_learn.Http.Request.{Header}
use boost_learn.Http.Reply.{crlf, name_value_separator}
use boost_learn.Http.Reply.Framing.{
  IsClean, lines, header_text, lines-cons, header_text-ne-nil, header_text-Lacks,
}
use boost_learn.HttpClient.{header_lines}
use boost_learn.HttpClient.Cuts.{starts_with, contains, blank_line, Cut, Cut-line}

-- A header that stands in one line.
abbrev pub IsLine : Header → Type 0
IsLine h = IsClean h × Lacks b'\n' (header_text h)

-- A text lacks a newline where its two parts do.
pub header_text_newline :
    (h : Header) → Lacks b'\n' h.name → Lacks b'\n' h.value → Lacks b'\n' (header_text h)
unfolding header_text
header_text_newline h n v = All-append _ h.name (name_value_separator ++ h.value) n (cc, (cc, v))

not_newline :
    (line : Bytes) (c : ℕ) (rest : Bytes)
    → c ≢ b'\n'
    → header_lines line (c ∷ rest) ≡ header_lines (line ++ c ∷ []) rest
unfolding header_lines
not_newline line c rest n = ground arith

header_lines-text :
    (t line rest : Bytes)
    → Lacks b'\n' t
    → header_lines line (t ++ rest) ≡ header_lines (line ++ t) rest
header_lines-text [] line rest h = rw append-nil refl
header_lines-text (c ∷ t) line rest (n, h) =
    not_newline line c (t ++ rest) n
    ∙ header_lines-text t (line ++ c ∷ []) rest h
    ∙ rw append_assoc refl

equal_return : (line : Bytes) → line ≢ [] → equal (line ++ b'\r' ∷ []) (b'\r' ∷ []) ≡ false
unfolding equal
equal_return [] n = absurd (n refl)
equal_return (c ∷ []) n = ground arith
equal_return (c ∷ d ∷ line) n = ground arith

header_lines-end :
    (line rest : Bytes)
    → line ≢ []
    → header_lines line (crlf ++ rest)
      ≡ (line ++ (crlf ++ (header_lines [] rest).0), (header_lines [] rest).1)
unfolding header_lines
header_lines-end line rest n = rw (equal_return line n, append_assoc) refl

header_lines-blank : (rest : Bytes) → header_lines [] (crlf ++ rest) ≡ ([], rest)
unfolding header_lines equal
header_lines-blank rest = refl

-- Every line is printed, and the bytes behind the empty line are left.
pub header_lines-lines :
    (hs : List Header) (rest : Bytes)
    → All IsLine hs
    → header_lines [] (lines hs (crlf ++ rest)) ≡ (lines hs [], rest)
header_lines-lines [] rest h = unfold lines in header_lines-blank rest
header_lines-lines (x ∷ hs) rest (h, more) =
    ap (header_lines []) (lines-cons x hs (crlf ++ rest))
    ∙ header_lines-text (header_text x) [] _ h.1
    ∙ header_lines-end (header_text x) _ (header_text-ne-nil x)
    ∙ ap (λ (t : Bytes × Bytes). (header_text x ++ (crlf ++ t.0), t.1))
        (header_lines-lines hs rest more)
    ∙ ap (λ t. (t, rest)) (sym (lines-cons x hs []))

pub lines-append :
    (hs : List Header) (rest more : Bytes) → lines hs rest ++ more ≡ lines hs (rest ++ more)
unfolding lines
lines-append [] rest more = refl
lines-append (x ∷ hs) rest more = simp (append_assoc, lines-append hs rest more)

pub shown-append :
    (hs : List Header) (y rest : Bytes)
    → (lines hs [] ++ (b'\n' ∷ y)) ++ rest ≡ lines hs (b'\n' ∷ (y ++ rest))
shown-append hs y rest =
    ap (λ t. t ++ rest) (lines-append hs [] (b'\n' ∷ y)) ∙ lines-append hs (b'\n' ∷ y) rest

not-starts_with :
    (t a r x : Bytes) → t ≢ [] → Lacks b'\r' t → a ++ r ≡ t ++ x → starts_with crlf a ≢ true
unfolding starts_with
not-starts_with [] a r x n h e = absurd (n refl)
not-starts_with (c ∷ t) [] r x n h e = ground arith
not-starts_with (c ∷ t) (d ∷ a) r x n h e = ground arith

blank-Cut :
    (a r x : Bytes)
    → (starts_with crlf a ≡ true) ⊎ (contains blank_line a ≡ true)
    → a ++ r ≡ crlf ++ x
    → (y : Bytes) × Cut [] a r x y
unfolding starts_with contains
blank-Cut [] r x w e = absurd (ground arith)
blank-Cut (c ∷ []) r x w e = absurd (ground arith)
blank-Cut (c ∷ d ∷ a) r x w e = (a, ground arith)

-- What has come of a reply when its blank line has.
pub headers_cut :
    (hs : List Header) (a r x : Bytes)
    → All IsLine hs
    → (starts_with crlf a ≡ true) ⊎ (contains blank_line a ≡ true)
    → a ++ r ≡ lines hs (crlf ++ x)
    → (y : Bytes) × (a ≡ lines hs (crlf ++ y)) × (x ≡ y ++ r)
unfolding lines
headers_cut [] a r x h w e = let (y, (p, q)) = blank-Cut a r x w e in (y, p, q)
headers_cut (k ∷ hs) a r x (h, more) (inl w) e = absurd (
    not-starts_with (header_text k) a r _ (header_text-ne-nil k) (header_text-Lacks k h.0)
      (e ∙ lines-cons k hs (crlf ++ x)) w)
headers_cut (k ∷ hs) a r x (h, more) (inr w) e =
    let (y, (p, q), v) =
      Cut-line (header_text k) a r (lines hs (crlf ++ x)) (header_text-Lacks k h.0) w
        (e ∙ lines-cons k hs (crlf ++ x)) in
    let (z, s, t) = headers_cut hs y r x more v (sym q) in
    (z, p ∙ ap (λ t. header_text k ++ (crlf ++ t)) s ∙ sym (lines-cons k hs (crlf ++ z)), t)
