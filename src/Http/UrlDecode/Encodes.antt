-- ===== src/Http/UrlDecode/Encodes.antt =====
-- `url_decode` against a description of the encoded texts and their meanings.
use boost_learn.Common.{
  ◌↔◌, ℕ, ◌≤◌, ◌≡◌, ◌≢◌, ◌∙◌, some, [], ◌∷◌, ◌++◌, append_assoc, append-nil, arith, ◌==◌, Bytes,
  length, Option-cases, Bool-cases, inl, inr,
}
use boost_learn.Http.UrlDecode.{read_hex, hex_pair, decode, url_decode}
use boost_learn.Http.UrlDecode.Escapes.{Escaped, read_hex-Escaped, Escaped-read_hex}

-- `w` is an encoding of `s`.
pub data Encodes : Bytes → Bytes → Type 0 where
  done : Encodes [] []
  literal : {w s : Bytes} {c : ℕ} → c ≢ b'%' → c ≢ b'+' → Encodes w s → Encodes (c ∷ w) (c ∷ s)
  plus : {w s : Bytes} → Encodes w s → Encodes (b'+' ∷ w) (b' ' ∷ s)
  escape :
      {w s : Bytes} {c d v : ℕ} → Escaped c d v → Encodes w s → Encodes (b'%' ∷ c ∷ d ∷ w) (v ∷ s)

decode_complete : {w s : Bytes} (out : Bytes) → Encodes w s → decode w 0 out ≡ some (out ++ s)
unfolding decode hex_pair
decode_complete out done = rw append-nil
decode_complete out (literal {w} {s} {c} n m e) =
    ground (arith, decode_complete (out ++ c ∷ []) e, append_assoc out (c ∷ []) s)
decode_complete out (plus {w} {s} e) =
    ground (arith, decode_complete (out ++ b' ' ∷ []) e, append_assoc out (b' ' ∷ []) s)
decode_complete out (escape {w} {s} {c} {d} {v} h e) =
    ground
      (arith, read_hex-Escaped h, decode_complete (out ++ v ∷ []) e, append_assoc out (v ∷ []) s)

-- What a decoded input is an encoding of, behind the text `out` decoded before.
abbrev Decoded : Bytes → Bytes → Bytes → Type 0
Decoded w out r = (s : Bytes) × Encodes w s × (r ≡ out ++ s)

abbrev Sound : Bytes → Bytes → Type 0
Sound w r = (out : Bytes) → decode w 0 out ≡ some r → Decoded w out r

module _ (c : ℕ) (w r out : Bytes) (h : decode (c ∷ w) 0 out ≡ some r) where
  plain-Sound : c ≢ b'%' → Sound w r → Decoded (c ∷ w) out r
  unfolding decode
  plain-Sound n ih = elim (Bool-cases (c == b'+')) [
    | inl p ↦
        let (s, e, q) = ih (out ++ b' ' ∷ []) (ground arith) in
        let is_plus : c ≡ b'+' = ground arith in
        (b' ' ∷ s, rw is_plus (plus e), q ∙ append_assoc out (b' ' ∷ []) s)
    | inr p ↦
        let (s, e, q) = ih (out ++ c ∷ []) (ground arith) in
        (c ∷ s, literal n (ground arith) e, q ∙ append_assoc out (c ∷ []) s)
  ]

module _ (c d e : ℕ) (w r out : Bytes) (h : decode (c ∷ d ∷ e ∷ w) 0 out ≡ some r) where
  escape-Sound : c ≡ b'%' → Sound w r → Decoded (c ∷ d ∷ e ∷ w) out r
  unfolding decode hex_pair
  escape-Sound p ih = elim (Option-cases (read_hex d e)) [
    | inl x ↦ absurd (ground arith)
    | inr (v, x) ↦
        let (s, y, q) = ih (out ++ v ∷ []) (ground arith) in
        (v ∷ s, rw p (escape (Escaped-read_hex d e v x) y), q ∙ append_assoc out (v ∷ []) s)
  ]

decode-Sound : (w r : Bytes) → Sound w r
unfolding decode hex_pair
decode-Sound [] r out h = ([], done, ground (arith, append-nil out))
decode-Sound (c ∷ []) r out h = elim (Bool-cases (c == b'%')) [
  | inl p ↦ absurd (ground arith)
  | inr p ↦ plain-Sound c [] r out h (ground arith) (decode-Sound [] r)
]
decode-Sound (c ∷ d ∷ []) r out h = elim (Bool-cases (c == b'%')) [
  | inl p ↦ absurd (ground arith)
  | inr p ↦ plain-Sound c (d ∷ []) r out h (ground arith) (decode-Sound (d ∷ []) r)
]
decode-Sound (c ∷ d ∷ e ∷ w) r out h = elim (Bool-cases (c == b'%')) [
  | inl p ↦ escape-Sound c d e w r out h (ground arith) (decode-Sound w r)
  | inr p ↦ plain-Sound c (d ∷ e ∷ w) r out h (ground arith) (decode-Sound (d ∷ e ∷ w) r)
]

-- A text is decoded to `s` exactly when it is an encoding of `s`: `%` with two hexadecimal digits, or
-- with white space or a sign and a digit, or with a digit and a character that is none, which is lost;
-- `+` for a space; or the character itself.
pub url_decode_iff : (w s : Bytes) → (url_decode w ≡ some s) ↔ Encodes w s
unfolding url_decode
url_decode_iff w s =
    (λ h. let (s', e, q) = decode-Sound w s [] h in rw q e, λ e. decode_complete [] e)

length-Encodes : {w s : Bytes} → Encodes w s → length s ≤ length w
length-Encodes done = omega arith
length-Encodes (literal n m e) = omega (arith, length-Encodes e)
length-Encodes (plus e) = omega (arith, length-Encodes e)
length-Encodes (escape h e) = omega (arith, length-Encodes e)

-- The decoded text is never longer than the input, which is what `reserve` asks room for.
pub length-url_decode : (w s : Bytes) → url_decode w ≡ some s → length s ≤ length w
length-url_decode w s h = length-Encodes ((url_decode_iff w s).0 h)
