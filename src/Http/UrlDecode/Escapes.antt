-- ===== src/Http/UrlDecode/Escapes.antt =====
-- What the hexadecimal reader of `url_decode` takes, described without it.
use boost_learn.Common.{
  ℕ, ◌≤◌, ◌≡◌, ◌≢◌, some, arith, ◌==◌, Option-cases, Bool-cases, inl, inr, ◌+◌, ◌-◌, ◌*◌, ◌%◌, ◌<◌,
  ◌⊎◌, sym, refl, true, false, none, leb, ◌&&◌, is_space,
}
use mathlib.Core.Path.{subst}
use boost_learn.Http.UrlDecode.{hex_digit, unsigned_hex, two_digits, read_hex}

-- A hexadecimal digit and its value.
pub data IsHex : ℕ → ℕ → Type 0 where
  decimal_digit : {v : ℕ} → v < 10 → IsHex (b'0' + v) v
  lower : {v : ℕ} → v < 6 → IsHex (b'a' + v) (10 + v)
  upper : {v : ℕ} → v < 6 → IsHex (b'A' + v) (10 + v)

-- Two characters and the byte for which they stand: two digits, the high one first; a digit and a
-- character that is none, and is lost, unless the two are a prefix; white space or a sign and a digit.
pub data Escaped : ℕ → ℕ → ℕ → Type 0 where
  pair : {c d h l : ℕ} → IsHex c h → IsHex d l → Escaped c d (16 * h + l)
  half :
      {c d h : ℕ}
      → IsHex c h
      → ((l : ℕ) → ¬ IsHex d l)
      → (c ≢ b'0') ⊎ ((d ≢ b'x') × (d ≢ b'X'))
      → Escaped c d h
  skipped : {c d v : ℕ} → (is_space c ≡ true) ⊎ (c ≡ b'+') → IsHex d v → Escaped c d v
  minus : {d v : ℕ} → IsHex d v → Escaped b'-' d ((256 - v) % 256)

hex_digit-IsHex : {c v : ℕ} → IsHex c v → hex_digit c ≡ some v
unfolding hex_digit
hex_digit-IsHex (decimal_digit {v} h) = ground (arith, h)
hex_digit-IsHex (lower {v} h) = ground (arith, h)
hex_digit-IsHex (upper {v} h) = ground (arith, h)

in_range :
    (b n c v : ℕ) (o : ℕ)
    → b ≤ c
    → c < b + n
    → v ≡ o + (c - b)
    → ((w : ℕ) → w < n → IsHex (b + w) (o + w))
    → IsHex c v
in_range b n c v o l u e make =
    let at : b + (c - b) ≡ c = omega (arith, l) in
    subst (λ x. IsHex x v) at
      (subst (λ y. IsHex (b + (c - b)) y) (sym e) (make (c - b) (omega (arith, l, u))))

IsHex-hex_digit : (c v : ℕ) → hex_digit c ≡ some v → IsHex c v
unfolding hex_digit
IsHex-hex_digit c v e = elim (Bool-cases (leb b'0' c && leb c b'9')) [
  | inl p ↦
      in_range b'0' 10 c v 0 (ground (arith, p)) (ground (arith, p)) (ground (arith, e, p)) (λ w h.
        let same : w ≡ 0 + w = omega arith in
        subst (λ y. IsHex (b'0' + w) y) same (decimal_digit h))
  | inr p ↦ elim (Bool-cases (leb b'a' c && leb c b'f')) [
    | inl q ↦
        in_range b'a' 6 c v 10 (ground (arith, q)) (ground (arith, q)) (ground (arith, e, p, q))
          (λ w h. lower h)
    | inr q ↦ elim (Bool-cases (leb b'A' c && leb c b'F')) [
      | inl r ↦
          in_range b'A' 6 c v 10 (ground (arith, r)) (ground (arith, r))
            (ground (arith, e, p, q, r)) (λ w h. upper h)
      | inr r ↦ absurd (ground (arith, e, p, q, r))
    ]
  ]
]

hex_digit-none : (d : ℕ) → ((l : ℕ) → ¬ IsHex d l) → hex_digit d ≡ none
hex_digit-none d n = elim (Option-cases (hex_digit d)) [
  | inl e ↦ e
  | inr (l, e) ↦ absurd (n l (IsHex-hex_digit d l e))
]

no-IsHex : (d : ℕ) → hex_digit d ≡ none → (l : ℕ) → ¬ IsHex d l
no-IsHex d e l h = let f = hex_digit-IsHex h in cc

-- Neither white space nor a sign.
IsHex-plain : {c v : ℕ} → IsHex c v → (is_space c ≡ false) × (c ≢ b'+') × (c ≢ b'-')
unfolding is_space
IsHex-plain (decimal_digit h) = ground (arith, h)
IsHex-plain (lower h) = ground (arith, h)
IsHex-plain (upper h) = ground (arith, h)

-- Nor the letter of a prefix.
IsHex-no_prefix : {c v : ℕ} → IsHex c v → (c ≢ b'x') × (c ≢ b'X')
IsHex-no_prefix (decimal_digit h) = ground (arith, h)
IsHex-no_prefix (lower h) = ground (arith, h)
IsHex-no_prefix (upper h) = ground (arith, h)

read_hex-minus : (d v : ℕ) → hex_digit d ≡ some v → read_hex b'-' d ≡ some ((256 - v) % 256)
unfolding read_hex is_space
read_hex-minus d v e = rw e refl

pub read_hex-Escaped : {c d v : ℕ} → Escaped c d v → read_hex c d ≡ some v
unfolding read_hex two_digits
read_hex-Escaped (pair {c} {d} {h} {l} x y) =
    let (s, p, m) = IsHex-plain x in
    let (n, n') = IsHex-no_prefix y in
    ground (arith, s, p, m, n, n', hex_digit-IsHex x, hex_digit-IsHex y)
read_hex-Escaped (half {c} {d} {h} x n o) =
    let (s, p, m) = IsHex-plain x in
    ground (arith, s, p, m, o, hex_digit-IsHex x, hex_digit-none d n)
read_hex-Escaped (skipped {c} {d} {v} o x) = ground (arith, o, hex_digit-IsHex x)
read_hex-Escaped (minus {d} {v} x) = read_hex-minus d v (hex_digit-IsHex x)

-- Two characters, of which the first is a digit.
digit-Escaped : (c d h v : ℕ) → hex_digit c ≡ some h → unsigned_hex c d ≡ some v → Escaped c d v
unfolding two_digits
digit-Escaped c d h v x e = elim (Option-cases (hex_digit d)) [
  | inr (l, y) ↦
      let same : 16 * h + l ≡ v = ground (arith, e, x, y) in
      subst (Escaped c d) same (pair (IsHex-hex_digit c h x) (IsHex-hex_digit d l y))
  | inl y ↦
      let same : h ≡ v = ground (arith, e, x, y) in
      subst (Escaped c d) same (
        half (IsHex-hex_digit c h x) (no-IsHex d y) (elim (Bool-cases (c == b'0')) [
          | inr z ↦ inl (ground (arith, z))
          | inl z ↦ inr (ground (arith, z, e, x, y))
        ]))
]

unsigned-Escaped : (c d v : ℕ) → unsigned_hex c d ≡ some v → Escaped c d v
unsigned-Escaped c d v e = elim (Option-cases (hex_digit c)) [
  | inl x ↦ absurd (ground (arith, e, x))
  | inr (h, x) ↦ digit-Escaped c d h v x e
]

pub Escaped-read_hex : (c d v : ℕ) → read_hex c d ≡ some v → Escaped c d v
unfolding read_hex
Escaped-read_hex c d v e = elim (Bool-cases (is_space c)) [
  | inl s ↦ skipped (inl s) (IsHex-hex_digit d v (ground (arith, e, s)))
  | inr s ↦ elim (Bool-cases (c == b'+')) [
    | inl p ↦ skipped (inr (ground (arith, p))) (IsHex-hex_digit d v (ground (arith, e, s, p)))
    | inr p ↦ elim (Bool-cases (c == b'-')) [
      | inr m ↦ unsigned-Escaped c d v (ground (arith, e, s, p, m))
      | inl m ↦ elim (Option-cases (hex_digit d)) [
        | inl x ↦ absurd (ground (arith, e, s, p, m, x))
        | inr (w, x) ↦
            let at : b'-' ≡ c = ground (arith, m) in
            let same : (256 - w) % 256 ≡ v = ground (arith, e, s, p, m, x) in
            subst (λ k. Escaped k d v) at
              (subst (Escaped b'-' d) same (minus (IsHex-hex_digit d w x)))
      ]
    ]
  ]
]
