-- ===== src/Http/RequestHandler/Confined.antt =====
-- Which files a request can reach.
use boost_learn.Common.{
  ◌≢◌, ℕ, ◌≡◌, refl, ap, true, false, Option, [], ◌∷◌, ◌++◌, arith, Bytes, codes, ◌==◌, Bool-cases,
  Option-cases, inl, inr,
}
use boost_learn.Http.Reply.{Reply}
use boost_learn.Http.Request.{Request}
use boost_learn.Http.UrlDecode.{url_decode}
use boost_learn.Http.RequestHandler.{
  has_dots, refused_path, last, with_index, c_str, handle_request,
}

-- No ".." anywhere in the text.
abbrev pub NoDots : Bytes → Type 0
NoDots p = (a b : Bytes) → p ≢ a ++ (b'.' ∷ b'.' ∷ b)

-- A file name that is the document root with an absolute path without ".." behind it.
pub record Confined (doc_root name : Bytes) : Type 0 where
  pub below : Bytes
  pub is_name : name ≡ c_str (doc_root ++ b'/' ∷ below)
  pub no_dots : NoDots (b'/' ∷ below)

has_dots-append : (a b : Bytes) → has_dots (a ++ (b'.' ∷ b'.' ∷ b)) ≡ true
unfolding has_dots
has_dots-append [] b = refl
has_dots-append (x ∷ []) b = ground (arith, has_dots-append [] b)
has_dots-append (x ∷ y ∷ a) b = ground (arith, has_dots-append (y ∷ a) b)

NoDots-has_dots : (p : Bytes) → has_dots p ≡ false → NoDots p
NoDots-has_dots p h a b e = cc (has_dots-append a b)

-- "index.html" brings no ".." with it.
has_dots-index :
    (c : ℕ) (s : Bytes)
    → has_dots (c ∷ s) ≡ false
    → has_dots ((c ∷ s) ++ codes "index.html") ≡ false
unfolding has_dots
has_dots-index c [] h = ground arith
has_dots-index c (d ∷ s) h = ground (arith, has_dots-index d s)

-- A path that is served begins with a slash and holds no "..".
served :
    (path : Bytes)
    → refused_path path ≡ false
    → (below : Bytes) × (with_index path ≡ b'/' ∷ below) × (has_dots (b'/' ∷ below) ≡ false)
unfolding refused_path with_index
served [] h = cc
served (c ∷ s) h =
    let slash : c ≡ b'/' = ground arith in
    let clean : has_dots (c ∷ s) ≡ false = ground arith in
    elim (Bool-cases (last c s == b'/')) [
      | inl e ↦ (
        s ++ codes "index.html",
        rw e (ap (λ x. x ∷ (s ++ codes "index.html")) slash),
        rw slash at (has_dots-index c s clean),
      )
      | inr e ↦ (s, rw e (ap (λ x. x ∷ s) slash), rw slash at clean)
    ]

served-Confined :
    (doc_root path : Bytes)
    → refused_path path ≡ false
    → Confined doc_root (c_str (doc_root ++ with_index path))
served-Confined doc_root path r =
    let (below, q, d) = served path r in
    record {
      below = below;
      is_name = ap (λ t. c_str (doc_root ++ t)) q;
      no_dots = NoDots-has_dots (b'/' ∷ below) d;
    }

module _ (lexical_cast : ℕ → Bytes) (f g : Bytes → Option Bytes) (doc_root : Bytes) where
  -- The reply depends on no file but those below the document root: two file systems that agree on
  -- them give every request the same reply.
  pub handle_request-Confined :
      (req : Request) (rep : Reply)
      → ((name : Bytes) → Confined doc_root name → f name ≡ g name)
      → handle_request lexical_cast f doc_root req rep
        ≡ handle_request lexical_cast g doc_root req rep
  unfolding handle_request
  handle_request-Confined req rep same = elim (Option-cases (url_decode req.uri)) [
    | inl e ↦ ground arith
    | inr (path, e) ↦ elim (Bool-cases (refused_path path)) [
      | inl r ↦ ground arith
      | inr r ↦ ground (arith, same _ (served-Confined doc_root path r))
    ]
  ]
