-- ===== src/HttpClient/Cuts.antt =====
-- Where `async_read_until` stops: the parts of a reply that a prefix with a delimiter holds.
use boost_learn.Common.{
  ◌≡◌, ◌⊎◌, Bool, true, false, ◌&&◌, ◌||◌, [], ◌∷◌, ◌++◌, arith, ◌==◌, Bytes, Lacks,
}
use boost_learn.Http.Reply.{crlf}

unfoldable pub starts_with : Bytes → Bytes → Bool
starts_with [] s = true
starts_with (p ∷ ps) [] = false
starts_with (p ∷ ps) (c ∷ cs) = p == c && starts_with ps cs

-- The delimiter stands in the text.
unfoldable pub contains : Bytes → Bytes → Bool
unfolding starts_with
contains p [] = starts_with p []
contains p (c ∷ cs) = starts_with p (c ∷ cs) || contains p cs

abbrev pub blank_line : Bytes
blank_line = crlf ++ crlf

-- What of the text behind a delimiter has come, in front of what has not.
abbrev pub Cut : Bytes → Bytes → Bytes → Bytes → Bytes → Type 0
Cut before a r x y = (a ≡ before ++ (crlf ++ y)) × (x ≡ y ++ r)

pub Cut-crlf :
    (l a r x : Bytes)
    → Lacks b'\r' l
    → contains crlf a ≡ true
    → a ++ r ≡ l ++ (crlf ++ x)
    → (y : Bytes) × Cut l a r x y
unfolding contains starts_with
Cut-crlf [] [] r x h k e = absurd (ground arith)
Cut-crlf [] (c ∷ []) r x h k e = absurd (ground arith)
Cut-crlf [] (c ∷ d ∷ a) r x h k e = (a, ground arith)
Cut-crlf (d ∷ l) [] r x h k e = absurd (ground arith)
Cut-crlf (d ∷ l) (c ∷ a) r x (n, h) k e =
    let (y, (p, q)) = Cut-crlf l a r x h (ground arith) (ground arith) in (y, (ground arith, q))

-- Behind a line that ends in front of a blank line, or with it: the blank line is still to come, or
-- the end of this line is its first half.
pub Cut-line :
    (l a r x : Bytes)
    → Lacks b'\r' l
    → contains blank_line a ≡ true
    → a ++ r ≡ l ++ (crlf ++ x)
    → (y : Bytes) × Cut l a r x y × ((starts_with crlf y ≡ true) ⊎ (contains blank_line y ≡ true))
unfolding contains starts_with
Cut-line [] [] r x h k e = absurd (ground arith)
Cut-line [] (c ∷ []) r x h k e = absurd (ground arith)
Cut-line [] (c ∷ d ∷ a) r x h k e = (a, ground arith, ground arith)
Cut-line (d ∷ l) [] r x h k e = absurd (ground arith)
Cut-line (d ∷ l) (c ∷ a) r x (n, h) k e =
    let (y, (p, q), w) = Cut-line l a r x h (ground arith) (ground arith) in
    (y, (ground arith, q), w)
