-- ===== src/Http/Parser/Message.antt =====
-- The grammar of the requests that the parser is to read, apart from its code: a request line, then
-- header lines, each with any number of continuation lines, then an empty line.
use boost_learn.Common.{ℕ, ◌≡◌, ◌≢◌, true, false, List, [], ◌∷◌, ◌++◌, Bytes, All}
use mathlib.Core.List.{map}
use boost_learn.Http.Chars.{is_ctl, is_digit}
use boost_learn.Http.Request.{Header, Request}
use boost_learn.Http.Parser.{add_digit, is_blank, not_token}

-- A continuation line: blanks, and what is added to the value of the header.
pub record Fold : Type 0 where
  pub blanks : Bytes
  pub text : Bytes

pub record Line : Type 0 where
  pub name : Bytes
  pub value : Bytes
  pub folds : List Fold

-- The version numbers are given by their digits.
pub record Message : Type 0 where
  pub method : Bytes
  pub uri : Bytes
  pub major : Bytes
  pub minor : Bytes
  pub lines : List Line

abbrev pub IsToken : ℕ → Type 0
IsToken c = not_token c ≡ false

abbrev pub IsUri : ℕ → Type 0
IsUri c = (is_ctl c ≡ false) × (c ≢ b' ')

abbrev pub IsText : ℕ → Type 0
IsText c = is_ctl c ≡ false

abbrev pub IsDigit : ℕ → Type 0
IsDigit c = is_digit c ≡ true

abbrev pub IsBlank : ℕ → Type 0
IsBlank c = is_blank c ≡ true

-- The text of a continuation line does not begin with a blank, since it stands behind them all.
abbrev pub StartsUnblank : Bytes → Type 0
StartsUnblank [] = Unit
StartsUnblank (c ∷ cs) = is_blank c ≡ false

pub record IsFold (f : Fold) : Type 0 where
  pub some_blank : f.blanks ≢ []
  pub all_blank : All IsBlank f.blanks
  pub starts : StartsUnblank f.text
  pub all_text : All IsText f.text

pub record IsLine (l : Line) : Type 0 where
  pub some_name : l.name ≢ []
  pub all_token : All IsToken l.name
  pub all_text : All IsText l.value
  pub all_folds : All IsFold l.folds

pub record IsMessage (m : Message) : Type 0 where
  pub some_method : m.method ≢ []
  pub all_token : All IsToken m.method
  pub all_uri : All IsUri m.uri
  pub some_major : m.major ≢ []
  pub major_digits : All IsDigit m.major
  pub some_minor : m.minor ≢ []
  pub minor_digits : All IsDigit m.minor
  pub all_lines : All IsLine m.lines

-- The bytes of each part, in front of what follows.
abbrev pub crlf : Bytes → Bytes
crlf rest = b'\r' ∷ b'\n' ∷ rest

abbrev pub render_folds : List Fold → Bytes → Bytes
render_folds [] rest = rest
render_folds (f ∷ fs) rest = f.blanks ++ (f.text ++ crlf (render_folds fs rest))

abbrev pub render_lines : List Line → Bytes → Bytes
render_lines [] rest = rest
render_lines (l ∷ ls) rest =
    l.name ++ (b':' ∷ b' ' ∷ (l.value ++ crlf (render_folds l.folds (render_lines ls rest))))

abbrev pub render : Message → Bytes → Bytes
render m rest =
    m.method
    ++ (b' '
        ∷ (m.uri
            ++ (b' '
                ∷ b'H'
                ∷ b'T'
                ∷ b'T'
                ∷ b'P'
                ∷ b'/'
                ∷ (m.major ++ (b'.' ∷ (m.minor ++ crlf (render_lines m.lines (crlf rest))))))))

abbrev pub fold_texts : List Fold → Bytes
fold_texts [] = []
fold_texts (f ∷ fs) = f.text ++ fold_texts fs

abbrev pub header_of : Line → Header
header_of l = record { name = l.name; value = l.value ++ fold_texts l.folds }

-- The 32-bit number that digits spell behind `v`.
abbrev pub number : ℕ → Bytes → ℕ
number v [] = v
number v (c ∷ cs) = number (add_digit v c) cs

-- The request that a message stands for, added to what the request object held.
abbrev pub request_of : Message → Request → Request
request_of m req = record {
  method = req.method ++ m.method;
  uri = req.uri ++ m.uri;
  http_version_major = number 0 m.major;
  http_version_minor = number 0 m.minor;
  headers = req.headers ++ map header_of m.lines;
}
