-- ===== src/Http/Parser/Steps.antt =====
-- The parser run over one part of a message, with anything behind it.
use boost_learn.Common.{
  ◌==◌, ℕ, ◌≡◌, refl, ◌∙◌, false, List, [], ◌∷◌, ◌++◌, some, append-nil, append_assoc, arith, Bytes,
  All,
}
use boost_learn.Http.Chars.{is_ctl, is_tspecial, is_digit}
use boost_learn.Http.Request.{Header, Request}
use boost_learn.Http.Tribool.{Tribool}
use boost_learn.Http.Parser.{
  is_empty, is_blank, State, method, uri, http_version_major, http_version_minor, header_line_start,
  header_lws, header_name, header_value, modify_back, consume, next, parse, parsed, go, add_name,
  add_value, add_digit,
}
use boost_learn.Http.Parser.Message.{
  IsToken, IsUri, IsText, IsDigit, IsBlank, StartsUnblank, crlf, number,
}

pub parse-go :
    (s : State) (req : Request) (c : ℕ) (cs : Bytes) {s' : State} {req' : Request}
    → consume s req c ≡ go s' req'
    → parse s req (c ∷ cs) ≡ parse s' req' cs
unfolding parse
parse-go s req c cs e = rw (e, parse)

pub parse_ends :
    (s : State) (req : Request) (c : ℕ) (cs : Bytes) {s' : State} {req' : Request}
    → consume s req c ≡ next Tribool.true s' req'
    → parse s req (c ∷ cs) ≡ parsed Tribool.true cs s' req'
unfolding parse
parse_ends s req c cs e = rw (e, parse)

pub modify_back-last :
    (f : Header → Header) (hs : List Header) (h : Header)
    → modify_back f (hs ++ h ∷ []) ≡ some (hs ++ f h ∷ [])
unfolding modify_back
modify_back-last f [] h = refl
modify_back-last f (x ∷ []) h = refl
modify_back-last f (x ∷ y ∷ hs) h = rw (modify_back-last f (y ∷ hs) h)

pub parse_method :
    (m rest : Bytes) (req : Request)
    → All IsToken m
    → parse method req (m ++ rest) ≡ parse method (record req { method = req.method ++ m }) rest
unfolding parse consume is_tspecial
parse_method [] rest req t = rw append-nil
parse_method (c ∷ cs) rest req (t, ts) = ground (
  arith,
  parse_method cs rest (record req { method = req.method ++ c ∷ [] }) ts,
  append_assoc req.method (c ∷ []) cs,
)

pub parse_uri :
    (m rest : Bytes) (req : Request)
    → All IsUri m
    → parse uri req (m ++ rest) ≡ parse uri (record req { uri = req.uri ++ m }) rest
unfolding parse consume
parse_uri [] rest req t = rw append-nil
parse_uri (c ∷ cs) rest req (t, ts) = ground (
  arith,
  parse_uri cs rest (record req { uri = req.uri ++ c ∷ [] }) ts,
  append_assoc req.uri (c ∷ []) cs,
)

pub parse_major :
    (m rest : Bytes) (req : Request)
    → All IsDigit m
    → parse http_version_major req (m ++ rest)
      ≡ parse http_version_major
          (record req { http_version_major = number req.http_version_major m })
          rest
unfolding parse consume is_digit
parse_major [] rest req t = refl
parse_major (c ∷ cs) rest req (t, ts) = ground (
  arith,
  parse_major cs rest (record req { http_version_major = add_digit req.http_version_major c }) ts,
)

pub parse_minor :
    (m rest : Bytes) (req : Request)
    → All IsDigit m
    → parse http_version_minor req (m ++ rest)
      ≡ parse http_version_minor
          (record req { http_version_minor = number req.http_version_minor m })
          rest
unfolding parse consume is_digit
parse_minor [] rest req t = refl
parse_minor (c ∷ cs) rest req (t, ts) = ground (
  arith,
  parse_minor cs rest (record req { http_version_minor = add_digit req.http_version_minor c }) ts,
)

pub token-colon : (c : ℕ) → IsToken c → (c == b':') ≡ false
unfolding is_tspecial
token-colon c t = ground arith

pub token-blank : (c : ℕ) → IsToken c → (is_blank c ≡ false)
unfolding is_tspecial
token-blank c t = ground arith

pub token-return : (c : ℕ) → IsToken c → (c == b'\r') ≡ false
unfolding is_ctl
token-return c t = ground arith

pub text-return : (c : ℕ) → IsText c → (c == b'\r') ≡ false
unfolding is_ctl
text-return c t = ground arith

-- The request whose last header is `h`.
abbrev pub with_last : Request → List Header → Header → Request
with_last req hs h = record req { headers = hs ++ h ∷ [] }

pub is_empty-last : (hs : List Header) (h : Header) → is_empty (hs ++ h ∷ []) ≡ false
is_empty-last [] h = refl
is_empty-last (x ∷ hs) h = refl

module _ (req : Request) (hs : List Header) (c : ℕ) where
  pub new_step :
      IsToken c
      → consume header_line_start (record req { headers = hs }) c
        ≡ go header_name (with_last req hs (record { name = c ∷ []; value = [] }))
  unfolding consume
  new_step t = ground (
    arith,
    token-blank c t,
    token-return c t,
    modify_back-last (add_name c) hs (record { name = []; value = [] }),
  )

module _ (req : Request) (hs : List Header) (c : ℕ) (h : Header) where
  pub name_step :
      IsToken c
      → consume header_name (with_last req hs h) c
        ≡ go header_name (with_last req hs (add_name c h))
  unfolding consume
  name_step t = ground (arith, token-colon c t, modify_back-last (add_name c) hs h)

  pub value_step :
      IsText c
      → consume header_value (with_last req hs h) c
        ≡ go header_value (with_last req hs (add_value c h))
  unfolding consume
  value_step t = ground (arith, text-return c t, modify_back-last (add_value c) hs h)

  pub blank_step :
      IsBlank c
      → consume header_line_start (with_last req hs h) c ≡ go header_lws (with_last req hs h)
  unfolding consume
  blank_step t = ground (arith, is_empty-last hs h)

  pub fold_step :
      IsText c
      → is_blank c ≡ false
      → consume header_lws (with_last req hs h) c
        ≡ go header_value (with_last req hs (add_value c h))
  unfolding consume
  fold_step t b = ground (arith, text-return c t, modify_back-last (add_value c) hs h)

module _ (req : Request) (hs : List Header) (rest : Bytes) where
  pub parse_name :
      (n : Bytes) (h : Header)
      → All IsToken n
      → parse header_name (with_last req hs h) (n ++ rest)
        ≡ parse header_name (with_last req hs (record h { name = h.name ++ n })) rest
  parse_name [] h t = rw append-nil
  parse_name (c ∷ cs) h (t, ts) =
      parse-go _ _ c (cs ++ rest) (name_step req hs c h t)
      ∙ parse_name cs (add_name c h) ts
      ∙ rw append_assoc

  pub parse_value :
      (v : Bytes) (h : Header)
      → All IsText v
      → parse header_value (with_last req hs h) (v ++ crlf rest)
        ≡ parse header_line_start (with_last req hs (record h { value = h.value ++ v })) rest
  parse_value [] h t = rw append-nil (unfold parse consume in refl)
  parse_value (c ∷ cs) h (t, ts) =
      parse-go _ _ c (cs ++ crlf rest) (value_step req hs c h t)
      ∙ parse_value cs (add_value c h) ts
      ∙ rw append_assoc

  pub parse_blanks :
      (b : Bytes) (s : Request)
      → All IsBlank b
      → parse header_lws s (b ++ rest) ≡ parse header_lws s rest
  unfolding parse consume
  parse_blanks [] s t = refl
  parse_blanks (c ∷ cs) s (t, ts) = ground (arith, parse_blanks cs s ts)

  pub parse_fold_text :
      (v : Bytes) (h : Header)
      → All IsText v
      → StartsUnblank v
      → parse header_lws (with_last req hs h) (v ++ crlf rest)
        ≡ parse header_line_start (with_last req hs (record h { value = h.value ++ v })) rest
  parse_fold_text [] h t u = rw append-nil (unfold parse consume in refl)
  parse_fold_text (c ∷ cs) h (t, ts) u =
      parse-go _ _ c (cs ++ crlf rest) (fold_step req hs c h t u)
      ∙ parse_value cs (add_value c h) ts
      ∙ rw append_assoc
