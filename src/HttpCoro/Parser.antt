-- ===== src/HttpCoro/Parser.antt =====
-- The request parser as a coroutine: boost_http_server_3/request_parser.cpp and request_parser.hpp.
pub mod View
pub mod Steps
pub mod Refines
pub mod Messages
pub mod Chunks
pub mod Kept
pub mod Completes
pub mod Safety
use boost_learn.Common.{
  ℕ, ◌-◌, ◌+◌, Option, none, some, Bool, true, false, not, ◌&&◌, ◌||◌, List, [], ◌∷◌, ◌++◌, ltb,
  leb, ◌==◌, if◌then◌else◌, Bytes, codes, length,
}
use boost_learn.Http.Chars.{is_char, is_ctl, is_tspecial, is_digit}
use boost_learn.Http.Request.{Header}
use boost_learn.Http.Tribool.{Tribool, indeterminate}
use boost_learn.Http.Parser.{modify_back, add_name, add_value, add_digit, is_empty, is_blank}
use boost_learn.HttpCoro.Request.{Request}

-- Where the coroutine goes on at its next call: the place behind a `yield`, where two of them that
-- go on alike have one name. `start` is a coroutine that was not entered yet, and `done` one that
-- has ended.
pub data Place : Type 0 where
  start method uri : Place
  protocol_h protocol_t_1 protocol_t_2 protocol_p protocol_slash : Place
  major_start major minor_start minor : Place
  newline_1 headers lws name space_before_value value newline_2 last_newline : Place
  content done : Place

-- What one call of `consume` leaves: the value returned, the place, `content_length_` and the
-- request. `fault` is `back()` of an empty vector.
pub data Outcome : Type 0 where
  fault : Outcome
  next : Tribool → Place → ℕ → Request → Outcome

-- `yield return boost::indeterminate`.
abbrev yields : Place → ℕ → Request → Outcome
yields = next indeterminate

-- `return false`, which ends the coroutine.
abbrev refuses : ℕ → Request → Outcome
refuses = next Tribool.false done

-- `tolower` of the C locale.
abbrev tolower : ℕ → ℕ
tolower c = if leb b'A' c && leb c b'Z' then c + 32 else c

abbrev tolower_compare : ℕ → ℕ → Bool
tolower_compare a b = tolower a == tolower b

-- `std::equal` of two ranges of one length, and the comparison of the lengths before it.
unfoldable pub headers_equal : Bytes → Bytes → Bool
headers_equal [] [] = true
headers_equal (a ∷ s) (b ∷ t) = tolower_compare a b && headers_equal s t
headers_equal _ _ = false

abbrev pub content_length_name : Bytes
content_length_name = codes "Content-Length"

-- The loop over the headers, with `content_length_` so far. `lexical_cast` returns none where
-- `boost::lexical_cast<std::size_t>` throws `bad_lexical_cast`; what `content_length_` holds then is
-- not read again.
unfoldable pub content_length_of : (Bytes → Option ℕ) → List Header → ℕ → Option ℕ
content_length_of lexical_cast [] n = some n
content_length_of lexical_cast (h ∷ hs) n =
    if headers_equal h.name content_length_name
    then elim (lexical_cast h.value) [ none ↦ none | some k ↦ content_length_of lexical_cast hs k ]
    else content_length_of lexical_cast hs n

abbrev pub is_empty_text : Bytes → Bool
is_empty_text [] = true
is_empty_text (c ∷ s) = false

-- A char of a method or of a header name.
abbrev is_token : ℕ → Bool
is_token c = is_char c && not (is_ctl c) && not (is_tspecial c)

-- `if (c != want) return false; yield return boost::indeterminate;`
abbrev expect : ℕ → Place → ℕ → Request → ℕ → Outcome
expect want after n req c = if c == want then yields after n req else refuses n req

-- `req.headers.back()` is changed by `f`.
abbrev yields_back : Place → (Header → Header) → ℕ → Request → Outcome
yields_back p f n req = elim (modify_back f req.headers) [
  | none ↦ fault
  | some hs ↦ yields p n (record req { headers = hs })
]

-- What the first call does before the loop of the method.
abbrev pub cleared : Request
cleared = record {
  method = [];
  uri = [];
  http_version_major = 0;
  http_version_minor = 0;
  headers = [];
  content = [];
}

abbrev at_method : ℕ → Request → ℕ → Outcome
at_method n req c =
    if is_token c && not (c == b' ')
    then yields method n (record req { method = req.method ++ c ∷ [] })
    else if is_empty_text req.method
    then refuses n req
    else expect b' ' uri n req c

abbrev at_uri : ℕ → Request → ℕ → Outcome
at_uri n req c =
    if not (is_ctl c) && not (c == b' ')
    then yields uri n (record req { uri = req.uri ++ c ∷ [] })
    else if is_empty_text req.uri
    then refuses n req
    else expect b' ' protocol_h n req c

abbrev at_major : ℕ → Request → ℕ → Outcome
at_major n req c =
    if is_digit c
    then yields major n (record req { http_version_major = add_digit req.http_version_major c })
    else expect b'.' minor_start n req c

abbrev at_minor : ℕ → Request → ℕ → Outcome
at_minor n req c =
    if is_digit c
    then yields minor n (record req { http_version_minor = add_digit req.http_version_minor c })
    else expect b'\r' newline_1 n req c

abbrev at_name : ℕ → Request → ℕ → Outcome
at_name n req c =
    if is_token c && not (c == b':')
    then yields_back name (add_name c) n req
    else expect b':' space_before_value n req c

abbrev at_value : ℕ → Request → ℕ → Outcome
at_value n req c =
    if is_char c && not (is_ctl c) && not (c == b'\r')
    then yields_back value (add_value c) n req
    else expect b'\r' newline_2 n req c

abbrev at_lws : ℕ → Request → ℕ → Outcome
at_lws n req c = if is_blank c then yields lws n req else at_value n req c

abbrev push_header : Request → Request
push_header req = record req { headers = req.headers ++ (record { name = []; value = [] } ∷ []) }

abbrev at_headers : ℕ → Request → ℕ → Outcome
at_headers n req c =
    if (is_token c && not (c == b'\r')) || is_blank c
    then if is_blank c
      then if is_empty req.headers then refuses n req else at_lws n req c
      else at_name n (push_header req) c
    else expect b'\r' last_newline n req c

-- `while (req.content.size() < content_length_)`, behind which the coroutine ends.
abbrev pub at_content : ℕ → Request → Outcome
at_content n req =
    if ltb (length req.content) n then yields content n req else next Tribool.true done n req

abbrev pub with_length : Option ℕ → ℕ → Request → Outcome
with_length none n req = refuses n req
with_length (some k) n req = at_content k req

unfoldable pub consume : (Bytes → Option ℕ) → Place → ℕ → Request → ℕ → Outcome
consume lexical_cast start n req c = at_method 0 cleared c
consume lexical_cast method n req c = at_method n req c
consume lexical_cast uri n req c = at_uri n req c
consume lexical_cast protocol_h n req c = expect b'H' protocol_t_1 n req c
consume lexical_cast protocol_t_1 n req c = expect b'T' protocol_t_2 n req c
consume lexical_cast protocol_t_2 n req c = expect b'T' protocol_p n req c
consume lexical_cast protocol_p n req c = expect b'P' protocol_slash n req c
consume lexical_cast protocol_slash n req c = expect b'/' major_start n req c
consume lexical_cast major_start n req c = if is_digit c then at_major n req c else refuses n req
consume lexical_cast major n req c = at_major n req c
consume lexical_cast minor_start n req c = if is_digit c then at_minor n req c else refuses n req
consume lexical_cast minor n req c = at_minor n req c
consume lexical_cast newline_1 n req c = expect b'\n' headers n req c
consume lexical_cast headers n req c = at_headers n req c
consume lexical_cast lws n req c = at_lws n req c
consume lexical_cast name n req c = at_name n req c
consume lexical_cast space_before_value n req c = expect b' ' value n req c
consume lexical_cast value n req c = at_value n req c
consume lexical_cast newline_2 n req c = expect b'\n' headers n req c
consume lexical_cast last_newline n req c =
    if c == b'\n'
    then with_length (content_length_of lexical_cast req.headers n) n req
    else refuses n req
consume lexical_cast content n req c = at_content n (record req { content = req.content ++ c ∷ [] })
consume lexical_cast done n req c = next Tribool.true done n req

-- What a call of `parse` leaves: the result, the input not yet read, the parser and the request.
pub data Parsed : Type 0 where
  fault : Parsed
  parsed : Tribool → Bytes → Place → ℕ → Request → Parsed

unfoldable pub parse : (Bytes → Option ℕ) → Place → ℕ → Request → Bytes → Parsed
parse lexical_cast p n req [] = parsed indeterminate [] p n req
parse lexical_cast p n req (c ∷ cs) = elim (consume lexical_cast p n req c) [
  | Outcome.fault ↦ Parsed.fault
  | next t p' n' req' ↦ elim t [
    | indeterminate ↦ parse lexical_cast p' n' req' cs
    | decided ↦ parsed decided cs p' n' req'
  ]
]
