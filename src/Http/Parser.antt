-- ===== src/Http/Parser.antt =====
-- The request parser: boost_http_server_1/src/request_parser.cpp and request_parser.hpp.
pub mod Chunks
pub mod Safety
pub mod Message
pub mod Renders
pub mod Steps
pub mod Accepts
pub mod Inversion
pub mod Shapes
pub mod Folds
pub mod Lines
pub mod Sound
pub mod Prefix
use boost_learn.Common.{
  ℕ, Option, none, some, ◌+◌, ◌-◌, ◌*◌, ◌%◌, ◌^◌, Bool, true, false, not, ◌&&◌, ◌||◌, List, [], ◌∷◌,
  ◌++◌, leb, ◌==◌, if◌then◌else◌, Bytes,
}
use mathlib.Core.Option
use boost_learn.Http.Chars.{is_char, is_ctl, is_tspecial, is_digit}
use boost_learn.Http.Request.{Header, Request}
use boost_learn.Http.Tribool.{Tribool, indeterminate}

-- `request_parser::state`.
pub data State : Type 0 where
  method_start method uri : State
  http_version_h http_version_t_1 http_version_t_2 http_version_p http_version_slash : State
  http_version_major_start http_version_major http_version_minor_start http_version_minor : State
  expecting_newline_1 header_line_start header_lws header_name space_before_header_value : State
  header_value expecting_newline_2 expecting_newline_3 : State

-- `request_parser::request_parser`.
abbrev pub initial_state : State
initial_state = method_start

-- `request_parser::reset`, which leaves the request to its owner.
pub reset : State → State
reset s = method_start

-- What one call of `consume` leaves: the value returned, the parser's state and the request.
-- `fault` is `back()` of an empty vector, which has no defined behaviour.
pub data Outcome : Type 0 where
  fault : Outcome
  next : Tribool → State → Request → Outcome

pub modify_back : (Header → Header) → List Header → Option (List Header)
modify_back f [] = none
modify_back f (h ∷ []) = some (f h ∷ [])
modify_back f (h ∷ i ∷ hs) = Option.map (◌∷◌ h) (modify_back f (i ∷ hs))

abbrev pub add_name : ℕ → Header → Header
add_name c h = record h { name = h.name ++ c ∷ [] }

abbrev pub add_value : ℕ → Header → Header
add_value c h = record h { value = h.value ++ c ∷ [] }

abbrev pub new_header : Request → Request
new_header req = record req { headers = req.headers ++ (record { name = []; value = [] } ∷ []) }

abbrev pub go : State → Request → Outcome
go = next indeterminate

abbrev pub refuse : State → Request → Outcome
refuse = next Tribool.false

-- `req.headers.back()` is changed by `f`.
abbrev pub go_back : State → (Header → Header) → Request → Outcome
go_back s f req = elim (modify_back f req.headers) [
  | none ↦ fault
  | some hs ↦ go s (record req { headers = hs })
]

abbrev expect : ℕ → State → State → Request → ℕ → Outcome
expect want here after req c = if c == want then go after req else refuse here req

-- `v * 10 + c - '0'`, as the bits of an `int`.
abbrev pub add_digit : ℕ → ℕ → ℕ
add_digit v c = (v * 10 + c - b'0') % 2 ^ 32

abbrev pub is_empty : List Header → Bool
is_empty [] = true
is_empty (h ∷ hs) = false

abbrev pub is_blank : ℕ → Bool
is_blank c = c == b' ' || c == b'\t'

abbrev pub not_token : ℕ → Bool
not_token c = not (is_char c) || is_ctl c || is_tspecial c

unfoldable pub consume : State → Request → ℕ → Outcome
consume method_start req c =
    if not_token c
    then refuse method_start req
    else go method (record req { method = req.method ++ c ∷ [] })
consume method req c =
    if c == b' '
    then go uri req
    else if not_token c
    then refuse method req
    else go method (record req { method = req.method ++ c ∷ [] })
consume uri req c =
    if c == b' '
    then go http_version_h req
    else if is_ctl c
    then refuse uri req
    else go uri (record req { uri = req.uri ++ c ∷ [] })
consume http_version_h req c = expect b'H' http_version_h http_version_t_1 req c
consume http_version_t_1 req c = expect b'T' http_version_t_1 http_version_t_2 req c
consume http_version_t_2 req c = expect b'T' http_version_t_2 http_version_p req c
consume http_version_p req c = expect b'P' http_version_p http_version_slash req c
consume http_version_slash req c =
    if c == b'/'
    then go http_version_major_start (record req { http_version_major = 0; http_version_minor = 0 })
    else refuse http_version_slash req
consume http_version_major_start req c =
    if is_digit c
    then go http_version_major
        (record req { http_version_major = add_digit req.http_version_major c })
    else refuse http_version_major_start req
consume http_version_major req c =
    if c == b'.'
    then go http_version_minor_start req
    else if is_digit c
    then go http_version_major
        (record req { http_version_major = add_digit req.http_version_major c })
    else refuse http_version_major req
consume http_version_minor_start req c =
    if is_digit c
    then go http_version_minor
        (record req { http_version_minor = add_digit req.http_version_minor c })
    else refuse http_version_minor_start req
consume http_version_minor req c =
    if c == b'\r'
    then go expecting_newline_1 req
    else if is_digit c
    then go http_version_minor
        (record req { http_version_minor = add_digit req.http_version_minor c })
    else refuse http_version_minor req
consume expecting_newline_1 req c = expect b'\n' expecting_newline_1 header_line_start req c
consume header_line_start req c =
    if c == b'\r'
    then go expecting_newline_3 req
    else if not (is_empty req.headers) && is_blank c
    then go header_lws req
    else if not_token c
    then refuse header_line_start req
    else go_back header_name (add_name c) (new_header req)
consume header_lws req c =
    if c == b'\r'
    then go expecting_newline_2 req
    else if is_blank c
    then go header_lws req
    else if is_ctl c
    then refuse header_lws req
    else go_back header_value (add_value c) req
consume header_name req c =
    if c == b':'
    then go space_before_header_value req
    else if not_token c
    then refuse header_name req
    else go_back header_name (add_name c) req
consume space_before_header_value req c = expect b' ' space_before_header_value header_value req c
consume header_value req c =
    if c == b'\r'
    then go expecting_newline_2 req
    else if is_ctl c
    then refuse header_value req
    else go_back header_value (add_value c) req
consume expecting_newline_2 req c = expect b'\n' expecting_newline_2 header_line_start req c
consume expecting_newline_3 req c =
    next (if c == b'\n' then Tribool.true else Tribool.false) expecting_newline_3 req

-- What a call of `parse` leaves: the result, the input not yet read, the state and the request.
pub data Parsed : Type 0 where
  fault : Parsed
  parsed : Tribool → Bytes → State → Request → Parsed

unfoldable pub parse : State → Request → Bytes → Parsed
parse s req [] = parsed indeterminate [] s req
parse s req (c ∷ cs) = elim (consume s req c) [
  | Outcome.fault ↦ Parsed.fault
  | next t s' req' ↦ elim t [
    | indeterminate ↦ parse s' req' cs
    | decided ↦ parsed decided cs s' req'
  ]
]
