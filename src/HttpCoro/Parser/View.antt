-- ===== src/HttpCoro/Parser/View.antt =====
-- The coroutine seen as the parser of the first server: its places by the states of that parser.
use boost_learn.Common.{ℕ, ◌≡◌, false, []}
use boost_learn.Http.Request.{Request as BasicRequest}
use boost_learn.Http.Parser.{
  State, method_start, http_version_h, http_version_t_1, http_version_t_2, http_version_p,
  http_version_slash, http_version_major_start, http_version_major, http_version_minor_start,
  http_version_minor, expecting_newline_1, header_line_start, header_lws, header_name,
  space_before_header_value, header_value, expecting_newline_2, expecting_newline_3,
}
use boost_learn.HttpCoro.Request.{Request, basic}
use boost_learn.HttpCoro.Parser.{
  Place, start, method, uri, protocol_h, protocol_t_1, protocol_t_2, protocol_p, protocol_slash,
  major_start, major, minor_start, minor, newline_1, headers, lws, name, space_before_value, value,
  newline_2, last_newline, content, done, cleared, is_empty_text,
}

abbrev pub state_of : Place → State
state_of start = method_start
state_of method = State.method
state_of uri = State.uri
state_of protocol_h = http_version_h
state_of protocol_t_1 = http_version_t_1
state_of protocol_t_2 = http_version_t_2
state_of protocol_p = http_version_p
state_of protocol_slash = http_version_slash
state_of major_start = http_version_major_start
state_of major = http_version_major
state_of minor_start = http_version_minor_start
state_of minor = http_version_minor
state_of newline_1 = expecting_newline_1
state_of headers = header_line_start
state_of lws = header_lws
state_of name = header_name
state_of space_before_value = space_before_header_value
state_of value = header_value
state_of newline_2 = expecting_newline_2
state_of last_newline = expecting_newline_3
state_of content = expecting_newline_3
state_of done = expecting_newline_3

-- The first call clears the request, so that what it held before is not seen.
abbrev pub request_at : Place → Request → BasicRequest
request_at start req = basic cleared
request_at p req = basic req

-- Nothing of the content has been read.
abbrev pub NoContent : ℕ → Request → Type 0
NoContent n req = (n ≡ 0) × (req.content ≡ [])

-- Nor anything of the version numbers.
abbrev pub NoVersion : ℕ → Request → Type 0
NoVersion n req = (req.http_version_major ≡ 0) × (req.http_version_minor ≡ 0) × NoContent n req

-- What holds while the request line and the headers are read.
abbrev pub IsReading : Place → ℕ → Request → Type 0
IsReading start n req = Unit
IsReading method n req = (is_empty_text req.method ≡ false) × NoVersion n req
IsReading uri n req = NoVersion n req
IsReading protocol_h n req = NoVersion n req
IsReading protocol_t_1 n req = NoVersion n req
IsReading protocol_t_2 n req = NoVersion n req
IsReading protocol_p n req = NoVersion n req
IsReading protocol_slash n req = NoVersion n req
IsReading content n req = ⊥
IsReading done n req = ⊥
IsReading p n req = NoContent n req
