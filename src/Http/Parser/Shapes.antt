-- ===== src/Http/Parser/Shapes.antt =====
-- Which bytes each state of the parser reads, and where it goes.
use boost_learn.Common.{◌≡◌, true, false, arith}
use boost_learn.Http.Parser.{
  method_start, method, uri, http_version_h, http_version_t_1, http_version_t_2, http_version_p,
  http_version_slash, http_version_major_start, http_version_major, http_version_minor_start,
  http_version_minor, expecting_newline_1, header_line_start, header_name,
  space_before_header_value, header_value, expecting_newline_2, consume,
}
use boost_learn.Http.Parser.Message.{IsToken, IsUri, IsText, IsDigit}
use boost_learn.Http.Parser.Inversion.{Loop, Enters}

pub method_loop : Loop true method uri b' ' IsToken
unfolding consume
method_loop = record {
  goes = λ req c s₂ req₂ h. ground arith;
  same = λ req c s₂ req₂ h. ground arith;
  no_end = λ req c s₂ req₂ h. ground arith;
}

pub uri_loop : Loop true uri http_version_h b' ' IsUri
unfolding consume
uri_loop = record {
  goes = λ req c s₂ req₂ h. ground arith;
  same = λ req c s₂ req₂ h. ground arith;
  no_end = λ req c s₂ req₂ h. ground arith;
}

pub http_version_major_loop : Loop true http_version_major http_version_minor_start b'.' IsDigit
unfolding consume
http_version_major_loop = record {
  goes = λ req c s₂ req₂ h. ground arith;
  same = λ req c s₂ req₂ h. ground arith;
  no_end = λ req c s₂ req₂ h. ground arith;
}

pub http_version_minor_loop : Loop true http_version_minor expecting_newline_1 b'\r' IsDigit
unfolding consume
http_version_minor_loop = record {
  goes = λ req c s₂ req₂ h. ground arith;
  same = λ req c s₂ req₂ h. ground arith;
  no_end = λ req c s₂ req₂ h. ground arith;
}

pub header_name_loop : Loop false header_name space_before_header_value b':' IsToken
unfolding consume
header_name_loop = record {
  goes = λ req c s₂ req₂ h. ground arith;
  same = λ req c s₂ req₂ h. ground arith;
  no_end = λ req c s₂ req₂ h. ground arith;
}

pub header_value_loop : Loop false header_value expecting_newline_2 b'\r' IsText
unfolding consume
header_value_loop = record {
  goes = λ req c s₂ req₂ h. ground arith;
  same = λ req c s₂ req₂ h. ground arith;
  no_end = λ req c s₂ req₂ h. ground arith;
}

pub method_start_enters : Enters true method_start method IsToken
unfolding consume
method_start_enters = record {
  goes = λ req c s₂ req₂ h. ground arith;
  same = λ req c s₂ req₂ h. ground arith;
  no_end = λ req c s₂ req₂ h. ground arith;
}

pub http_version_h_enters : Enters true http_version_h http_version_t_1 (λ c. c ≡ b'H')
unfolding consume
http_version_h_enters = record {
  goes = λ req c s₂ req₂ h. ground arith;
  same = λ req c s₂ req₂ h. ground arith;
  no_end = λ req c s₂ req₂ h. ground arith;
}

pub http_version_t_1_enters : Enters true http_version_t_1 http_version_t_2 (λ c. c ≡ b'T')
unfolding consume
http_version_t_1_enters = record {
  goes = λ req c s₂ req₂ h. ground arith;
  same = λ req c s₂ req₂ h. ground arith;
  no_end = λ req c s₂ req₂ h. ground arith;
}

pub http_version_t_2_enters : Enters true http_version_t_2 http_version_p (λ c. c ≡ b'T')
unfolding consume
http_version_t_2_enters = record {
  goes = λ req c s₂ req₂ h. ground arith;
  same = λ req c s₂ req₂ h. ground arith;
  no_end = λ req c s₂ req₂ h. ground arith;
}

pub http_version_p_enters : Enters true http_version_p http_version_slash (λ c. c ≡ b'P')
unfolding consume
http_version_p_enters = record {
  goes = λ req c s₂ req₂ h. ground arith;
  same = λ req c s₂ req₂ h. ground arith;
  no_end = λ req c s₂ req₂ h. ground arith;
}

pub http_version_slash_enters :
    Enters true http_version_slash http_version_major_start (λ c. c ≡ b'/')
unfolding consume
http_version_slash_enters = record {
  goes = λ req c s₂ req₂ h. ground arith;
  same = λ req c s₂ req₂ h. ground arith;
  no_end = λ req c s₂ req₂ h. ground arith;
}

pub http_version_major_start_enters :
    Enters true http_version_major_start http_version_major IsDigit
unfolding consume
http_version_major_start_enters = record {
  goes = λ req c s₂ req₂ h. ground arith;
  same = λ req c s₂ req₂ h. ground arith;
  no_end = λ req c s₂ req₂ h. ground arith;
}

pub http_version_minor_start_enters :
    Enters true http_version_minor_start http_version_minor IsDigit
unfolding consume
http_version_minor_start_enters = record {
  goes = λ req c s₂ req₂ h. ground arith;
  same = λ req c s₂ req₂ h. ground arith;
  no_end = λ req c s₂ req₂ h. ground arith;
}

pub expecting_newline_1_enters : Enters true expecting_newline_1 header_line_start (λ c. c ≡ b'\n')
unfolding consume
expecting_newline_1_enters = record {
  goes = λ req c s₂ req₂ h. ground arith;
  same = λ req c s₂ req₂ h. ground arith;
  no_end = λ req c s₂ req₂ h. ground arith;
}

pub expecting_newline_2_enters : Enters false expecting_newline_2 header_line_start (λ c. c ≡ b'\n')
unfolding consume
expecting_newline_2_enters = record {
  goes = λ req c s₂ req₂ h. ground arith;
  same = λ req c s₂ req₂ h. ground arith;
  no_end = λ req c s₂ req₂ h. ground arith;
}

pub space_before_header_value_enters :
    Enters false space_before_header_value header_value (λ c. c ≡ b' ')
unfolding consume
space_before_header_value_enters = record {
  goes = λ req c s₂ req₂ h. ground arith;
  same = λ req c s₂ req₂ h. ground arith;
  no_end = λ req c s₂ req₂ h. ground arith;
}
