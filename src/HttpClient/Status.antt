-- ===== src/HttpClient/Status.antt =====
-- How the clients of boost_http_server_1/src read a status line: `>>` into a string and into an
-- `unsigned int`, then `std::getline`. `none` is a stream that has failed.
use boost_learn.Common.{
  ℕ, ◌-◌, ◌%◌, ◌^◌, Option, none, some, Bool, true, false, [], ◌∷◌, ltb, ◌==◌, if◌then◌else◌, Bytes,
  is_space, decimal, not,
}
use boost_learn.Http.Chars.{is_digit}

skip_space : Bytes → Bytes
skip_space [] = []
skip_space (c ∷ cs) = let rest = skip_space cs in if is_space c then rest else c ∷ cs

-- The chars up to white space, and the rest.
word : Bytes → Bytes × Bytes
word [] = ([], [])
word (c ∷ cs) = let more = word cs in if is_space c then ([], c ∷ cs) else (c ∷ more.0, more.1)

digits : Bytes → Bytes × Bytes
digits [] = ([], [])
digits (c ∷ cs) = let more = digits cs in if is_digit c then (c ∷ more.0, more.1) else ([], c ∷ cs)

-- What is behind the first newline, or behind everything.
line_end : Bytes → Bytes
line_end [] = []
line_end (c ∷ cs) = let rest = line_end cs in if c == b'\n' then cs else rest

-- The value of the digits, which has to fit; a minus negates it, as an `unsigned int`. A stream that
-- has come to its end in the number fails at the `getline` behind it.
valued : Bool → Bytes × Bytes → Option (ℕ × Bytes)
valued minus ([], rest) = none
valued minus (d ∷ ds, []) = none
valued minus (d ∷ ds, c ∷ cs) =
    let v = decimal 0 (d ∷ ds) in
    if ltb v (2 ^ 32) then some (if minus then (2 ^ 32 - v) % 2 ^ 32 else v, c ∷ cs) else none

-- A sign, and digits.
signed : Bytes → Option (ℕ × Bytes)
signed [] = none
signed (c ∷ cs) =
    if c == b'-'
    then valued true (digits cs)
    else if c == b'+'
    then valued false (digits cs)
    else valued false (digits (c ∷ cs))

-- `response_stream >> http_version >> status_code` and `getline`: the two values, and what is left.
unfoldable pub status_line : Bytes → Option (Bytes × ℕ × Bytes)
unfolding skip_space word digits line_end valued signed is_space is_digit
status_line s =
    let (http_version, behind) = word (skip_space s) in
    elim http_version [
      | [] ↦ none
      | ◌∷◌ c cs ↦ elim (signed (skip_space behind)) [
        | none ↦ none
        | some (status_code, rest) ↦ some (c ∷ cs, status_code, line_end rest)
      ]
    ]

has_newline : Bytes → Bool
has_newline [] = false
has_newline (c ∷ cs) = let rest = has_newline cs in if c == b'\n' then true else rest

-- Whether that `getline` finds no newline and comes to the end of the buffer, which sets the stream's
-- `eofbit`.
unfoldable pub ends_status : Bytes → Bool
unfolding skip_space word digits valued signed has_newline is_space is_digit
ends_status s = elim (signed (skip_space (word (skip_space s)).1)) [
  | none ↦ false
  | some (status_code, rest) ↦ not (has_newline rest)
]
