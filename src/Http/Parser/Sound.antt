-- ===== src/Http/Parser/Sound.antt =====
-- What `parse` accepts is a message of the grammar.
use mathlib.Core.List.{cons-ne-nil}
use boost_learn.Common.{suc, ◌≡◌, ◌≢◌, ◌∙◌, true, [], ◌∷◌, ◌++◌, arith, Bytes, All, length}
use boost_learn.Http.Request.{Request}
use boost_learn.Http.Tribool.{Tribool}
use boost_learn.Http.Parser.{
  State, initial_state, method_start, http_version_h, http_version_major_start, header_line_start,
  parsed, parse, is_empty,
}
use boost_learn.Http.Parser.Shapes
use boost_learn.Http.Parser.Inversion.{Accepts, loop_splits, enters_splits}
use boost_learn.Http.Parser.Message.{
  Message, IsToken, IsUri, IsDigit, IsMessage, crlf, render, request_of,
}
use boost_learn.Http.Parser.Accepts.{parse-render}
use boost_learn.Http.Parser.Lines.{Lines-sound}

-- The request line up to the major version number.
record Head (rest : Bytes) (req : Request) (cs : Bytes) : Type 0 where
  method_part : Bytes
  uri_part : Bytes
  tail : Bytes
  after : Request
  some_method : method_part ≢ []
  all_token : All IsToken method_part
  all_uri : All IsUri uri_part
  same : after.headers ≡ req.headers
  splits :
      cs ≡ method_part ++ (b' ' ∷ (uri_part ++ (b' ' ∷ b'H' ∷ b'T' ∷ b'T' ∷ b'P' ∷ b'/' ∷ tail)))
  accepts : Accepts rest http_version_major_start after tail

-- `HTTP/` behind the URI.
record Protocol (rest : Bytes) (req : Request) (cs : Bytes) : Type 0 where
  tail : Bytes
  after : Request
  same : after.headers ≡ req.headers
  splits : cs ≡ b'H' ∷ b'T' ∷ b'T' ∷ b'P' ∷ b'/' ∷ tail
  accepts : Accepts rest http_version_major_start after tail

-- The version numbers and the end of the request line.
record Version (rest : Bytes) (req : Request) (cs : Bytes) : Type 0 where
  major : Bytes
  minor : Bytes
  tail : Bytes
  after : Request
  some_major : major ≢ []
  major_digits : All IsDigit major
  some_minor : minor ≢ []
  minor_digits : All IsDigit minor
  same : after.headers ≡ req.headers
  splits : cs ≡ major ++ (b'.' ∷ (minor ++ crlf tail))
  accepts : Accepts rest header_line_start after tail

Protocol-sound :
    (rest : Bytes) (req : Request) (cs : Bytes)
    → Accepts rest http_version_h req cs
    → Protocol rest req cs
Protocol-sound rest req cs h =
    let a = enters_splits true rest _ _ _ Shapes.http_version_h_enters req cs h in
    let b = enters_splits true rest _ _ _ Shapes.http_version_t_1_enters a.after a.tail a.accepts in
    let c = enters_splits true rest _ _ _ Shapes.http_version_t_2_enters b.after b.tail b.accepts in
    let d = enters_splits true rest _ _ _ Shapes.http_version_p_enters c.after c.tail c.accepts in
    let e =
      enters_splits true rest _ _ _ Shapes.http_version_slash_enters d.after d.tail d.accepts in
    record {
      tail = e.tail;
      after = e.after;
      same = e.same ∙ d.same ∙ c.same ∙ b.same ∙ a.same;
      splits = cc (a.splits, a.is, b.splits, b.is, c.splits, c.is, d.splits, d.is, e.splits, e.is);
      accepts = e.accepts;
    }

Head-sound :
    (rest : Bytes) (req : Request) (cs : Bytes)
    → Accepts rest method_start req cs
    → Head rest req cs
Head-sound rest req cs h =
    let a = enters_splits true rest _ _ _ Shapes.method_start_enters req cs h in
    let m = loop_splits true rest _ _ _ _ Shapes.method_loop a.after a.tail a.accepts in
    let u = loop_splits true rest _ _ _ _ Shapes.uri_loop m.after m.tail m.accepts in
    let p = Protocol-sound rest u.after u.tail u.accepts in
    record {
      method_part = a.byte ∷ m.part;
      uri_part = u.part;
      tail = p.tail;
      after = p.after;
      some_method = cons-ne-nil a.byte m.part;
      all_token = (a.is, m.all_part);
      all_uri = u.all_part;
      same = p.same ∙ u.same ∙ m.same ∙ a.same;
      splits = cc (a.splits, m.splits, u.splits, p.splits);
      accepts = p.accepts;
    }

Version-sound :
    (rest : Bytes) (req : Request) (cs : Bytes)
    → Accepts rest http_version_major_start req cs
    → Version rest req cs
Version-sound rest req cs h =
    let a = enters_splits true rest _ _ _ Shapes.http_version_major_start_enters req cs h in
    let m = loop_splits true rest _ _ _ _ Shapes.http_version_major_loop a.after a.tail a.accepts in
    let b =
      enters_splits true rest _ _ _ Shapes.http_version_minor_start_enters m.after m.tail
        m.accepts in
    let n = loop_splits true rest _ _ _ _ Shapes.http_version_minor_loop b.after b.tail b.accepts in
    let l =
      enters_splits true rest _ _ _ Shapes.expecting_newline_1_enters n.after n.tail n.accepts in
    record {
      major = a.byte ∷ m.part;
      minor = b.byte ∷ n.part;
      tail = l.tail;
      after = l.after;
      some_major = cons-ne-nil a.byte m.part;
      major_digits = (a.is, m.all_part);
      some_minor = cons-ne-nil b.byte n.part;
      minor_digits = (b.is, n.all_part);
      same = l.same ∙ n.same ∙ b.same ∙ m.same ∙ a.same;
      splits = cc (a.splits, m.splits, b.splits, n.splits, l.splits, l.is);
      accepts = l.accepts;
    }

-- An accepted input, from the initial state with a request that holds no header, is a message of
-- the grammar and the bytes that were left unread, and nothing else.
message_sound :
    (rest : Bytes) (req : Request) (cs : Bytes)
    → is_empty req.headers ≡ true
    → Accepts rest method_start req cs
    → (m : Message) × IsMessage m × (cs ≡ render m rest)
message_sound rest req cs none_yet h =
    let a = Head-sound rest req cs h in
    let v = Version-sound rest a.after a.tail a.accepts in
    let l = Lines-sound (suc (length v.tail)) rest v.after v.tail (omega arith) v.accepts in
    let no_folds = l.orphan (cc (v.same, a.same)) in
    (
      record {
        method = a.method_part;
        uri = a.uri_part;
        major = v.major;
        minor = v.minor;
        lines = l.lines;
      },
      record {
        some_method = a.some_method;
        all_token = a.all_token;
        all_uri = a.all_uri;
        some_major = v.some_major;
        major_digits = v.major_digits;
        some_minor = v.some_minor;
        minor_digits = v.minor_digits;
        all_lines = l.all_lines;
      },
      cc (a.splits, v.splits, l.splits, no_folds),
    )

-- An input that the parser accepts, from the initial state and with a request that holds no header
-- yet, is a message of the grammar with the unread bytes behind it, and the request is filled with
-- the parts of that message.
pub parse_sound :
    (cs rest : Bytes) (req r : Request) (s : State)
    → is_empty req.headers ≡ true
    → parse initial_state req cs ≡ parsed Tribool.true rest s r
    → (m : Message) × IsMessage m × (cs ≡ render m rest) × (r ≡ request_of m req)
parse_sound cs rest req r s none_yet h =
    let (m, good, e) = message_sound rest req cs none_yet (s, r, h) in
    let again = parse-render m rest req good in (m, good, e, ground (arith, again))
