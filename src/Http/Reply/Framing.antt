-- ===== src/Http/Reply/Framing.antt =====
-- What a client finds in the bytes of a reply.
use mathlib.Core.List.{append-ne-nil_of_right_ne-nil}
use boost_learn.Common.{
  append-nil, All-append, ℕ, ◌-◌, ◌≡◌, ◌≢◌, refl, ap, ◌∙◌, Bool, false, ◌&&◌, Option, none, some,
  List, [], ◌∷◌, ◌++◌, append_assoc, arith, ◌==◌, if◌then◌else◌, Bytes, length, take, drop, All,
  Lacks,
}
use boost_learn.Http.Request.{Header}
use boost_learn.Http.Reply.{
  StatusType, ok, Reply, to_buffer, to_buffers, header_buffers, crlf, name_value_separator,
}

-- `async_write` sends the buffers one behind the other.
unfoldable pub gather : List Bytes → Bytes
gather [] = []
gather (b ∷ bs) = b ++ gather bs

starts_blank : Bytes → Bool
starts_blank (a ∷ b ∷ c ∷ d ∷ s) = a == b'\r' && (b == b'\n' && (c == b'\r' && d == b'\n'))
starts_blank _ = false

-- A client's view: the body is what follows the first empty line.
unfoldable pub body_of : Bytes → Option Bytes
unfolding starts_blank
body_of [] = none
body_of (c ∷ cs) = if starts_blank (c ∷ cs) then some (drop 3 cs) else body_of cs

skip_byte : (c : ℕ) (rest : Bytes) → c ≢ b'\r' → body_of (c ∷ rest) ≡ body_of rest
unfolding body_of
skip_byte c (x ∷ y ∷ z ∷ rest) h = ground arith
skip_byte c _ h = refl

skip_text : (t rest : Bytes) → Lacks b'\r' t → body_of (t ++ rest) ≡ body_of rest
skip_text [] rest h = refl
skip_text (c ∷ cs) rest (h, hs) = skip_byte c (cs ++ rest) h ∙ skip_text cs rest hs

skip_crlf : (c : ℕ) (rest : Bytes) → c ≢ b'\r' → body_of (crlf ++ c ∷ rest) ≡ body_of (c ∷ rest)
unfolding body_of
skip_crlf c [] h = refl
skip_crlf c (x ∷ rest) h = ground arith

-- The header lines in front of what follows.
unfoldable pub lines : List Header → Bytes → Bytes
lines [] rest = rest
lines (h ∷ hs) rest = h.name ++ (name_value_separator ++ (h.value ++ (crlf ++ lines hs rest)))

gather-append : (a b : List Bytes) → gather (a ++ b) ≡ gather a ++ gather b
unfolding gather
gather-append [] b = refl
gather-append (x ∷ a) b = rw (gather-append a b, append_assoc)

gather-header_buffers :
    (hs : List Header) (buffers : List Bytes) (rest : Bytes)
    → gather (header_buffers hs buffers) ++ rest ≡ gather buffers ++ lines hs rest
unfolding header_buffers gather lines
gather-header_buffers [] buffers rest = refl
gather-header_buffers (h ∷ hs) buffers rest =
    gather-header_buffers hs (buffers ++ (h.name ∷ name_value_separator ∷ h.value ∷ crlf ∷ [])) rest
    ∙ simp (gather-append, append_assoc)

abbrev pub IsClean : Header → Type 0
IsClean h = Lacks b'\r' h.name × Lacks b'\r' h.value

-- A text that is not empty, at the start of a line.
skip_line : (t rest : Bytes) → t ≢ [] → Lacks b'\r' t → body_of (crlf ++ (t ++ rest)) ≡ body_of rest
skip_line [] rest ne h = absurd (ne refl)
skip_line (c ∷ cs) rest ne (h, hs) = skip_crlf c (cs ++ rest) h ∙ skip_text (c ∷ cs) rest (h, hs)

unfoldable pub header_text : Header → Bytes
header_text h = h.name ++ (name_value_separator ++ h.value)

pub header_text-Lacks : (h : Header) → IsClean h → Lacks b'\r' (header_text h)
unfolding header_text
header_text-Lacks h (n, v) = All-append _ h.name (name_value_separator ++ h.value) n (cc, (cc, v))

pub header_text-ne-nil : (h : Header) → header_text h ≢ []
unfolding header_text
header_text-ne-nil h = append-ne-nil_of_right_ne-nil h.name (cc)

pub lines-cons :
    (h : Header) (hs : List Header) (rest : Bytes)
    → lines (h ∷ hs) rest ≡ header_text h ++ (crlf ++ lines hs rest)
unfolding lines header_text
lines-cons h hs rest = simp append_assoc

empty_line : (content : Bytes) → body_of (crlf ++ (crlf ++ content)) ≡ some content
unfolding body_of
empty_line content = refl

body_of-lines :
    (hs : List Header) (content : Bytes)
    → All IsClean hs
    → body_of (crlf ++ lines hs (crlf ++ content)) ≡ some content
body_of-lines [] content h = unfold lines in empty_line content
body_of-lines (x ∷ hs) content (h, clean) =
    ap (λ t. body_of (crlf ++ t)) (lines-cons x hs (crlf ++ content))
    ∙ skip_line (header_text x) _ (header_text-ne-nil x) (header_text-Lacks x h)
    ∙ body_of-lines hs content clean

status_text : StatusType → Bytes
status_text s = take (length (to_buffer s) - 2) (to_buffer s)

to_buffer-status_text :
    (s : StatusType) → (to_buffer s ≡ status_text s ++ crlf) × Lacks b'\r' (status_text s)
unfolding to_buffer status_text
to_buffer-status_text ok = (refl, omega arith)
to_buffer-status_text _ = (refl, omega arith)

pub gather-to_buffers :
    (r : Reply) → gather (to_buffers r) ≡ to_buffer r.status ++ lines r.headers (crlf ++ r.content)
unfolding to_buffers gather
gather-to_buffers r =
    gather-append (header_buffers r.headers (to_buffer r.status ∷ [])) (crlf ∷ r.content ∷ [])
    ∙ simp append-nil (
        gather-header_buffers r.headers (to_buffer r.status ∷ []) (crlf ++ r.content)
        ∙ simp append-nil)

-- Where no header holds a carriage return, a client that reads up to the first empty line finds the
-- content of the reply behind it, whatever the content is.
pub body_of-to_buffers :
    (r : Reply) → All IsClean r.headers → body_of (gather (to_buffers r)) ≡ some r.content
body_of-to_buffers r clean =
    let (e, lacks) = to_buffer-status_text r.status in
    ap body_of (
      gather-to_buffers r
      ∙ ap (λ t. t ++ lines r.headers (crlf ++ r.content)) e
      ∙ append_assoc (status_text r.status) crlf (lines r.headers (crlf ++ r.content)))
    ∙ skip_text (status_text r.status) _ lacks
    ∙ body_of-lines r.headers r.content clean
