-- ===== src/Http/RequestHandler.antt =====
-- `request_handler::handle_request` of boost_http_server_1/src/request_handler.cpp. The file system
-- is a parameter: the content of the file of a name, if it can be opened. So is `lexical_cast`.
pub mod Reads
pub mod Confined
pub mod Null
pub mod Framed
use Prim.Native.Nat.{min}
use boost_learn.Common.{
  ℕ, zero, suc, ◌+◌, ◌≡◌, refl, Bool, true, false, not, ◌&&◌, ◌||◌, Option, none, some, List, [],
  ◌∷◌, ◌++◌, ltb, ◌==◌, if◌then◌else◌, Bytes, codes, length, take, drop, npos,
}
use boost_learn.Http.MimeTypes.{extension_to_type}
use boost_learn.Http.Reply.{
  StatusType, ok, bad_request, not_found, Reply, stock_reply, standard_headers,
}
use boost_learn.Http.Request.{Request}
use boost_learn.Http.UrlDecode.{url_decode}

-- `request_path.find("..") != npos`.
unfoldable pub has_dots : Bytes → Bool
has_dots [] = false
has_dots (c ∷ []) = false
has_dots (c ∷ d ∷ s) = (c == b'.' && d == b'.') || has_dots (d ∷ s)

-- The test of the early return: empty, or not absolute, or with "..".
unfoldable pub refused_path : Bytes → Bool
refused_path [] = true
refused_path (c ∷ s) = not (c == b'/') || has_dots (c ∷ s)

-- `s[s.size() - 1]`, of a text that is not empty.
last : ℕ → Bytes → ℕ
last c [] = c
last c (d ∷ s) = last d s

unfoldable pub with_index : Bytes → Bytes
unfolding last
with_index [] = []
with_index (c ∷ s) = if last c s == b'/' then (c ∷ s) ++ codes "index.html" else c ∷ s

-- `find_last_of`, over the positions from `i` on, with the best so far.
last_position : ℕ → Bytes → ℕ → ℕ → ℕ
last_position c [] i best = best
last_position c (x ∷ s) i best = last_position c s (i + 1) (if x == c then i else best)

abbrev find_last_of : ℕ → Bytes → ℕ
find_last_of c s = last_position c s 0 npos

unfoldable pub extension_of : Bytes → Bytes
unfolding last_position
extension_of path =
    let last_slash_pos = find_last_of b'/' path in
    let last_dot_pos = find_last_of b'.' path in
    if not (last_dot_pos == npos) && ltb last_slash_pos last_dot_pos
    then drop (last_dot_pos + 1) path
    else []

-- What a C function reads of a string: the bytes before the first null.
unfoldable pub c_str : Bytes → Bytes
c_str [] = []
c_str (c ∷ s) = if c == 0 then [] else c ∷ c_str s

-- `while (is.read(buf, 512).gcount() > 0) content.append(buf, is.gcount())`, with fuel; `none` is a loop
-- that has not ended. A short read sets the stream's failure bits, and the read behind it counts
-- nothing, as here.
pub read_all : ℕ → Bytes → Bytes → Option Bytes
read_all zero rest content = none
read_all (suc fuel) rest content =
    let gcount = min 512 (length rest) in
    let more = read_all fuel (drop gcount rest) (content ++ take gcount rest) in
    if gcount == 0 then some content else more

-- What the loop has read. It is always given enough fuel.
abbrev content_of : Option Bytes → Bytes
content_of none = []
content_of (some content) = content

module _ (lexical_cast : ℕ → Bytes) (open_file : Bytes → Option Bytes) where
  -- The file, and the headers for it: `resize(2)` and the four assignments.
  serve : Bytes → Bytes → Reply → Reply
  serve doc_root path rep = elim (open_file (c_str (doc_root ++ path))) [
    | none ↦ stock_reply lexical_cast not_found
    | some file ↦
        let content = content_of (read_all (suc (length file)) file rep.content) in
        record {
          status = ok;
          headers = standard_headers lexical_cast content (extension_to_type (extension_of path));
          content = content;
        }
  ]

  unfoldable pub handle_request : Bytes → Request → Reply → Reply
  unfolding serve read_all
  handle_request doc_root req rep = elim (url_decode req.uri) [
    | none ↦ stock_reply lexical_cast bad_request
    | some path ↦
        if refused_path path
        then stock_reply lexical_cast bad_request
        else serve doc_root (with_index path) rep
  ]
