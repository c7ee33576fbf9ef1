-- ===== src/Http/MimeTypes.antt =====
-- boost_http_server_1/src/mime_types.cpp.
use boost_learn.Common.{
  ℕ, Bool-cases, inl, inr, List, [], ◌∷◌, Bytes, codes, arith, equal, if◌then◌else◌, All, Lacks,
}

pub record Mapping : Type 0 where
  pub extension : Bytes
  pub mime_type : Bytes

abbrev map_of : Bytes → Bytes → Mapping
map_of e t = record { extension = e; mime_type = t }

-- The table without the null entry that marks its end.
abbrev pub mappings : List Mapping
mappings =
    map_of (codes "gif") (codes "image/gif")
    ∷ map_of (codes "htm") (codes "text/html")
    ∷ map_of (codes "html") (codes "text/html")
    ∷ map_of (codes "jpg") (codes "image/jpeg")
    ∷ map_of (codes "png") (codes "image/png")
    ∷ []

find_type : List Mapping → Bytes → Bytes
find_type [] extension = codes "text/plain"
find_type (m ∷ ms) extension =
    if equal m.extension extension then m.mime_type else find_type ms extension

unfoldable pub extension_to_type : Bytes → Bytes
unfolding find_type
extension_to_type = find_type mappings

find_type-Lacks :
    (b : ℕ) (ms : List Mapping) (e : Bytes)
    → All (λ m. Lacks b m.mime_type) ms
    → Lacks b (codes "text/plain")
    → Lacks b (find_type ms e)
unfolding find_type
find_type-Lacks b [] e h d = d
find_type-Lacks b (m ∷ ms) e (h, hs) d = elim (Bool-cases (equal m.extension e)) [
  | inl p ↦ rw p h
  | inr p ↦ rw p (find_type-Lacks b ms e hs d)
]

pub extension_to_type-Lacks : (e : Bytes) → Lacks b'\r' (extension_to_type e)
unfolding extension_to_type
extension_to_type-Lacks e = find_type-Lacks b'\r' mappings e (omega arith) (omega arith)

-- No type holds a newline either.
pub extension_to_type_newline : (e : Bytes) → Lacks b'\n' (extension_to_type e)
unfolding extension_to_type
extension_to_type_newline e = find_type-Lacks b'\n' mappings e (omega arith) (omega arith)
