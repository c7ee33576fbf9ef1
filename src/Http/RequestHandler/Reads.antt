-- ===== src/Http/RequestHandler/Reads.antt =====
-- The file is read whole.
use Prim.Native.Nat.{min}
use boost_learn.Common.{
  Option, ℕ, zero, suc, ◌<◌, ◌≡◌, refl, ap, ◌∙◌, false, some, [], ◌∷◌, ◌++◌, append_assoc,
  append-nil, arith, Bytes, length, take, drop, length-drop, take-append-drop, ◌==◌, Bool-cases,
  inl, inr,
}
use boost_learn.Http.MimeTypes.{extension_to_type}
use boost_learn.Http.Reply.{Reply, ok, standard_headers}
use boost_learn.Http.Request.{Request}
use boost_learn.Http.UrlDecode.{url_decode}
use boost_learn.Http.RequestHandler.{
  read_all, refused_path, with_index, extension_of, c_str, handle_request,
}

empty_of_length : (xs : Bytes) → length xs ≡ 0 → xs ≡ []
empty_of_length [] h = refl
empty_of_length (x ∷ xs) h = absurd (omega arith)

read_all_lem :
    (fuel : ℕ) (rest content : Bytes)
    → length rest < fuel
    → read_all fuel rest content ≡ some (content ++ rest)
unfolding read_all
read_all_lem zero rest content h = absurd (omega arith)
read_all_lem (suc fuel) rest content h =
    let n = min 512 (length rest) in
    elim (Bool-cases (n == 0)) [
      | inl p ↦ rw (p, empty_of_length rest (ground arith), append-nil)
      | inr p ↦ rw p (
          read_all_lem fuel (drop n rest) (content ++ take n rest)
            (ground (arith, length-drop n rest))
          ∙ ap some (append_assoc content (take n rest) (drop n rest))
          ∙ ap (λ t. some (content ++ t)) (take-append-drop n rest))
    ]

module _ (lexical_cast : ℕ → Bytes) (open_file : Bytes → Option Bytes) where
  -- A request for a file that can be opened: the loop over the file ends, with no more than one turn for
  -- each byte and one more, and the reply has the whole content of the file, behind what the reply object
  -- held, with the two headers for that content.
  pub handle_request_found :
      (doc_root path file : Bytes) (req : Request) (rep : Reply)
      → url_decode req.uri ≡ some path
      → refused_path path ≡ false
      → open_file (c_str (doc_root ++ with_index path)) ≡ some file
      → (read_all (suc (length file)) file rep.content ≡ some (rep.content ++ file))
        × (handle_request lexical_cast open_file doc_root req rep ≡ record {
          status = ok;
          headers =
              standard_headers lexical_cast
                (rep.content ++ file)
                (extension_to_type (extension_of (with_index path)));
          content = rep.content ++ file;
        })
  unfolding handle_request
  handle_request_found doc_root path file req rep d r f =
      let ends = read_all_lem (suc (length file)) file rep.content (omega arith) in
      (ends, ground (arith, ends))
