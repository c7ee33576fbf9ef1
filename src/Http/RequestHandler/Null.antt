-- ===== src/Http/RequestHandler/Null.antt =====
-- A null byte in the path, which `%00` decodes to.
use boost_learn.Common.{
  sym, false, ℕ, ◌≡◌, ◌∷◌, [], ◌++◌, ◌∙◌, ap, arith, refl, Bytes, Option, some, Lacks, append_assoc,
}
use boost_learn.Http.MimeTypes.{extension_to_type}
use boost_learn.Http.Reply.{Reply, ok, standard_headers}
use boost_learn.Http.Request.{Request}
use boost_learn.Http.UrlDecode.{url_decode}
use boost_learn.Http.RequestHandler.{c_str, handle_request, refused_path, with_index, extension_of}
use boost_learn.Http.RequestHandler.Reads.{handle_request_found}

c_str-null : (p q : Bytes) → Lacks 0 p → c_str (p ++ 0 ∷ q) ≡ p
unfolding c_str
c_str-null [] q h = refl
c_str-null (c ∷ p) q (h, hs) = ground (arith, c_str-null p q hs)

-- A path with a null byte and more behind it is not refused for it: the file is that of the part in
-- front of the null byte, and the content type goes by the extension of the whole.
pub handle_request_null :
    (lexical_cast : ℕ → Bytes) (open_file : Bytes → Option Bytes) (doc_root front back file : Bytes)
    (req : Request) (rep : Reply)
    → url_decode req.uri ≡ some (front ++ 0 ∷ back)
    → refused_path (front ++ 0 ∷ back) ≡ false
    → with_index (front ++ 0 ∷ back) ≡ front ++ 0 ∷ back
    → Lacks 0 (doc_root ++ front)
    → open_file (doc_root ++ front) ≡ some file
    → handle_request lexical_cast open_file doc_root req rep ≡ record {
      status = ok;
      headers =
          standard_headers lexical_cast
            (rep.content ++ file)
            (extension_to_type (extension_of (front ++ 0 ∷ back)));
      content = rep.content ++ file;
    }
handle_request_null lexical_cast open_file doc_root front back file req rep d r w n f =
    let path = front ++ 0 ∷ back in
    (handle_request_found lexical_cast open_file doc_root path file req rep d r (
      ap (λ t. open_file (c_str (doc_root ++ t))) w
      ∙ ap (λ t. open_file (c_str t)) (sym (append_assoc doc_root front (0 ∷ back)))
      ∙ ap open_file (c_str-null (doc_root ++ front) back n)
      ∙ f)).1
    ∙ ap
        (λ t. record {
          status = ok;
          headers =
              standard_headers lexical_cast (rep.content ++ file)
                (extension_to_type (extension_of t));
          content = rep.content ++ file;
        })
        w
