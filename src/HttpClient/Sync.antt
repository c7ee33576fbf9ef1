-- ===== src/HttpClient/Sync.antt =====
-- boost_http_server_1/src/sync_client.cpp: the calls block, and one that fails throws.
use boost_learn.Common.{
  ℕ, Bool, true, false, ◌≡◌, refl, sym, ap, ◌∙◌, not, Option, none, some, List, [], ◌∷◌, ◌++◌,
  Bool-cases, inl, inr, append-nil, append_assoc, ◌==◌, if◌then◌else◌, Bytes, codes, equal, take,
  to_decimal,
}
use boost_learn.HttpClient.{
  starts, ErrorCode, success, eof, HttpClient, Waiting, read_headers, header_lines, on_status,
  shows, handle_read_status_line, handle_read_headers, handle_read_content,
}
use boost_learn.HttpClient.Status.{status_line, ends_status}
use boost_learn.HttpClient.Running.{arrives}

module _ (what : ErrorCode → Bytes) where
  -- The loop that reads until an error, with the bytes of each read, and the throw behind it.
  read_rest : List Bytes → ErrorCode → Bytes
  read_rest [] eof = []
  read_rest [] e = codes "Exception: " ++ (what e ++ codes "\n")
  read_rest (bs ∷ more) e = bs ++ read_rest more e

  -- The header lines, with what is in the buffer behind them.
  abbrev show_headers : Bytes × Bytes → Bytes → Bytes
  show_headers (lines, rest) behind = lines ++ (b'\n' ∷ (rest ++ behind))

  -- The stream is the one of the status line: if that has come to the end of the buffer, every further
  -- `getline` fails, and no line is taken.
  abbrev read_lines : Bool → Bytes → Bytes × Bytes
  read_lines true response = ([], response)
  read_lines false response = header_lines [] response

  -- What was read of the status line, if the stream did not fail.
  abbrev after_status : Bool → Option (Bytes × ℕ × Bytes) → Bytes → Bytes → Bytes
  after_status at_end none second behind = codes "Invalid response\n"
  after_status at_end (some (http_version, status_code, rest)) second behind =
      if not (equal (take 5 http_version) (codes "HTTP/"))
      then codes "Invalid response\n"
      else if not (status_code == 200)
      then codes "Response returned with status code " ++ (to_decimal status_code ++ codes "\n")
      else show_headers (read_lines at_end (rest ++ second)) behind

  -- What `main` prints from the status line on, when nothing has failed before: the bytes that the
  -- two calls of `read_until` left in the buffer, and then the reads up to the error.
  unfoldable pub main_prints : Bytes → Bytes → List Bytes → ErrorCode → Bytes
  unfolding read_rest
  main_prints first second more e =
      after_status (ends_status first) (status_line first) second (read_rest more e)

module _ (message code what : ErrorCode → Bytes) where
  -- The handler of the content, once for each read.
  abbrev all_content : List Bytes → HttpClient → HttpClient
  all_content [] c = handle_read_content message code eof c
  all_content (bs ∷ more) c =
      all_content more (handle_read_content message code success (arrives bs c))

  -- The handlers of the other client in turn, as far as it goes on, with the same bytes.
  abbrev behind_status : Bytes → List Bytes → Waiting → HttpClient → HttpClient
  behind_status second more read_headers c =
      all_content more (handle_read_headers message code success (arrives second c))
  behind_status second more _ c = c

  abbrev pub drive : Bytes → Bytes → List Bytes → HttpClient → HttpClient
  drive first second more c =
      let d = handle_read_status_line message code success (arrives first c) in
      behind_status second more d.waiting d

  output-all_content :
      (more : List Bytes) (c : HttpClient)
      → c.response_ ≡ []
      → (all_content more c).output ≡ c.output ++ read_rest what more eof
  unfolding handle_read_content read_rest
  output-all_content [] c e = rw append-nil
  output-all_content (bs ∷ more) c e =
      output-all_content more (handle_read_content message code success (arrives bs c)) refl
      ∙ rw (e, append_assoc) refl

  shown_all :
      (read : Bytes × Bytes) (more : List Bytes) (c : HttpClient)
      → c.output ≡ []
      → show_headers what read (read_rest what more eof)
        ≡ (all_content more (shows message code read c)).output
  shown_all (lines, rest) more c o = sym (
      output-all_content more (shows message code (lines, rest) c) refl
      ∙ ap (λ t. (t ++ (lines ++ (b'\n' ∷ rest))) ++ read_rest what more eof) o
      ∙ append_assoc lines (b'\n' ∷ rest) (read_rest what more eof))

  by_status :
      (read : Option (Bytes × ℕ × Bytes)) (second : Bytes) (more : List Bytes) (c : HttpClient)
      → c.output ≡ []
      → after_status what false read second (read_rest what more eof)
        ≡ (let d = on_status message code read c in behind_status second more d.waiting d).output
  unfolding handle_read_headers
  by_status none second more c o = rw o refl
  by_status (some (v, n, rest)) second more c o =
      elim (Bool-cases (equal (take 5 v) (codes "HTTP/"))) [
        | inr other ↦ rw (other, o) refl
        | inl http ↦ elim (Bool-cases (n == 200)) [
          | inr other ↦ rw (http, other, o) refl
          | inl found ↦
              rw (http, found)
                (shown_all (header_lines [] (rest ++ second)) more
                  (starts read_headers (record c { response_ = rest ++ second })) o)
        ]
      ]

  -- From the status line on, where every read succeeds up to the end of the file, and where the newline
  -- of the status line has come with it, the client that blocks prints what the handlers of the other one
  -- print for the same bytes.
  pub main_prints-drive :
      (first second : Bytes) (more : List Bytes) (c : HttpClient)
      → ends_status first ≡ false
      → c.response_ ≡ []
      → c.output ≡ []
      → main_prints what first second more eof ≡ (drive first second more c).output
  unfolding main_prints handle_read_status_line handle_read_headers
  main_prints-drive first second more c n r o =
      ap (λ b. after_status what b (status_line first) second (read_rest what more eof)) n
      ∙ rw (r, o)
          (by_status (status_line first) second more (record c { response_ = first; output = [] })
            refl)
