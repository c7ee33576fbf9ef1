-- ===== src/Chat/PosixClient/Receiving.antt =====
-- What the receiving side of the client does to the message, and to what is being written.
use boost_learn.Common.{
  ℕ, ◌+◌, ◌≤◌, ◌≡◌, ◌≢◌, refl, sym, ap, ◌∙◌, Bool, true, false, List, [], ◌∷◌, ◌++◌, append-nil,
  append_assoc, arith, Bytes, length, take, drop, take-front, drop-front, take-append-drop,
  length-append, length-take, length-drop,
}
use boost_learn.Chat.Message.{
  ChatMessage, overwrite, header_length, decode_header, encode_header, set_body_length,
}
use boost_learn.Chat.Message
use boost_learn.Chat.Message.Header.{decode_header-bound}
use boost_learn.Chat.Session.{Reading, header, idle}
use boost_learn.Chat.PosixClient.{
  PosixClient, handle_read_header, handle_read_body, handle_write_output, close, on_header,
}
use boost_learn.Chat.PosixClient.Running.{arrives}

-- Each body with its newline.
abbrev pub printed : List Bytes → Bytes
printed [] = []
printed (m ∷ ms) = (m ++ b'\n' ∷ []) ++ printed ms

printed-last :
    (ms : List Bytes) (m : Bytes) → printed (ms ++ m ∷ []) ≡ printed ms ++ (m ++ b'\n' ∷ [])
printed-last [] m = append-nil _
printed-last (x ∷ ms) m =
    ap (◌++◌ (x ++ b'\n' ∷ [])) (printed-last ms m)
    ∙ sym (append_assoc (x ++ b'\n' ∷ []) (printed ms) (m ++ b'\n' ∷ []))

abbrev joined : List Bytes → Bytes
joined [] = []
joined (b ∷ bs) = b ++ joined bs

-- The body that was read into the message is found there.
body-overwrite :
    (bs old : Bytes)
    → header_length ≤ length old
    → take (length bs) (drop header_length (overwrite header_length bs old)) ≡ bs
body-overwrite bs old h =
    ap (λ t. take (length bs) (drop header_length t))
      (append_assoc (take header_length old) bs (drop (header_length + length bs) old))
    ∙ ap (take (length bs)) (
        drop-front header_length (take header_length old) _
          (omega (arith, length-take header_length old, h)))
    ∙ take-front (length bs) bs _ refl

overwrite_size :
    (offset : ℕ) (bs old : Bytes)
    → offset ≤ length old
    → length old ≤ length (overwrite offset bs old)
overwrite_size offset bs old h = omega (
  arith,
  length-append (take offset old ++ bs) (drop (offset + length bs) old),
  length-append (take offset old) bs,
  length-take offset old,
  length-drop (offset + length bs) old,
)

-- The output has all that was received, or all but what is being written to it, or it has failed.
pub data InStep (ms : List Bytes) (out : Bytes) (c : PosixClient) : Type 0 where
  listens : c.writing_output ≡ [] → out ≡ printed ms → InStep ms out c
  shows :
      (b : Bytes)
      → c.reading ≡ idle
      → c.writing_output ≡ b ∷ []
      → out ++ b ≡ printed ms
      → InStep ms out c
  stopped :
      (rest : Bytes)
      → c.reading ≡ idle
      → c.writing_output ≡ []
      → printed ms ≡ out ++ rest
      → InStep ms out c

abbrev pub Good : List Bytes → Bytes → PosixClient → Type 0
Good ms out c = (header_length ≤ length c.read_msg.data_) × InStep ms out c

-- While a read is outstanding nothing is being written.
reading-listens :
    (ms : List Bytes) (out : Bytes) (c : PosixClient)
    → c.reading ≢ idle
    → InStep ms out c
    → (c.writing_output ≡ []) × (out ≡ printed ms)
reading-listens ms out c n (listens w e) = (w, e)
reading-listens ms out c n (shows b i w e) = absurd (n i)
reading-listens ms out c n (stopped rest i w e) = absurd (n i)

-- A change that leaves the receiving side alone.
pub same-Good :
    (ms : List Bytes) (out : Bytes) (c d : PosixClient)
    → d.read_msg ≡ c.read_msg
    → d.reading ≡ c.reading
    → d.writing_output ≡ c.writing_output
    → Good ms out c
    → Good ms out d
same-Good ms out c d m r w (size, listens a e) = (rw m size, listens (w ∙ a) e)
same-Good ms out c d m r w (size, shows b i a e) = (rw m size, shows b (r ∙ i) (w ∙ a) e)
same-Good ms out c d m r w (size, stopped rest i a e) = (rw m size, stopped rest (r ∙ i) (w ∙ a) e)

decoded-Good :
    (r : Bool × ChatMessage) (ms : List Bytes) (out : Bytes) (c : PosixClient)
    → header_length ≤ length r.1.data_
    → c.writing_output ≡ []
    → out ≡ printed ms
    → Good ms out (on_header r c)
unfolding on_header
decoded-Good (true, m) ms out c size w e = (size, listens w e)
decoded-Good (false, m) ms out c size w e = (size, listens w e)

pub header-Good :
    (error : Bool) (bs : Bytes) (ms : List Bytes) (out : Bytes) (c : PosixClient)
    → c.reading ≡ header
    → Good ms out c
    → Good ms out (handle_read_header error (arrives 0 bs c))
unfolding handle_read_header close
header-Good true bs ms out c r (size, s) =
    let (w, e) = reading-listens ms out c (ground arith) s in
    (omega (arith, size, overwrite_size 0 bs c.read_msg.data_ (omega arith)), listens w e)
header-Good false bs ms out c r (size, s) =
    let (w, e) = reading-listens ms out c (ground arith) s in
    let big = overwrite_size 0 bs c.read_msg.data_ (omega arith) in
    decoded-Good (decode_header (arrives 0 bs c).read_msg) ms out (arrives 0 bs c)
      (rw (decode_header-bound (arrives 0 bs c).read_msg).1 (omega (arith, size, big))) w e

pub body-Good :
    (bs : Bytes) (ms : List Bytes) (out : Bytes) (c : PosixClient)
    → c.reading ≡ Reading.body
    → length bs ≡ c.read_msg.body_length
    → Good ms out c
    → Good (ms ++ bs ∷ []) out (handle_read_body false (arrives header_length bs c))
unfolding handle_read_body
body-Good bs ms out c r size_is (size, s) =
    let (w, e) = reading-listens ms out c (ground arith) s in
    let b = Message.body (arrives header_length bs c).read_msg in
    let is : b ≡ bs =
      ap (λ n. take n (drop header_length (overwrite header_length bs c.read_msg.data_)))
        (sym size_is)
      ∙ body-overwrite bs c.read_msg.data_ size in
    (
      omega (arith, size, overwrite_size header_length bs c.read_msg.data_ size),
      shows (b ++ b'\n' ∷ []) refl (ap (λ t. t ++ (b ++ b'\n' ∷ []) ∷ []) w) (
          ap (◌++◌ out) (ap (λ t. t ++ b'\n' ∷ []) is)
          ∙ ap (λ t. t ++ (bs ++ b'\n' ∷ [])) e
          ∙ sym (printed-last ms bs)),
    )

pub fails_body-Good :
    (bs : Bytes) (ms : List Bytes) (out : Bytes) (c : PosixClient)
    → c.reading ≡ Reading.body
    → Good ms out c
    → Good ms out (handle_read_body true (arrives header_length bs c))
unfolding handle_read_body close
fails_body-Good bs ms out c r (size, s) =
    let (w, e) = reading-listens ms out c (ground arith) s in
    (omega (arith, size, overwrite_size header_length bs c.read_msg.data_ size), listens w e)

-- The one write that is outstanding.
writing-shows :
    (ms : List Bytes) (out : Bytes) (c : PosixClient) (b : Bytes) (bs : List Bytes)
    → c.writing_output ≡ b ∷ bs
    → InStep ms out c
    → (c.reading ≡ idle) × (bs ≡ []) × (out ++ b ≡ printed ms)
writing-shows ms out c b bs h (listens w e) = absurd (ground arith)
writing-shows ms out c b bs h (shows d i w e) =
    let same : b ≡ d = ground arith in (i, ground arith, rw same e)
writing-shows ms out c b bs h (stopped rest i w e) = absurd (ground arith)

pub output-Good :
    (ms : List Bytes) (out : Bytes) (c : PosixClient) (b : Bytes) (bs : List Bytes)
    → c.writing_output ≡ b ∷ bs
    → Good ms out c
    → Good ms (out ++ b) (handle_write_output false (record c { writing_output = bs }))
unfolding handle_write_output
output-Good ms out c b bs h (size, s) =
    let (i, none_left, e) = writing-shows ms out c b bs h s in (size, listens none_left e)

pub fails_output-Good :
    (ms : List Bytes) (out : Bytes) (c : PosixClient) (b : Bytes) (bs : List Bytes) (n : ℕ)
    → c.writing_output ≡ b ∷ bs
    → Good ms out c
    → Good ms (out ++ take n b) (handle_write_output true (record c { writing_output = bs }))
unfolding handle_write_output close
fails_output-Good ms out c b bs n h (size, s) =
    let (i, none_left, e) = writing-shows ms out c b bs h s in
    (
      size,
      stopped (drop n b) i none_left (
          sym e
          ∙ ap (◌++◌ out) (sym (take-append-drop n b))
          ∙ sym (append_assoc out (take n b) (drop n b))),
    )
