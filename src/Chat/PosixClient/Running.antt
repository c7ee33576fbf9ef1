-- ===== src/Chat/PosixClient/Running.antt =====
-- The runs of the client, in any order of completions.
use boost_learn.Common.{ℕ, ◌≡◌, Bool, true, false, some, List, [], ◌∷◌, ◌++◌, Bytes, length, take}
use boost_learn.Chat.Message.{ChatMessage, overwrite, header_length}
use boost_learn.Chat.Session.{header, body, idle}
use boost_learn.Chat.PosixClient.{
  InputResult, PosixClient, new_client, handle_connect, handle_read_header, handle_read_body,
  handle_write_output, handle_read_input, handle_write,
}

-- Bytes arrive in the message, from this offset.
abbrev pub arrives : ℕ → Bytes → PosixClient → PosixClient
arrives offset bs c = record c {
  read_msg = record c.read_msg { data_ = overwrite offset bs c.read_msg.data_ };
  reading = idle;
}

-- A run, with the bodies that have been received and the bytes that the output has got. The first
-- message is the one that is read into. A write that fails may have written a part.
pub data Reach (first : ChatMessage) : List Bytes → Bytes → PosixClient → Type 0 where
  begins : (w : ChatMessage) → Reach first [] [] (new_client first w)
  connects :
      (w : ChatMessage) (error : Bool)
      → Reach first [] [] (handle_connect error (new_client first w))
  reads_header :
      {ms : List Bytes} {out : Bytes} {c : PosixClient} (error : Bool) (bs : Bytes)
      → c.reading ≡ header
      → (error ≡ false → length bs ≡ header_length)
      → Reach first ms out c
      → Reach first ms out (handle_read_header error (arrives 0 bs c))
  reads_body :
      {ms : List Bytes} {out : Bytes} {c : PosixClient} (bs : Bytes)
      → c.reading ≡ body
      → length bs ≡ c.read_msg.body_length
      → Reach first ms out c
      → Reach first (ms ++ bs ∷ []) out (handle_read_body false (arrives header_length bs c))
  fails_body :
      {ms : List Bytes} {out : Bytes} {c : PosixClient} (bs : Bytes)
      → c.reading ≡ body
      → Reach first ms out c
      → Reach first ms out (handle_read_body true (arrives header_length bs c))
  writes_output :
      {ms : List Bytes} {out : Bytes} {c : PosixClient} (b : Bytes) (bs : List Bytes)
      → c.writing_output ≡ b ∷ bs
      → Reach first ms out c
      → Reach first ms (out ++ b) (handle_write_output false (record c { writing_output = bs }))
  fails_output :
      {ms : List Bytes} {out : Bytes} {c : PosixClient} (b : Bytes) (bs : List Bytes) (n : ℕ)
      → c.writing_output ≡ b ∷ bs
      → Reach first ms out c
      → Reach first ms
          (out ++ take n b)
          (handle_write_output true (record c { writing_output = bs }))
  reads_input :
      {ms : List Bytes} {out : Bytes} {c : PosixClient} (result : InputResult) (n : ℕ) (bs : Bytes)
      (d : PosixClient)
      → c.reads_input ≡ true
      → handle_read_input result n (record c { input_buffer = c.input_buffer ++ bs }) ≡ some d
      → Reach first ms out c
      → Reach first ms out d
  written :
      {ms : List Bytes} {out : Bytes} {c : PosixClient} (error : Bool) (b : Bytes) (bs : List Bytes)
      → c.writing ≡ b ∷ bs
      → Reach first ms out c
      → Reach first ms out (handle_write error (record c { writing = bs }))
