-- ===== src/Chat/Client/Running.antt =====
-- The runs of the client, in any order of completions.
use boost_learn.Common.{ℕ, ◌≡◌, ◌≢◌, Bool, true, false, some, List, [], ◌∷◌, ◌++◌, Bytes}
use boost_learn.Chat.Message.{ChatMessage, overwrite, header_length}
use boost_learn.Chat.Session.{was_sent, was_not_sent, header, body, idle}
use boost_learn.Chat.Client.{
  Client, new_client, handle_connect, handle_read_header, handle_read_body, do_write, do_close,
  handle_write,
}

-- Bytes arrive in the message, from this offset.
abbrev pub arrives : ℕ → Bytes → Client → Client
arrives offset bs c = record c {
  link = record c.link {
    read_msg = record c.link.read_msg { data_ = overwrite offset bs c.link.read_msg.data_ };
    reading = idle;
  };
}

unfoldable pub write_ends : Bool → Client → Client
unfolding was_sent was_not_sent
write_ends true c = record c { link = was_not_sent c.link }
write_ends false c = record c { link = was_sent c.link }

-- A run, with the messages that the user wrote so far: the posted calls run in the order of the posts,
-- in any order with the completions.
pub data Reach (first : ChatMessage) : List ChatMessage → Client → Type 0 where
  begins : Reach first [] (new_client first)
  connects :
      {ms : List ChatMessage} {c : Client} (error : Bool)
      → Reach first ms c
      → Reach first ms (handle_connect error c)
  reads_header :
      {ms : List ChatMessage} {c : Client} (error : Bool) (bs : Bytes)
      → c.link.reading ≡ header
      → Reach first ms c
      → Reach first ms (handle_read_header error (arrives 0 bs c))
  reads_body :
      {ms : List ChatMessage} {c : Client} (error : Bool) (bs : Bytes)
      → c.link.reading ≡ body
      → Reach first ms c
      → Reach first ms (handle_read_body error (arrives header_length bs c))
  writes :
      {ms : List ChatMessage} {c : Client} (m : ChatMessage)
      → Reach first ms c
      → Reach first (ms ++ m ∷ []) (do_write m c)
  closes : {ms : List ChatMessage} {c : Client} → Reach first ms c → Reach first ms (do_close c)
  written :
      {ms : List ChatMessage} {c : Client} (error : Bool) (d : Client)
      → c.link.writing ≢ []
      → handle_write error (write_ends error c) ≡ some d
      → Reach first ms c
      → Reach first ms d
