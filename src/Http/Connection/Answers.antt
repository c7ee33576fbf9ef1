-- ===== src/Http/Connection/Answers.antt =====
-- What a connection answers, from the bytes of the client to the reply.
use boost_learn.Common.{ℕ, ◌≡◌, ap, ◌∙◌, Option, some, List, [], ◌∷◌, Bytes}
use boost_learn.Http.Parser.{initial_state, parse, expecting_newline_3}
use boost_learn.Http.Parser.Accepts.{parse-render}
use boost_learn.Http.Parser.Message.{Message, IsMessage, render, request_of}
use boost_learn.Http.Reply.{Reply, to_buffers}
use boost_learn.Http.Request.{Request}
use boost_learn.Http.RequestHandler.{handle_request}
use boost_learn.Http.Connection.{async_write, new_connection, handle_read, on_parsed}
use boost_learn.Http.Connection.Chunks.{joined, feed, feed-joined}

module _ (lexical_cast : ℕ → Bytes) (open_file : Bytes → Option Bytes) (doc_root : Bytes) where
  -- A client that sends a message of the grammar, in any pieces and with any bytes behind it, is
  -- sent what the request handler makes of the request that the message stands for, and nothing else.
  pub feed-render :
      (m : Message) (rest : Bytes) (bs : List Bytes) (req : Request) (rep : Reply)
      → IsMessage m
      → joined bs ≡ render m rest
      → let r = handle_request lexical_cast open_file doc_root (request_of m req) rep in
        feed lexical_cast open_file doc_root (new_connection req rep) bs
        ≡ some (
          record { parser = expecting_newline_3; request = request_of m req; reply = r },
          async_write (to_buffers r) ∷ [],
        )
  unfolding handle_read new_connection
  feed-render m rest bs req rep good e =
      feed-joined lexical_cast open_file doc_root bs (new_connection req rep)
      ∙ ap
          (λ t.
            on_parsed lexical_cast open_file doc_root (new_connection req rep)
              (parse initial_state req t))
          e
      ∙ ap (on_parsed lexical_cast open_file doc_root (new_connection req rep))
          (parse-render m rest req good)
