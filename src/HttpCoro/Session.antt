-- ===== src/HttpCoro/Session.antt =====
-- One connection of boost_http_server_3/server.cpp: the child coroutine that `fork` makes, from the
-- end of the accept loop on. A call of `operator()` is a function of the objects that the coroutine
-- holds and of its arguments, and returns them with the calls that it makes. `none` is undefined
-- behaviour. The debugging output is left out.
pub mod Answers
use boost_learn.Common.{ℕ, Option, none, some, List, [], ◌∷◌, Bytes}
use boost_learn.Http.Reply.{Reply, bad_request, to_buffers, stock_reply}
use boost_learn.Http.RequestHandler.{handle_request}
use boost_learn.Http.Tribool.{Tribool, indeterminate}
use boost_learn.HttpCoro.Request.{Request, basic}
use boost_learn.HttpCoro.Parser.{Place, start, Parsed, parsed, parse}

-- The `yield` of the child behind which it goes on, or its end.
pub data Point : Type 0 where
  reading writing ended : Point

-- `request_parser_` with its `content_length_`, `request_` and `reply_`.
pub record Session : Type 0 where
  pub point : Point
  pub parser : Place
  pub content_length : ℕ
  pub request : Request
  pub reply : Reply

pub data Call : Type 0 where
  async_read_some : Call
  async_write : List Bytes → Call
  shutdown_both : Call

-- The request handler of main.cpp: `file_handler::operator()`, which does with the other fields of a
-- request what `request_handler::handle_request` of the first server does, and nothing with the
-- content.
abbrev pub file_handler : (ℕ → Bytes) → (Bytes → Option Bytes) → Bytes → Request → Reply → Reply
file_handler lexical_cast open_file doc_root req rep =
    handle_request lexical_cast open_file doc_root (basic req) rep

-- The child behind the `fork`: a new buffer and a new request, and the first read. What `new request`
-- and the parser's `content_length_` hold is not read before it is set.
unfoldable pub forked : ℕ → Request → Reply → Session × List Call
forked n req rep = (
  record { point = reading; parser = start; content_length = n; request = req; reply = rep },
  async_read_some ∷ [],
)

-- Strings from sizes, sizes from strings, the handler, and a new reply.
module _ (lexical_cast : ℕ → Bytes) (to_size : Bytes → Option ℕ)
    (request_handler : Request → Reply → Reply) (new_reply : Reply) where
  abbrev answer : Session → Reply → Session × List Call
  answer s r = (record s { point = writing; reply = r }, async_write (to_buffers r) ∷ [])

  -- The loop condition and what is behind the loop.
  abbrev pub on_result : Tribool → Session → Session × List Call
  on_result indeterminate s = (record s { point = reading }, async_read_some ∷ [])
  on_result Tribool.true s = answer s (request_handler s.request new_reply)
  on_result Tribool.false s = answer s (stock_reply lexical_cast bad_request)

  abbrev pub on_parsed : Session → Parsed → Option (Session × List Call)
  on_parsed s Parsed.fault = none
  on_parsed s (parsed t rest p n req) =
      some (on_result t (record s { parser = p; content_length = n; request = req }))

  -- `operator()` without an error; the bytes are those of the buffer, up to `length`.
  unfoldable pub resumes : Bytes → Session → Option (Session × List Call)
  resumes bytes s = elim s.point [
    | reading ↦ on_parsed s (parse to_size s.parser s.content_length s.request bytes)
    | writing ↦ some (record s { point = ended }, shutdown_both ∷ [])
    | ended ↦ some (s, [])
  ]

  -- With an error the coroutine is not entered again, and no operation is started.
  unfoldable pub fails : Session → Session × List Call
  fails s = (s, [])
