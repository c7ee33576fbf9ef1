-- ===== src/Http/Connection.antt =====
-- boost_http_server_1/src/connection.cpp. A handler is a function of the connection and of the
-- arguments of the completion, and returns the connection with the calls that it makes. The socket
-- is not part of the state: it is in those calls. `none` is undefined behaviour.
pub mod Chunks
pub mod Answers
use boost_learn.Common.{ℕ, Option, none, some, List, [], ◌∷◌, Bytes}
use boost_learn.Http.Parser.{State, initial_state, Parsed, parsed, parse}
use boost_learn.Http.Reply.{Reply, bad_request, to_buffers, stock_reply}
use boost_learn.Http.Request.{Request}
use boost_learn.Http.RequestHandler.{handle_request}
use boost_learn.Http.Tribool.{Tribool, indeterminate}

-- `boost::system::error_code`, as far as the handlers tell errors apart.
pub data ErrorCode : Type 0 where
  success operation_aborted failure : ErrorCode

-- `request_parser_`, `request_` and `reply_`.
pub record Connection : Type 0 where
  pub parser : State
  pub request : Request
  pub reply : Reply

-- What a handler asks of the socket and of the connection manager.
pub data Call : Type 0 where
  async_read_some : Call
  async_write : List Bytes → Call
  shutdown_both : Call
  manager_stop : Call

-- The constructor: the parser is in its first state, and nothing has been read or written.
unfoldable pub new_connection : Request → Reply → Connection
new_connection req rep = record { parser = initial_state; request = req; reply = rep }

unfoldable pub start : Connection → Connection × List Call
start c = (c, async_read_some ∷ [])

abbrev send : Connection → Reply → Connection × List Call
send c r = (record c { reply = r }, async_write (to_buffers r) ∷ [])

module _ (lexical_cast : ℕ → Bytes) (open_file : Bytes → Option Bytes) (doc_root : Bytes) where
  -- The three branches on the parser's result.
  abbrev on_result : Tribool → Connection → Connection × List Call
  on_result Tribool.true c =
      send c (handle_request lexical_cast open_file doc_root c.request c.reply)
  on_result Tribool.false c = send c (stock_reply lexical_cast bad_request)
  on_result indeterminate c = (c, async_read_some ∷ [])

  abbrev pub on_parsed : Connection → Parsed → Option (Connection × List Call)
  on_parsed c Parsed.fault = none
  on_parsed c (parsed t rest s req) = some (on_result t (record c { parser = s; request = req }))

  -- The bytes are those of the buffer, up to `bytes_transferred`.
  unfoldable pub handle_read : Connection → ErrorCode → Bytes → Option (Connection × List Call)
  handle_read c success bytes = on_parsed c (parse c.parser c.request bytes)
  handle_read c operation_aborted bytes = some (c, [])
  handle_read c failure bytes = some (c, manager_stop ∷ [])

unfoldable pub handle_write : Connection → ErrorCode → Connection × List Call
handle_write c success = (c, shutdown_both ∷ manager_stop ∷ [])
handle_write c operation_aborted = (c, [])
handle_write c failure = (c, manager_stop ∷ [])
