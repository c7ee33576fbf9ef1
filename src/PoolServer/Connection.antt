-- ===== src/PoolServer/Connection.antt =====
-- boost_http_server_2/src/connection.cpp: the connection of the first server without its manager. The
-- parser, the replies and the request handler that it calls have the text of those of the first
-- server.
use boost_learn.Common.{ℕ, ◌≡◌, refl, Option, none, some, List, [], ◌∷◌, Bytes}
use boost_learn.Http.Parser.{initial_state, Parsed, parsed, parse}
use boost_learn.Http.Reply.{Reply, bad_request, to_buffers, stock_reply}
use boost_learn.Http.Request.{Request}
use boost_learn.Http.RequestHandler.{handle_request}
use boost_learn.Http.Tribool.{Tribool, indeterminate}
use boost_learn.Http.Connection
use boost_learn.Http.Connection.{
  Connection, ErrorCode, success, operation_aborted, failure, Call, async_read_some, async_write,
  shutdown_both, manager_stop,
}

unfoldable pub new_connection : Request → Reply → Connection
new_connection req rep = record { parser = initial_state; request = req; reply = rep }

unfoldable pub start : Connection → Connection × List Call
start c = (c, async_read_some ∷ [])

abbrev reply_with : Connection → Reply → Connection × List Call
reply_with c r = (record c { reply = r }, async_write (to_buffers r) ∷ [])

module _ (lexical_cast : ℕ → Bytes) (open_file : Bytes → Option Bytes) (doc_root : Bytes) where
  abbrev decided_by : Tribool → Connection → Connection × List Call
  decided_by Tribool.true c =
      reply_with c (handle_request lexical_cast open_file doc_root c.request c.reply)
  decided_by Tribool.false c = reply_with c (stock_reply lexical_cast bad_request)
  decided_by indeterminate c = (c, async_read_some ∷ [])

  abbrev after_parse : Connection → Parsed → Option (Connection × List Call)
  after_parse c Parsed.fault = none
  after_parse c (parsed t rest s req) = some (decided_by t (record c { parser = s; request = req }))

  -- With any error no operation is started.
  unfoldable pub handle_read : Connection → ErrorCode → Bytes → Option (Connection × List Call)
  handle_read c success bytes = after_parse c (parse c.parser c.request bytes)
  handle_read c _ bytes = some (c, [])

unfoldable pub handle_write : Connection → ErrorCode → Connection × List Call
handle_write c success = (c, shutdown_both ∷ [])
handle_write c _ = (c, [])

-- The calls but for those of the manager.
abbrev pub unmanaged : List Call → List Call
unmanaged [] = []
unmanaged (manager_stop ∷ calls) = unmanaged calls
unmanaged (async_read_some ∷ calls) = async_read_some ∷ unmanaged calls
unmanaged (async_write bs ∷ calls) = async_write bs ∷ unmanaged calls
unmanaged (shutdown_both ∷ calls) = shutdown_both ∷ unmanaged calls

abbrev pub unmanaged_result : Option (Connection × List Call) → Option (Connection × List Call)
unmanaged_result none = none
unmanaged_result (some (c, calls)) = some (c, unmanaged calls)

module _ (lexical_cast : ℕ → Bytes) (open_file : Bytes → Option Bytes) (doc_root : Bytes) where
  parsed_unmanaged :
      (c : Connection) (p : Parsed)
      → after_parse lexical_cast open_file doc_root c p
        ≡ unmanaged_result (Connection.on_parsed lexical_cast open_file doc_root c p)
  parsed_unmanaged c Parsed.fault = refl
  parsed_unmanaged c (parsed Tribool.true rest s r) = refl
  parsed_unmanaged c (parsed Tribool.false rest s r) = refl
  parsed_unmanaged c (parsed indeterminate rest s r) = refl

  -- Both handlers do what those of the first server do, on every branch, but for the calls of the
  -- connection manager.
  pub handlers_unmanaged :
      (c : Connection) (e : ErrorCode) (bytes : Bytes)
      → (handle_read lexical_cast open_file doc_root c e bytes
          ≡ unmanaged_result (Connection.handle_read lexical_cast open_file doc_root c e bytes))
        × (some (handle_write c e) ≡ unmanaged_result (some (Connection.handle_write c e)))
  unfolding handle_read handle_write Connection.handle_read Connection.handle_write
  handlers_unmanaged c success bytes = (parsed_unmanaged c (parse c.parser c.request bytes), refl)
  handlers_unmanaged c operation_aborted bytes = (refl, refl)
  handlers_unmanaged c failure bytes = (refl, refl)
