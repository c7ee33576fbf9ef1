-- ===== src/Tests/ServerTests.antt =====
-- A run of the server of boost_asio/cpp_03_example/boost_http_server_1: a connection is accepted.
use boost_learn.Common.{◌+◌, ◌≡◌, refl, true, Option, none, some, Bytes, codes, to_decimal, arith}
use boost_learn.Http.Connection.{
  Connection, success, failure, new_connection, handle_read, handle_write,
}
use boost_learn.PoolServer
use boost_learn.PoolServer.Connection.{unmanaged_result, handlers_unmanaged}
use boost_learn.Http.Server.{Server, listening, handle_accept, accept_completes}
use boost_learn.Http.Server.Invariant.{Reach-accepts, Reach-managed}
use boost_learn.Http.Server.Running.{Reach, begins, steps, accepted}
use boost_learn.Tests.HttpTests.{one_file, no_request, no_reply}

abbrev no_files : Bytes → Option Bytes
no_files name = none

abbrev fresh : Connection
unfolding new_connection
fresh = new_connection no_request no_reply

abbrev one_accepted : Server
unfolding handle_accept listening
one_accepted = handle_accept fresh success (accept_completes success (listening fresh))

one_accepted-Reach : Reach to_decimal no_files (codes "/www") fresh one_accepted
unfolding one_accepted listening
one_accepted-Reach = steps begins (accepted success (omega arith) (λ e. ground arith))

Reach-accepts_example : one_accepted.accepts ≡ 1
unfolding one_accepted handle_accept listening
Reach-accepts_example =
    Reach-accepts to_decimal no_files (codes "/www") fresh one_accepted one_accepted-Reach refl

Reach-managed_example :
    (one_accepted.reads 0 + one_accepted.writes 0 ≡ 1)
    × (one_accepted.socket 0 ≡ true)
    × (one_accepted.is_open ≡ true)
unfolding one_accepted handle_accept listening
Reach-managed_example =
    Reach-managed to_decimal no_files (codes "/www") fresh one_accepted 0 one_accepted-Reach refl

handlers_unmanaged_example :
    (PoolServer.Connection.handle_read to_decimal one_file
        (codes "/www")
        (new_connection no_request no_reply)
        failure
        (codes "GET")
      ≡ unmanaged_result (
          handle_read to_decimal one_file
            (codes "/www")
            (new_connection no_request no_reply)
            failure
            (codes "GET")))
    × (some (PoolServer.Connection.handle_write (new_connection no_request no_reply) failure)
        ≡ unmanaged_result (some (handle_write (new_connection no_request no_reply) failure)))
handlers_unmanaged_example =
    handlers_unmanaged to_decimal one_file (codes "/www") (new_connection no_request no_reply)
      failure (codes "GET")
