-- ===== src/Lib.antt =====
-- The programs of this repository, modelled and verified: the HTTP servers boost_http_server_1 and
-- boost_http_server_3 of boost_asio/cpp_03_example with their clients, the chat of
-- boost_asio/cpp_03_example, the io_context pool, the server and the connection of
-- boost_http_server_2, the echo server of allocation_server.cpp with its handler memory, the
-- daytime servers of boost_asio/server/daytime7.cpp, the daemon of daemon.cpp, the timers of
-- boost_asio/timer/timer4.cpp, and the unrolled copies of boost_asio/duff.cpp.
--
-- The HTTP server accepts connections, and hands each one to a manager that keeps it in a set
-- while an operation of it is outstanding. A connection reads bytes, runs them through the request
-- parser, and asks for more bytes until the parser decides; then it writes the reply of the
-- request handler, or that of a bad request, and gives itself up. The server of coroutines does
-- the same with one coroutine that accepts and forks a child for each connection; its parser, a
-- coroutine too, also reads the content that a request announces. The HTTP clients ask for a path,
-- and show the header lines and the content of the reply. The chat server keeps a room; each
-- session reads messages from its client, delivers them to the room, and the room hands them to
-- every session's queue, which is written out one message at a time. The chat client has such a
-- queue too, and both sides use the same message. A session of the echo server keeps the handlers
-- of its operations in a block of its own.
--
-- - Http/Request, Http/Tribool, Http/Chars, Http/Parser: src/request_parser.cpp and .hpp of
--   boost_http_server_1, `consume` with one clause for each state and `parse` as the loop. Its
--   children hold the grammar of requests (Message), that its messages are accepted (Accepts) and
--   nothing else (Sound), and that the parser neither faults (Safety) nor depends on how the input
--   is cut (Chunks, Prefix).
-- - Http/UrlDecode: `request_handler::url_decode`, with what a stream in `std::hex` reads of two
--   characters. Its children describe the escapes without that reader (Escapes), the encoded texts
--   (Encodes), and an encoder (RoundTrip).
-- - Http/Reply, Http/MimeTypes: reply.cpp and mime_types.cpp.
-- - Http/RequestHandler: `request_handler::handle_request`.
-- - Http/Connection: connection.cpp, the handlers as functions that return the calls they make.
-- - Http/Server: server.cpp and connection_manager.cpp; Server/Running has the runs, in which
--   completions and signals come in any order, and Server/Invariant what holds of all of them.
-- - HttpCoro/Parser: request_parser.cpp and .hpp of boost_http_server_3, `consume` with one clause
--   for each place where the coroutine goes on. Parser/View sees it as the first parser,
--   Parser/Steps, Refines and Completes prove the two simulations, and Parser/Messages draws from
--   them what is accepted. HttpCoro/Session: a child of server.cpp. HttpCoro/Server: the parent,
--   with its runs (Running) and what holds of them (Invariant, Operations).
-- - HttpClient: async_client.cpp of boost_http_server_1, with how a stream reads the status line
--   (Status), the runs (Running), what is shown (Cuts, Lines, Shows, Refused, Headerless), the
--   client of sync_client.cpp (Sync), and the client against the server (Fetch).
-- - Chat/Message: chat_message.hpp. Chat/Session, Chat/Room: chat_server.cpp; Room/Running has the
--   runs, and Room/Serving, Room/Keeps, Room/Delivery, Room/Fits, Room/Bounds and Room/Relay what
--   holds of them. Chat/Client: chat_client.cpp, with its runs (Running, Sending) and what its
--   `main` makes of a line (Lines). Chat/PosixClient: posix_chat_cline.cpp, with what it makes of
--   a line of input (Input), its runs (Running) and what it prints (Receiving, Printing).
-- - Duff: boost_asio/duff.cpp. IoContextPool, PoolServer:
--   boost_http_server_2/src/io_context_pool.cpp (RoundRobin the turns, Threads and Returns the
--   threads of `run`), server.cpp (Turns, Stops) and connection.cpp. HandlerMemory, EchoSession:
--   the memory and the session of allocation_server.cpp; EchoSession/Server: its server with the
--   runs, and what holds of them (Apart). Daytime: boost_asio/server/daytime7.cpp, with the runs
--   in Replies. Daemon: daemon.cpp, how its `main` becomes a daemon (Detached) and its server
--   (Receives). Timers: boost_asio/timer/timer4.cpp, with the runs in Counts.
-- - Common: lists, strings of bytes and decimal digits. Tests: the theorems at concrete inputs.
--
-- A `char` is its byte, 0 to 255, and a string a list of bytes; a byte of 128 or more is a
-- negative `char`, which the character tests refuse as they do there. An `int` of the parser wraps
-- at 32 bits, `std::size_t` at 64. `none` and `fault` stand for undefined behaviour or for an
-- exception, as said at each definition.
--
-- The loops are recursions on their lists. Two have fuel: `read_all`, which reads a file by 512
-- bytes, has one more than the length of the file, and would return `none` if that were too
-- little, which is proved not to happen; `digits` of Common/Decimal has one more than the number,
-- which has no more digits than that.
--
-- The coroutine parser takes a further parameter `lexical_cast` (`to_size` in the server) that
-- reads a size and fails where the library throws; the clients take the texts of error codes.
--
-- Parameters: `open_file` is the file system, the content of each file that can be opened;
-- `lexical_cast` prints numbers in decimal, and where a theorem needs that, it says so.
-- `handler_size` is what the library asks the handler memory for, for each operation; it gives a
-- block back before it runs the handler. For the daemon, what `fork`, `open` and `dup` return. The
-- network and the scheduler are the step relations: an operation completes, with or without an
-- error, at any time; one that was asked for so many bytes, or up to a delimiter, without an error
-- has them all; an operation fails as aborted only if its socket or acceptor was closed.
--
-- Not modelled: the files of boost_http_server_2 and boost_http_server_3 that have the text of
-- files of boost_http_server_1, whose models stand for them, reference_counted.cpp, the other
-- programs of boost_asio/server and boost_asio/timer, which are parts of the modelled ones or
-- straight calls of the library, and the short experiments. Of the parts that are modelled, not:
-- the resolver and the socket options, the registration of signals, the chat client's thread, and
-- the lifetime of objects behind shared pointers.
mod Common
pub mod Chat
pub mod Daemon
pub mod Daytime
pub mod Duff
pub mod EchoSession
pub mod HandlerMemory
pub mod Http
pub mod HttpCoro
pub mod HttpClient
pub mod IoContextPool
pub mod PoolServer
pub mod Timers
mod Tests
