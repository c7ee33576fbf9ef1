-- ===== src/Tests/ServiceTests.antt =====
-- The echo server of allocation_server.cpp, the daytime server of daytime7.cpp, the timers of timer4.cpp
-- and the daemon of daemon.cpp.
use boost_learn.Common.{
  ℕ, ◌+◌, ◌≤◌, ◌≡◌, refl, true, false, Option, none, some, [], ◌∷◌, codes, arith, ltb,
  if◌then◌else◌,
}
use boost_learn.HandlerMemory.{storage}
use boost_learn.EchoSession
use boost_learn.EchoSession.{Operation, handle_read, arrives}
use boost_learn.EchoSession.Server.{
  EchoServer, server, handle_accept, accept_completes, puts, begins, accepted,
}
use boost_learn.Daytime
use boost_learn.Daytime.{
  TcpServer, UdpServer, tcp_server, udp_server, handle_receive, start_accept, start_receive,
}
use boost_learn.Daytime.Replies
use boost_learn.Daytime.Replies.{receive_completes, not_received, received, Reach-replies}
use boost_learn.Timers.{Printer, printer, print1, fires1, fires2}
use boost_learn.Timers.Counts
use boost_learn.Timers.Counts.{first, second, numbers, below, Reach-numbers}
use boost_learn.Daemon.{File, inherited, Descriptors, Process, child, become_daemon}
use boost_learn.Daemon.Detached.{IsLowest, Ending, become_daemon-IsDetached}

-- The handler of a write does not fit.
abbrev sizes : Operation → ℕ
sizes EchoSession.reading = 64
sizes (EchoSession.writing bs) = 2000

-- Two accepts; the first session reads two bytes.
abbrev two_accepted : EchoServer
two_accepted =
    handle_accept sizes (λ k. []) false
      (accept_completes sizes (λ k. [])
        (handle_accept sizes (λ k. []) false
          (accept_completes sizes (λ k. []) (server sizes (λ k. [])))))

abbrev one_read : EchoServer
one_read =
    puts 0 (handle_read sizes false 2 (arrives sizes storage (codes "hi") (two_accepted.session 0)))
      two_accepted

-- One connection, one datagram, and a receive that fails.
abbrev tcp_served : TcpServer
tcp_served =
    Daytime.handle_accept false (codes "noon") (Daytime.Replies.accept_completes tcp_server)

abbrev udp_served : UdpServer
udp_served =
    handle_receive true []
      (receive_completes 9 (handle_receive false (codes "one") (receive_completes 5 udp_server)))

Reach-replies_example :
    (tcp_served.writes ≡ (0, codes "noon") ∷ [])
    × (udp_served.sends ≡ (5, codes "one") ∷ [])
    × (tcp_served.accepts ≡ 1)
    × (udp_served.receives + 1 ≡ 1)
unfolding tcp_server udp_server Daytime.handle_accept handle_receive start_accept start_receive
Reach-replies_example = Reach-replies (
    not_received 9 [] (omega arith) (
      received 5 (codes "one") (omega arith)
        (Daytime.Replies.accepted (codes "noon") (omega arith) Daytime.Replies.begins)))

abbrev fired_twice : Printer
fired_twice = fires2 (fires1 printer)

Reach-numbers_example :
    (numbers fired_twice.output ≡ below fired_twice.count) × (fired_twice.count ≤ 10) × (2 ≤ 12)
unfolding printer print1
Reach-numbers_example = Reach-numbers (second refl (first refl Counts.begins))

-- A system of three descriptors.
abbrev lowest : Option File → Option File → Option File → Option ℕ
lowest none b c = some 0
lowest (some f) none c = some 1
lowest (some f) (some g) none = some 2
lowest (some f) (some g) (some h) = none

abbrev lowest_of : Descriptors → Option ℕ
lowest_of d = lowest (d 0) (d 1) (d 2)

lowest_of-IsLowest : (d : Descriptors) (n : ℕ) → lowest_of d ≡ some n → IsLowest d n
lowest_of-IsLowest d n e = record {
  free = ground (arith, e);
  taken = λ m h e'. ground (arith, e, h, e');
}

abbrev shell : Process
shell = record {
  descriptors = λ n. if ltb n 3 then some (inherited n) else none;
  session_leader = false;
  in_root = false;
  mask_cleared = false;
  notified = [];
  logged = [];
}

-- In both children it runs.
become_daemon-IsDetached_example :
    Ending
      (λ f. lowest_of)
      (λ fd. lowest_of)
      child
      child
      shell
      (become_daemon (λ f. lowest_of) (λ fd. lowest_of) child child shell)
become_daemon-IsDetached_example =
    become_daemon-IsDetached (λ f. lowest_of) (λ fd. lowest_of) (λ f. lowest_of-IsLowest)
      (λ fd. lowest_of-IsLowest) child child shell
