-- ===== src/Tests/CoroServerTests.antt =====
-- The coroutine server and its children, boost_asio/cpp_03_example/boost_http_server_3.
use boost_learn.Common.{
  ◌+◌, ◌≡◌, ◌⊎◌, refl, ap, true, false, some, List, [], ◌∷◌, arith, Bytes, codes, to_decimal,
}
use boost_learn.Http.Connection.Chunks.{joined}
use boost_learn.Http.Reply.{Reply, bad_request, to_buffers, stock_reply}
use boost_learn.HttpCoro.Parser.{done, cleared}
use boost_learn.HttpCoro.Parser.Messages.{request_with}
use boost_learn.HttpCoro.Request.{Request}
use boost_learn.HttpCoro.Session.{
  Session, writing, Call, async_write, file_handler, forked, resumes, on_parsed,
}
use boost_learn.HttpCoro.Session.Answers.{feed, feed_carried, Handled}
use boost_learn.HttpCoro.Server.{
  Server, launched, parent_resumes, leaves, completes, accept_completes, started,
}
use boost_learn.HttpCoro.Server.Running.{Reach, begins, accepted, not_accepted, resumed, heard}
use boost_learn.HttpCoro.Server.Invariant.{Reach-one_accept, Reach-answers, Reach-resumes, Refused}
use boost_learn.Tests.HttpTests.{one_file, no_reply}
use boost_learn.Tests.CoroTests.{to_size, post, post-IsMessage, post_ascii, post_announces, posted}

-- The handler of main.cpp, over a file system with one file.
abbrev handler : Request → Reply → Reply
handler = file_handler to_decimal one_file (codes "/www")

abbrev post_pieces : List Bytes
post_pieces =
    codes "POST /a.gif HTTP/1.0\r\ncontent-le" ∷ codes "ngth: 3\r\n\r\na" ∷ codes "bcrest" ∷ []

abbrev post_reply : Reply
post_reply = handler (request_with post (codes "abc")) no_reply

abbrev post_served : Session
post_served = record {
  point = writing;
  parser = done;
  content_length = 3;
  request = request_with post (codes "abc");
  reply = post_reply;
}

feed_carried_example :
    feed to_decimal to_size handler no_reply (forked 7 cleared no_reply).0 post_pieces
    ≡ some (post_served, async_write (to_buffers post_reply) ∷ [])
feed_carried_example =
    feed_carried to_decimal to_size handler no_reply post (codes "abc") (codes "rest") post_pieces 7
      cleared no_reply post-IsMessage post_ascii refl post_announces refl

-- A run: a client is accepted and sends a request in one piece, and then an accept fails.
abbrev one_child : Server
one_child = parent_resumes 7 cleared no_reply false (accept_completes (launched 7 cleared no_reply))

one_child-Reach : Reach to_decimal to_size handler no_reply 0 one_child
unfolding launched
one_child-Reach = accepted 7 cleared no_reply (omega arith) (begins 7 cleared no_reply)

abbrev answering : Server
answering = leaves 0 (post_served, async_write (to_buffers post_reply) ∷ []) (completes 0 one_child)

answering-Reach : Reach to_decimal to_size handler no_reply 0 answering
unfolding parent_resumes leaves launched forked resumes started
answering-Reach =
    resumed 0 (joined post_pieces) post_served (async_write (to_buffers post_reply) ∷ [])
      (omega arith)
      (ap (on_parsed to_decimal to_size handler no_reply (forked 7 cleared no_reply).0) posted)
      one_child-Reach

Reach-one_accept_example :
    (parent_resumes 7 cleared no_reply true (accept_completes answering)).accepts + 1 ≡ 1
unfolding parent_resumes leaves launched started forked
Reach-one_accept_example =
    Reach-one_accept to_decimal to_size handler no_reply
      (not_accepted 7 cleared no_reply (ground arith) answering-Reach)

-- What child 0 has read in that run.
answering-heard : heard to_decimal to_size handler no_reply answering-Reach 0 ≡ joined post_pieces
unfolding answering-Reach one_child-Reach heard
answering-heard = refl

Reach-answers_example :
    Handled to_decimal to_size handler no_reply
      (heard to_decimal to_size handler no_reply answering-Reach 0)
      (to_buffers (answering.session 0).reply)
    ⊎ (Refused to_decimal to_size handler no_reply
          (heard to_decimal to_size handler no_reply answering-Reach 0)
        × ((answering.session 0).reply ≡ stock_reply to_decimal bad_request))
unfolding parent_resumes leaves launched started forked
Reach-answers_example =
    Reach-answers to_decimal to_size handler no_reply 0 answering-Reach (ground arith)

Reach-resumes_example :
    (t : Session) × (calls : List Call) × (resumes to_decimal to_size handler no_reply
        (codes "GET")
        (one_child.session 0)
      ≡ some (t, calls))
Reach-resumes_example =
    Reach-resumes to_decimal to_size handler no_reply 0 (codes "GET") one_child-Reach
