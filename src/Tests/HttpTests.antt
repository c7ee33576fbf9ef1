-- ===== src/Tests/HttpTests.antt =====
-- A request and its reply, boost_asio/cpp_03_example/boost_http_server_1.
use boost_learn.Common.{
  suc, ℕ, ◌≡◌, refl, Option, none, some, List, [], ◌∷◌, ◌++◌, arith, Bytes, codes, All, Lacks,
  length, to_decimal, to_decimal-All, decimal-to_decimal, IsDigit, equal, if◌then◌else◌,
}
use boost_learn.Http.Chars.{is_ctl, is_digit, is_tspecial, is_char}
use boost_learn.Http.Connection.{async_write, new_connection, success, handle_read}
use boost_learn.Http.Connection.Answers.{feed-render}
use boost_learn.Http.Connection.Chunks.{joined, feed, feed-joined}
use boost_learn.Http.Parser.{State, initial_state, expecting_newline_3, parsed, parse}
use boost_learn.Http.Parser.Accepts.{parse-render}
use boost_learn.Http.Parser.Message.{Message, IsMessage, render, request_of}
use boost_learn.Http.Parser.Prefix.{parse_prefix}
use boost_learn.Http.Parser.Sound.{parse_sound}
use boost_learn.Http.Reply.{Reply, ok, to_buffers, standard_headers}
use boost_learn.Http.Reply.Framing.{gather, body_of}
use boost_learn.Http.Request.{Request}
use boost_learn.Http.RequestHandler.{
  read_all, handle_request, has_dots, refused_path, with_index, c_str, extension_of,
}
use boost_learn.Http.MimeTypes.{extension_to_type}
use boost_learn.Http.RequestHandler.Confined.{Confined, handle_request-Confined}
use boost_learn.Http.RequestHandler.Framed.{announced, handle_request_framed}
use boost_learn.Http.RequestHandler.Null.{handle_request_null}
use boost_learn.Http.RequestHandler.Reads.{handle_request_found}
use boost_learn.Http.Tribool.{Tribool, indeterminate}
use boost_learn.Http.UrlDecode.{url_decode}

abbrev pub no_request : Request
no_request = record {
  method = [];
  uri = [];
  http_version_major = 0;
  http_version_minor = 0;
  headers = [];
}

abbrev pub no_reply : Reply
no_reply = record { status = ok; headers = []; content = [] }

abbrev get_page : Message
get_page = record {
  method = codes "GET";
  uri = codes "/a.gif";
  major = codes "1";
  minor = codes "0";
  lines =
      record {
        name = codes "Host";
        value = codes "here";
        folds = record { blanks = codes " "; text = codes "there" } ∷ [];
      }
      ∷ [];
}

get_page-IsMessage : IsMessage get_page
unfolding is_ctl is_digit is_tspecial is_char
get_page-IsMessage = record {
  some_method = ground arith;
  all_token = (refl, (refl, (refl, tt)));
  all_uri = (
    (refl, omega arith),
    (
      (refl, omega arith),
      (
        (refl, omega arith),
        ((refl, omega arith), ((refl, omega arith), ((refl, omega arith), tt))),
      ),
    ),
  );
  some_major = ground arith;
  major_digits = (refl, tt);
  some_minor = ground arith;
  minor_digits = (refl, tt);
  all_lines = (
    record {
      some_name = ground arith;
      all_token = (refl, (refl, (refl, (refl, tt))));
      all_text = (refl, (refl, (refl, (refl, tt))));
      all_folds = (
        record {
          some_blank = ground arith;
          all_blank = (refl, tt);
          starts = refl;
          all_text = (refl, (refl, (refl, (refl, (refl, tt)))));
        },
        tt,
      );
    },
    tt,
  );
}

-- The file system has one file.
abbrev pub one_file : Bytes → Option Bytes
unfolding equal
one_file name = if equal name (codes "/www/a.gif") then some (codes "GIF89a") else none

pub to_decimal-Lacks : (n : ℕ) → Lacks b'\r' (to_decimal n)
to_decimal-Lacks n = lacks (to_decimal n) (to_decimal-All n)
  where
    lacks : (cs : Bytes) → All IsDigit cs → Lacks b'\r' cs
    lacks [] h = tt
    lacks (c ∷ cs) h = (omega (arith, h.0), lacks cs h.1)

abbrev pieces : List Bytes
pieces = codes "GET /a.gif HT" ∷ codes "TP/1.0\r\nHost: here\r\n there\r" ∷ codes "\n\r\nrest" ∷ []

feed-render_example :
    feed to_decimal one_file (codes "/www") (new_connection no_request no_reply) pieces
    ≡ some (
      record {
        parser = expecting_newline_3;
        request = request_of get_page no_request;
        reply =
            handle_request to_decimal one_file
              (codes "/www")
              (request_of get_page no_request)
              no_reply;
      },
      async_write (
            to_buffers (
              handle_request to_decimal one_file
                (codes "/www")
                (request_of get_page no_request)
                no_reply))
          ∷ [],
    )
feed-render_example =
    feed-render to_decimal one_file (codes "/www") get_page (codes "rest") pieces no_request
      no_reply get_page-IsMessage refl

parse-render_example :
    parse initial_state no_request (render get_page (codes "rest"))
    ≡ parsed Tribool.true (codes "rest") expecting_newline_3 (request_of get_page no_request)
parse-render_example = parse-render get_page (codes "rest") no_request get_page-IsMessage

parse_sound_example :
    (m : Message) × IsMessage m
    × (render get_page (codes "rest") ≡ render m (codes "rest"))
    × (request_of get_page no_request ≡ request_of m no_request)
parse_sound_example =
    parse_sound (render get_page (codes "rest")) (codes "rest") no_request
      (request_of get_page no_request) expecting_newline_3 refl parse-render_example

parse_prefix_example :
    (rest : Bytes) × (s : State) × (r : Request) × (parse initial_state no_request
        (codes "GET /a.gif HTTP/1")
      ≡ parsed indeterminate rest s r)
parse_prefix_example =
    parse_prefix get_page (codes "GET /a.gif HTTP/1") (codes ".0\r\nHost: here\r\n there\r\n\r\n")
      no_request get_page-IsMessage refl (ground arith)

feed-joined_example :
    feed to_decimal one_file (codes "/www") (new_connection no_request no_reply) pieces
    ≡ handle_read to_decimal one_file
        (codes "/www")
        (new_connection no_request no_reply)
        success
        (joined pieces)
feed-joined_example =
    feed-joined to_decimal one_file (codes "/www") pieces (new_connection no_request no_reply)

-- A second file system, with a file outside `/www`.
other_file : Bytes → Option Bytes
unfolding equal
other_file name = if equal name (codes "/etc/passwd") then some (codes "root") else one_file name

other_file-below : (name : Bytes) → Confined (codes "/www") name → one_file name ≡ other_file name
unfolding other_file equal c_str
other_file-below name h = rw h.is_name refl

handle_request-Confined_example :
    handle_request to_decimal one_file (codes "/www") (request_of get_page no_request) no_reply
    ≡ handle_request to_decimal other_file (codes "/www") (request_of get_page no_request) no_reply
handle_request-Confined_example =
    handle_request-Confined to_decimal one_file other_file (codes "/www")
      (request_of get_page no_request) no_reply other_file-below

handle_request_framed_example :
    let r =
      handle_request to_decimal one_file (codes "/www") (request_of get_page no_request) no_reply in
    (body_of (gather (to_buffers r)) ≡ some r.content)
    × (announced r.headers ≡ some (length r.content))
handle_request_framed_example =
    handle_request_framed to_decimal one_file (codes "/www") (request_of get_page no_request)
      no_reply to_decimal-Lacks decimal-to_decimal

handle_request_found_example :
    (read_all (suc (length (codes "GIF89a"))) (codes "GIF89a") no_reply.content
      ≡ some (no_reply.content ++ codes "GIF89a"))
    × (handle_request to_decimal one_file (codes "/www") (request_of get_page no_request) no_reply
        ≡ record {
          status = ok;
          headers =
              standard_headers to_decimal
                (no_reply.content ++ codes "GIF89a")
                (extension_to_type (extension_of (with_index (codes "/a.gif"))));
          content = no_reply.content ++ codes "GIF89a";
        })
unfolding url_decode has_dots refused_path with_index c_str equal
handle_request_found_example =
    handle_request_found to_decimal one_file (codes "/www") (codes "/a.gif") (codes "GIF89a")
      (request_of get_page no_request) no_reply refl refl refl

abbrev null_request : Request
null_request = record no_request { uri = codes "/a.gif%00.html" }

handle_request_null_example :
    handle_request to_decimal one_file (codes "/www") null_request no_reply ≡ record {
      status = ok;
      headers =
          standard_headers to_decimal
            (codes "GIF89a")
            (extension_to_type (extension_of (codes "/a.gif" ++ 0 ∷ codes ".html")));
      content = codes "GIF89a";
    }
unfolding url_decode has_dots refused_path with_index equal
handle_request_null_example =
    handle_request_null to_decimal one_file (codes "/www") (codes "/a.gif") (codes ".html")
      (codes "GIF89a") null_request no_reply refl refl refl (omega arith) refl
