-- ===== src/HttpClient/Fetch.antt =====
-- The client and the server together: async_client.cpp against boost_http_server_1/src.
use boost_learn.Common.{
  ℕ, ◌<◌, ◌≤◌, ◌≡◌, refl, Bool, true, Option, some, List, [], ◌∷◌, arith, Bytes, codes, All,
}
use boost_learn.Http.Chars.{is_char, is_ctl, is_digit, is_tspecial}
use boost_learn.Http.Connection.{Connection, Call, async_write}
use boost_learn.Http.MimeTypes.{extension_to_type}
use boost_learn.Http.Parser.Message.{Message, IsMessage, IsUri, IsText}
use boost_learn.Http.Reply.{Reply, ok, standard_headers}
use boost_learn.Http.Reply.Framing.{lines}
use boost_learn.Http.Request.{Request}
use boost_learn.Http.RequestHandler.{with_index, extension_of}
use boost_learn.Http.UrlDecode.RoundTrip.{percent_encode, percent_encode-All}
use boost_learn.HttpClient.{HttpClient}

-- The request that the client forms, as a message of the grammar.
abbrev pub request_message : Bytes → Bytes → Message
request_message server path = record {
  method = codes "GET";
  uri = path;
  major = codes "1";
  minor = codes "0";
  lines =
      record { name = codes "Host"; value = server; folds = [] }
      ∷ record { name = codes "Accept"; value = codes "*/*"; folds = [] }
      ∷ record { name = codes "Connection"; value = codes "close"; folds = [] }
      ∷ [];
}

pub request_message-IsMessage :
    (server path : Bytes)
    → All IsUri path
    → All IsText server
    → IsMessage (request_message server path)
unfolding is_char is_ctl is_digit is_tspecial
request_message-IsMessage server path u t = record {
  some_method = cc;
  all_token = (refl, (refl, (refl, tt)));
  all_uri = u;
  some_major = cc;
  major_digits = (refl, tt);
  some_minor = cc;
  minor_digits = (refl, tt);
  all_lines = (
    record {
      some_name = cc;
      all_token = (refl, (refl, (refl, (refl, tt))));
      all_text = t;
      all_folds = tt;
    },
    (
      record {
        some_name = cc;
        all_token = (refl, (refl, (refl, (refl, (refl, (refl, tt))))));
        all_text = (refl, (refl, (refl, tt)));
        all_folds = tt;
      },
      (
        record {
          some_name = cc;
          all_token =
              (refl, (refl, (refl, (refl, (refl, (refl, (refl, (refl, (refl, (refl, tt))))))))));
          all_text = (refl, (refl, (refl, (refl, (refl, tt)))));
          all_folds = tt;
        },
        tt,
      ),
    ),
  );
}

IsUri-digit : (c : ℕ) → 48 ≤ c → c < 103 → IsUri c
unfolding is_ctl
IsUri-digit c a b = ground arith

pub encoded-IsUri :
    (keep : ℕ → Bool) (upper : Bool) (path : Bytes)
    → ((c : ℕ) → keep c ≡ true → IsUri c)
    → All (λ c. c < 256) path
    → All IsUri (percent_encode keep upper path)
unfolding is_ctl
encoded-IsUri keep upper path kept h =
    percent_encode-All IsUri keep upper path kept IsUri-digit (refl, omega arith)
      (refl, omega arith) h

-- What the client shows of the content `file` of a file of this path.
abbrev pub page : (ℕ → Bytes) → Bytes → Bytes → Bytes
page lexical_cast path file =
    lines (standard_headers lexical_cast file (extension_to_type (extension_of (with_index path))))
      (b'\n' ∷ file)

abbrev pub blank_reply : Reply
blank_reply = record { status = ok; headers = []; content = [] }

abbrev found_reply : (ℕ → Bytes) → Bytes → Bytes → Reply
found_reply lexical_cast path file = record {
  status = ok;
  headers = standard_headers lexical_cast file (extension_to_type (extension_of (with_index path)));
  content = file;
}

-- The buffers of the write that a handler starts.
abbrev written_by : Option (Connection × List Call) → List Bytes
written_by (some (s, async_write bufs ∷ calls)) = bufs
written_by _ = []
