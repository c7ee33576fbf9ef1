-- ===== src/Tests/ReplyTests.antt =====
-- Decoding, boost_asio/cpp_03_example/boost_http_server_1.
use boost_learn.Common.{◌≡◌, ◌↔◌, some, codes}
use boost_learn.Http.UrlDecode.{url_decode}
use boost_learn.Http.UrlDecode.Encodes.{Encodes, url_decode_iff}

url_decode_iff_example :
    (url_decode (codes "a%2fb+") ≡ some (codes "a/b ")) ↔ Encodes (codes "a%2fb+") (codes "a/b ")
url_decode_iff_example = url_decode_iff (codes "a%2fb+") (codes "a/b ")
