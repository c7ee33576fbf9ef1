-- ===== src/Tests/CoroTests.antt =====
-- The coroutine parser, boost_asio/cpp_03_example/boost_http_server_3.
use boost_learn.Common.{
  ℕ, ◌≡◌, refl, true, Option, none, some, [], ◌∷◌, ◌++◌, arith, Bytes, codes, All, decimal, length,
}
use mathlib.Core.List.{map}
use boost_learn.Http.Chars.{is_ctl, is_digit, is_tspecial, is_char}
use boost_learn.Http.Parser.Message.{Message, IsMessage, render, header_of}
use boost_learn.Http.Tribool.{Tribool}
use boost_learn.HttpCoro.Parser.{
  start, done, parsed, parse, cleared, headers_equal, content_length_of,
}
use boost_learn.HttpCoro.Parser.Messages.{Carries, parse-Carries, request_with, parse_carried}

-- A number of one digit.
abbrev pub to_size : Bytes → Option ℕ
to_size (c ∷ []) = some (decimal 0 (c ∷ []))
to_size _ = none

-- A request with three bytes of content.
abbrev pub post : Message
post = record {
  method = codes "POST";
  uri = codes "/a.gif";
  major = codes "1";
  minor = codes "0";
  lines = record { name = codes "content-length"; value = codes "3"; folds = [] } ∷ [];
}

pub post-IsMessage : IsMessage post
unfolding is_ctl is_digit is_tspecial is_char
post-IsMessage = record {
  some_method = ground arith;
  all_token = (refl, (refl, (refl, (refl, tt))));
  all_uri = (
    (refl, omega arith),
    (
      (refl, omega arith),
      (
        (refl, omega arith),
        ((refl, omega arith), ((refl, omega arith), ((refl, omega arith), tt))),
      ),
    ),
  );
  some_major = ground arith;
  major_digits = (refl, tt);
  some_minor = ground arith;
  minor_digits = (refl, tt);
  all_lines = (
    record {
      some_name = ground arith;
      all_token = (
        refl,
        (
          refl,
          (
            refl,
            (
              refl,
              (refl, (refl, (refl, (refl, (refl, (refl, (refl, (refl, (refl, (refl, tt)))))))))),
            ),
          ),
        ),
      );
      all_text = (refl, tt);
      all_folds = tt;
    },
    tt,
  );
}

pub post_ascii : All (λ c. is_char c ≡ true) (render post [])
unfolding is_char
post_ascii = (
  refl,
  (
    refl,
    (
      refl,
      (
        refl,
        (
          refl,
          (
            refl,
            (
              refl,
              (
                refl,
                (
                  refl,
                  (
                    refl,
                    (
                      refl,
                      (
                        refl,
                        (
                          refl,
                          (
                            refl,
                            (
                              refl,
                              (
                                refl,
                                (
                                  refl,
                                  (
                                    refl,
                                    (
                                      refl,
                                      (
                                        refl,
                                        (
                                          refl,
                                          (
                                            refl,
                                            (
                                              refl,
                                              (
                                                refl,
                                                (
                                                  refl,
                                                  (
                                                    refl,
                                                    (
                                                      refl,
                                                      (
                                                        refl,
                                                        (
                                                          refl,
                                                          (
                                                            refl,
                                                            (
                                                            refl,
                                                            (
                                                            refl,
                                                            (
                                                            refl,
                                                            (
                                                            refl,
                                                            (
                                                            refl,
                                                            (
                                                            refl,
                                                            (
                                                            refl,
                                                            (
                                                            refl,
                                                            (
                                                            refl,
                                                            (refl, (refl, (refl, (refl, tt)))),
                                                            ),
                                                            ),
                                                            ),
                                                            ),
                                                            ),
                                                            ),
                                                            ),
                                                            ),
                                                            ),
                                                          ),
                                                        ),
                                                      ),
                                                    ),
                                                  ),
                                                ),
                                              ),
                                            ),
                                          ),
                                        ),
                                      ),
                                    ),
                                  ),
                                ),
                              ),
                            ),
                          ),
                        ),
                      ),
                    ),
                  ),
                ),
              ),
            ),
          ),
        ),
      ),
    ),
  ),
)

pub post_announces :
    content_length_of to_size (map header_of post.lines) 0 ≡ some (length (codes "abc"))
unfolding content_length_of headers_equal
post_announces = refl

-- What the parser makes of it.
pub posted :
    parse to_size start 7 cleared (render post (codes "abc" ++ codes "rest"))
    ≡ parsed Tribool.true (codes "rest") done 3 (request_with post (codes "abc"))
posted =
    parse_carried to_size post (codes "abc") (codes "rest") 7 cleared post-IsMessage post_ascii refl
      post_announces

parse_carried_example :
    parse to_size start 7 cleared (render post (codes "abc" ++ codes "rest"))
    ≡ parsed Tribool.true (codes "rest") done 3 (request_with post (codes "abc"))
parse_carried_example =
    parse_carried to_size post (codes "abc") (codes "rest") 7 cleared post-IsMessage post_ascii refl
      post_announces

parse-Carries_example :
    Carries to_size
      (render post (codes "abc" ++ codes "rest"))
      (codes "rest")
      (request_with post (codes "abc"))
parse-Carries_example =
    parse-Carries to_size (render post (codes "abc" ++ codes "rest")) (codes "rest") 7 3 cleared
      (request_with post (codes "abc")) done posted
