-- ===== src/HttpClient.antt =====
-- boost_http_server_1/src/async_client.cpp, and sync_client.cpp, which does the same with calls that
-- block. A handler is a function of the client. The texts of error codes are parameters.
pub mod Status
pub mod Cuts
pub mod Running
pub mod Lines
pub mod Shows
pub mod Refused
pub mod Headerless
pub mod Sync
pub mod Fetch
use boost_learn.Common.{
  ℕ, Option, none, some, Bool, true, false, not, List, [], ◌∷◌, ◌++◌, ◌==◌, if◌then◌else◌, Bytes,
  codes, equal, take, to_decimal,
}
use boost_learn.HttpClient.Status.{status_line}

-- `boost::system::error_code`, as far as the handlers tell errors apart.
pub data ErrorCode : Type 0 where
  success eof failure : ErrorCode

-- The operation that was started last and has not completed: each handler completes one.
pub data Waiting : Type 0 where
  resolve connect write read_status_line read_headers read_content nothing : Waiting

-- The two buffers, and what `std::cout` was given.
pub record HttpClient : Type 0 where
  pub request_ : Bytes
  pub response_ : Bytes
  pub output : Bytes
  pub waiting : Waiting

abbrev pub request_text : Bytes → Bytes → Bytes
request_text server path =
    codes "GET "
    ++ (path
        ++ (codes " HTTP/1.0\r\n"
            ++ (codes "Host: "
                ++ (server
                    ++ (codes "\r\n"
                        ++ (codes "Accept: */*\r\n" ++ codes "Connection: close\r\n\r\n"))))))

-- The constructor, which starts the resolver.
unfoldable pub new_client : Bytes → Bytes → HttpClient
new_client server path = record {
  request_ = request_text server path;
  response_ = [];
  output = [];
  waiting = resolve;
}

abbrev pub prints : Bytes → Waiting → HttpClient → HttpClient
prints text next c = record c { output = c.output ++ text; waiting = next }

abbrev pub starts : Waiting → HttpClient → HttpClient
starts next c = record c { waiting = next }

-- `while (std::getline(response_stream, header) && header != "\r") std::cout << header << "\n"`, with
-- the line so far: what is printed, and what is left in the buffer. At the end of the buffer a line
-- without its newline is one all the same, if it is not empty.
unfoldable pub header_lines : Bytes → Bytes → Bytes × Bytes
header_lines line [] =
    if equal line []
    then ([], [])
    else if equal line (codes "\r")
    then ([], [])
    else (line ++ codes "\n", [])
header_lines line (c ∷ cs) =
    let more = header_lines (line ++ c ∷ []) cs in
    let next = header_lines [] cs in
    if not (c == b'\n')
    then more
    else if equal line (codes "\r")
    then ([], cs)
    else (line ++ (b'\n' ∷ next.0), next.1)

module _ (message : ErrorCode → Bytes) (code : ErrorCode → Bytes) where
  -- `std::cout << "Error: " << err.message() << "\n"`, and the same with `err` itself.
  abbrev error_message : ErrorCode → HttpClient → HttpClient
  error_message e = prints (codes "Error: " ++ (message e ++ codes "\n")) nothing

  abbrev error_code : ErrorCode → HttpClient → HttpClient
  error_code e = prints (codes "Error: " ++ (code e ++ codes "\n")) nothing

  unfoldable pub handle_resolve : ErrorCode → HttpClient → HttpClient
  handle_resolve success c = starts connect c
  handle_resolve e c = error_message e c

  unfoldable pub handle_connect : ErrorCode → HttpClient → HttpClient
  handle_connect success c = starts write c
  handle_connect e c = error_message e c

  unfoldable pub handle_write_request : ErrorCode → HttpClient → HttpClient
  handle_write_request success c = starts read_status_line c
  handle_write_request e c = error_message e c

  -- What was read of the status line, if the stream did not fail.
  abbrev pub on_status : Option (Bytes × ℕ × Bytes) → HttpClient → HttpClient
  on_status none c = prints (codes "Invalid response\n") nothing c
  on_status (some (http_version, status_code, rest)) c =
      let d : HttpClient = record c { response_ = rest } in
      if not (equal (take 5 http_version) (codes "HTTP/"))
      then prints (codes "Invalid response\n") nothing d
      else if not (status_code == 200)
      then prints
          (codes "Response returned with status code " ++ (to_decimal status_code ++ codes "\n"))
          nothing d
      else starts read_headers d

  unfoldable pub handle_read_status_line : ErrorCode → HttpClient → HttpClient
  handle_read_status_line success c = on_status (status_line c.response_) c
  handle_read_status_line e c = error_code e c

  -- The header lines and an empty line, and then the bytes of the content that are there already.
  abbrev pub shows : Bytes × Bytes → HttpClient → HttpClient
  shows (lines, rest) c =
      prints (lines ++ (b'\n' ∷ rest)) read_content (record c { response_ = [] })

  unfoldable pub handle_read_headers : ErrorCode → HttpClient → HttpClient
  handle_read_headers success c = shows (header_lines [] c.response_) c
  handle_read_headers e c = error_code e c

  unfoldable pub handle_read_content : ErrorCode → HttpClient → HttpClient
  handle_read_content success c = prints c.response_ read_content (record c { response_ = [] })
  handle_read_content eof c = starts nothing c
  handle_read_content failure c = error_code failure c
