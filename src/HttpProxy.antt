-- ===== src/HttpProxy.antt =====
-- cmd/proxy/http.go: one exchange of a request and its response. Writes succeed, and a source of a
-- copy ends without an error. A header is written in the order of its list. `read_head` is what
-- ReadLine and ReadMIMEHeader of a new textproto.Reader give on a stream, and what they leave of it.
pub mod Frames
pub mod Passing
pub mod Examples
use lhotse_agent.Prelude.{
  ◌+◌, take, length, ℕ, Bool, true, false, not, ◌&&◌, ◌||◌, List, [], ◌∷◌, ◌++◌, Option, none, some,
  ltb, leb, ◌==◌, if◌then◌else◌, Str, codes, str_eq, is_empty, trim_space, insert,
}
use lhotse_agent.Prelude.Int.{ℤ, pos, negsuc}
use lhotse_agent.Remote.{Fallible, good, bad}
use lhotse_agent.HttpRequest.{Header, Lib, Request, get, values, format_request_line}
use lhotse_agent.HttpToken.{equal_fold}
use lhotse_agent.HttpResponse.{Response, Error, Result, ok, err, read_response, format_status_line}
use lhotse_agent.HttpBody.{
  CopyError, Copied, finished, wrote, proxy_chunked_body, copy_fixed_length, crlf,
}

-- `buffered` was read from the connection with the head, `pending` was not.
pub record Head : Type 0 where
  pub line : Fallible Str
  pub header : Fallible Header
  pub buffered : Str
  pub pending : Str

-- What an exchange returns: no error, errProxyConnectionDone, or an error.
pub data Outcome : Type 0 where
  kept done : Outcome
  copy_failed : CopyError → Outcome
  response_failed : Error → Outcome

-- The bytes of the client that are left, those written to the server and those to the client.
pub record Exchange : Type 0 where
  pub rest : Str
  pub sent : Str
  pub replied : Str
  pub outcome : Outcome

-- The lines of a header.
pub value_lines : Str → List Str → Str
value_lines key [] = []
value_lines key (v ∷ vs) = key ++ (codes ": " ++ (v ++ (crlf ++ value_lines key vs)))

pub header_lines : Header → Str
unfolding value_lines
header_lines [] = []
header_lines ((key, vs) ∷ h) = value_lines key vs ++ header_lines h

pub request_head : Request → Str
unfolding header_lines
request_head r = format_request_line r ++ (crlf ++ (header_lines r.header ++ crlf))

-- Header.Clone and Header.Add
pub with_server : Header → Str → Header
with_server h name =
    if is_empty name
    then h
    else insert (codes "Server") (values h (codes "Server") ++ (name ∷ [])) h

-- writeHTTPResponse
pub response_head : Response → Str → Str
unfolding header_lines with_server
response_head r name =
    format_status_line r ++ (crlf ++ (header_lines (with_server r.header name) ++ crlf))

-- writeConnectEstablished
pub connect_established : Str → Str
connect_established name =
    codes "HTTP/1.1 200 Connection Established\r\n"
    ++ ((if is_empty name then [] else codes "Server: " ++ (name ++ crlf)) ++ crlf)

-- strings.Split(s, ","): its first part, and the others.
split_commas : Str → Str × List Str
split_commas [] = ([], [])
split_commas (c ∷ s) =
    let more = split_commas s in if c == 44 then ([], more.0 ∷ more.1) else (c ∷ more.0, more.1)

pub is_chunked : Str → Bool
is_chunked v = equal_fold (trim_space v) (codes "chunked")

any_chunked : List Str → Bool
unfolding is_chunked
any_chunked [] = false
any_chunked (v ∷ vs) = is_chunked v || any_chunked vs

pub request_is_chunked : Request → Bool
unfolding any_chunked split_commas
request_is_chunked r =
    let parts = split_commas (get r.header (codes "Transfer-Encoding")) in
    any_chunked r.transfer_encoding || any_chunked (parts.0 ∷ parts.1)

pub response_has_no_body : Request → Response → Bool
response_has_no_body q r =
    if str_eq q.method (codes "HEAD")
    then true
    else if leb 100 r.status_code && ltb r.status_code 200
    then true
    else r.status_code == 204 || r.status_code == 304

is_positive : ℤ → Bool
is_positive (pos n) = ltb 0 n
is_positive (negsuc n) = false

pub is_negative : ℤ → Bool
is_negative (pos n) = false
is_negative (negsuc n) = true

-- io.Copy
pub copy_all : Str → Copied
copy_all s = record { rest = []; out = s; error = none }

pub ended : Option CopyError → Outcome → Outcome
ended none o = o
ended (some e) o = copy_failed e

-- The bytes of "连接失败:"
abbrev connect_failed : Str
connect_failed = 232 ∷ 191 ∷ 158 ∷ 230 ∷ 142 ∷ 165 ∷ 229 ∷ 164 ∷ 177 ∷ 232 ∷ 180 ∷ 165 ∷ 58 ∷ []

-- The answer to a client whose server cannot be reached. `shown` is strconv.Itoa.
pub dial_failure : (ℕ → Str) → Str → Str
dial_failure shown e =
    let body = connect_failed ++ e in
    codes
      "HTTP/1.1 200 OK\nServer: idefav\nContent-Type: text/plain;charset=UTF-8\nContent-Length: "
    ++ (shown (length body) ++ (codes "\n\n" ++ (body ++ codes "\n")))

module _ (parse_hex : Str → Option ℤ) where
  -- The body that writeHTTPRequest copies.
  pub copy_request_body : Request → Str → Copied
  unfolding is_positive request_is_chunked
  copy_request_body r s =
      if request_is_chunked r
      then proxy_chunked_body parse_hex s
      else if is_positive r.content_length
      then copy_fixed_length r.content_length s
      else finished s

  -- writeHTTPRequest
  pub write_http_request : Request → Str → Copied
  unfolding copy_request_body request_head
  write_http_request r s = wrote (request_head r) (copy_request_body r s)

  -- proxyHTTPBody
  pub proxy_http_body : Request → Response → Str → Copied
  unfolding response_has_no_body is_negative copy_all
  proxy_http_body q r s =
      if response_has_no_body q r
      then finished s
      else if r.chunked
      then proxy_chunked_body parse_hex s
      else if not (is_negative r.content_length)
      then copy_fixed_length r.content_length s
      else if r.close
      then copy_all s
      else finished s

  module _ (l : Lib) (read_head : Str → Head) (flushed : Str → ℕ) (shown : ℕ → Str)
      (server_name : Str) where
    -- The exchange behind the writing of the request: `w` is what that left, and `up` the response's
    -- stream behind its head.
    pub relay_response : Request → Copied → Response → Head → Exchange
    unfolding proxy_http_body response_head ended
    relay_response q w r up =
        let body = proxy_http_body q r (up.buffered ++ up.pending) in
        if r.upgraded
        then record {
          rest = [];
          sent = w.out ++ w.rest;
          replied = response_head r [] ++ up.pending;
          outcome = done;
        }
        else record {
          rest = w.rest;
          sent = w.out;
          replied = response_head r server_name ++ body.out;
          outcome = ended body.error (if q.close || r.close then done else kept);
        }

    read_relayed : Request → Copied → Head → Result → Exchange
    unfolding relay_response
    read_relayed q w up (ok r) = relay_response q w r up
    read_relayed q w up (err e) = record {
      rest = w.rest;
      sent = w.out;
      replied = [];
      outcome = response_failed e;
    }

    -- Where the body's copy fails, the writer to the server is not flushed: of what was written
    -- behind the head, `flushed` bytes have got to the server.
    relay_written : Request → Copied → Head → Option CopyError → Exchange
    unfolding read_relayed
    relay_written q w up none = read_relayed q w up (read_response l up.line up.header)
    relay_written q w up (some e) = record {
      rest = w.rest;
      sent = take (length (request_head q) + flushed w.out) w.out;
      replied = [];
      outcome = copy_failed e;
    }

    relay_request : Request → Str → Str → Exchange
    unfolding relay_written connect_established write_http_request
    relay_request q s answers =
        let w = write_http_request q s in
        if str_eq q.method (codes "CONNECT")
        then record {
          rest = [];
          sent = s;
          replied = connect_established server_name ++ answers;
          outcome = done;
        }
        else relay_written q w (read_head answers) w.error

    -- proxyHTTPRequest: `s` is what the client sends behind the request's head, and the server sends
    -- `answers` if it can be reached.
    pub proxy_http_request : Request → Str → Fallible Str → Exchange
    unfolding relay_request dial_failure
    proxy_http_request q s (good answers) = relay_request q s answers
    proxy_http_request q s (bad e) = record {
      rest = s;
      sent = [];
      replied = dial_failure shown e;
      outcome = done;
    }
