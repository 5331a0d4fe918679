-- ===== src/HttpRequest/Examples.antt =====
-- The theorems about the head of a request at concrete inputs.
use lhotse_agent.Prelude.{
  ◌≡◌, refl, true, false, ◌++◌, [], ◌∷◌, none, codes, lookup, str_eq, has_prefix,
}
use lhotse_agent.Prelude.Int.{pos}
use lhotse_agent.Net.{Net}
use lhotse_agent.Remote.{good}
use lhotse_agent.HttpRequest.{
  ok, Header, Lib, Request, parse_request_line, index_byte, build, read_request, valid_method,
  parse_http_version, read_line,
}
use lhotse_agent.HttpRequest.Accepted.{Accepts, read_request-Accepts}

abbrev names_only : Net
names_only = record {
  split_host_port = λ s. none;
  join_host_port = λ h p. h ++ (codes ":" ++ p);
  parse_ip = λ s. none;
  parse_cidr = λ s. none;
  ip_equal = λ a b. false;
  contains = λ n a. false;
}

abbrev pub lib : Lib
lib = record {
  net = names_only;
  parse_request_uri = λ s. good (record { scheme = []; host = []; port = [] });
  atoi = λ s. (pos 0, false);
  contains_token = λ vs t. false;
  is_token_rune = λ c. true;
}

abbrev pub header : Header
header = (codes "Host", codes "example" ∷ []) ∷ []

abbrev pub request : Request
request =
    build lib (codes "GET") (codes "/") (codes "HTTP/1.1") (1, 1)
      (record { scheme = []; host = []; port = [] }) header

pub read_get : read_request lib (good (codes "GET / HTTP/1.1")) (good header) ≡ ok request
unfolding read_request parse_request_line index_byte read_line valid_method parse_http_version
    str_eq has_prefix lookup
read_get = refl

read_request-Accepts_example : Accepts lib (codes "GET / HTTP/1.1") (good header) request
read_request-Accepts_example =
    read_request-Accepts lib (codes "GET / HTTP/1.1") (good header) request read_get
