-- ===== src/HttpResponse/Examples.antt =====
-- The theorem about the head of a response at a concrete input.
use lhotse_agent.Prelude.{
  lookup, ◌≡◌, refl, true, false, ◌++◌, [], ◌∷◌, none, codes, str_eq, has_prefix,
}
use lhotse_agent.Prelude.Int.{pos}
use lhotse_agent.Remote.{good}
use lhotse_agent.HttpRequest.{
  fix_pragma_cache_control, first, values, get, Header, Lib, index_byte, parse_http_version,
}
use lhotse_agent.HttpResponse.{
  has_token, lookup, ok, is_ascii_space, trim_left_ascii, trim_string, is_upgrade, Response, build,
  read_response, read_line, read_status, read_code, read_version, read_header, trim_left_blank,
  code_text,
}
use lhotse_agent.HttpToken.{has_token}
use lhotse_agent.HttpResponse.Read.{Reads, read_response-Reads}

abbrev pub lib : Lib
lib = record {
  net = record {
    split_host_port = λ s. none;
    join_host_port = λ h p. h ++ (codes ":" ++ p);
    parse_ip = λ s. none;
    parse_cidr = λ s. none;
    ip_equal = λ a b. false;
    contains = λ n a. false;
  };
  parse_request_uri = λ s. good (record { scheme = []; host = []; port = [] });
  atoi = λ s. (pos 204, true);
  contains_token = λ vs t. false;
  is_token_rune = λ c. true;
}

abbrev pub header : Header
header = (codes "Server", codes "x" ∷ []) ∷ []

abbrev pub response : Response
response = build lib (codes "HTTP/1.1") (codes "204 No Content") 204 (1, 1) header

pub read_no_content :
    read_response lib (good (codes "HTTP/1.1 204 No Content")) (good header) ≡ ok response
unfolding read_response read_line read_status read_code read_version read_header index_byte
    trim_left_blank code_text parse_http_version str_eq has_prefix
read_no_content = refl

pub no_content_code : response.status_code ≡ 204
unfolding build
no_content_code = refl

pub no_content_upgraded : response.upgraded ≡ false
unfolding build is_upgrade
no_content_upgraded = refl

read_response-Reads_example : Reads lib (codes "HTTP/1.1 204 No Content") (good header) response
read_response-Reads_example =
    read_response-Reads lib (codes "HTTP/1.1 204 No Content") (good header) response read_no_content

abbrev pub switching_header : Header
switching_header =
    (codes "Connection", codes "upgrade" ∷ []) ∷ (codes "Upgrade", codes "websocket" ∷ []) ∷ []

abbrev pub switching_lib : Lib
switching_lib = record lib { atoi = λ s. (pos 101, true) }

abbrev pub switching : Response
switching =
    build switching_lib (codes "HTTP/1.1") (codes "101 Switching Protocols") 101 (1, 1)
      switching_header

pub read_switching :
    read_response switching_lib
      (good (codes "HTTP/1.1 101 Switching Protocols"))
      (good switching_header)
    ≡ ok switching
unfolding read_response read_line read_status read_code read_version read_header index_byte
    trim_left_blank code_text parse_http_version str_eq has_prefix
read_switching = refl

pub switching_upgraded : switching.upgraded ≡ true
unfolding build is_upgrade trim_string trim_left_ascii is_ascii_space get values first lookup str_eq
    fix_pragma_cache_control has_token
switching_upgraded = refl
