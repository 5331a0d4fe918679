-- ===== src/HttpProxy/Examples.antt =====
-- The theorems about an exchange at concrete inputs.
use lhotse_agent.Prelude.{
  trim_space, ◌≡◌, refl, false, ◌||◌, ◌++◌, [], none, Str, codes, str_eq, lookup, if◌then◌else◌,
}
use lhotse_agent.Prelude.Int.{pos}
use lhotse_agent.Remote.{good}
use lhotse_agent.HttpRequest.{first, first, first, first, first, first, Request, get, values, first}
use lhotse_agent.HttpToken.{equal_fold}
use lhotse_agent.HttpResponse.Examples.{
  lib, header, response, read_no_content, no_content_code, no_content_upgraded, switching_lib,
  switching_header, switching, read_switching, switching_upgraded,
}
use lhotse_agent.HttpProxy.{
  Head, done, kept, request_head, response_head, request_is_chunked, response_has_no_body,
  proxy_http_request, any_chunked, split_commas, is_chunked,
}
use lhotse_agent.HttpProxy.Frames.{
  RequestBody, fixed_body, ResponseBody, bodiless, proxy_http_request-framed,
  proxy_http_request-upgraded,
}
use lhotse_agent.HttpProxy.Passing.{Passes, proxy_http_request-Passes}

abbrev request : Request
request = record {
  method = codes "POST";
  proto = codes "HTTP/1.1";
  proto_major = 1;
  proto_minor = 1;
  url = record { scheme = []; host = []; port = [] };
  port = pos 80;
  authority = codes "a";
  header = [];
  content_length = pos 2;
  transfer_encoding = [];
  host = codes "a";
  request_uri = codes "/";
  close = false;
}

abbrev no_content : Str → Head
no_content s = record {
  line = good (codes "HTTP/1.1 204 No Content");
  header = good header;
  buffered = [];
  pending = s;
}

abbrev switched : Str → Head
switched s = record {
  line = good (codes "HTTP/1.1 101 Switching Protocols");
  header = good switching_header;
  buffered = [];
  pending = s;
}

request_body : RequestBody (λ s. none) request (codes "ab")
unfolding request_is_chunked any_chunked is_chunked split_commas get values first lookup trim_space
    equal_fold
request_body = fixed_body (codes "ab") refl refl

bodiless_response : ResponseBody (λ s. none) request response [] (codes "more")
unfolding response_has_no_body str_eq
bodiless_response = bodiless (codes "more") (rw no_content_code refl)

-- POST / with two bytes, answered by 204.
proxy_http_request-framed_example :
    proxy_http_request
      (λ s. none)
      lib
      no_content
      (λ s. 0)
      (λ n. [])
      (codes "x")
      request
      (codes "abGET")
      (good (codes "more"))
    ≡ record {
      rest = codes "GET";
      sent = request_head request ++ codes "ab";
      replied = response_head response (codes "x") ++ [];
      outcome = if request.close || response.close then done else kept;
    }
unfolding str_eq
proxy_http_request-framed_example =
    proxy_http_request-framed (λ s. none) lib no_content (λ s. 0) (λ n. []) (codes "x") request
      response (codes "ab") (codes "GET") (codes "more") [] (codes "more") refl request_body
      read_no_content no_content_upgraded bodiless_response refl

-- POST / with two bytes, answered by 101.
proxy_http_request-upgraded_example :
    proxy_http_request
      (λ s. none)
      switching_lib
      switched
      (λ s. 0)
      (λ n. [])
      (codes "x")
      request
      (codes "abping")
      (good (codes "pong"))
    ≡ record {
      rest = [];
      sent = (request_head request ++ codes "ab") ++ codes "ping";
      replied = response_head switching [] ++ codes "pong";
      outcome = done;
    }
unfolding str_eq
proxy_http_request-upgraded_example =
    proxy_http_request-upgraded (λ s. none) switching_lib switched (λ s. 0) (λ n. []) (codes "x")
      request switching (codes "ab") (codes "ping") (codes "pong") refl request_body read_switching
      switching_upgraded

proxy_http_request-Passes_example :
    Passes
      (λ s. none)
      request
      (codes "a")
      (proxy_http_request
        (λ s. none)
        lib
        no_content
        (λ s. 0)
        (λ n. [])
        (codes "x")
        request
        (codes "a")
        (good []))
unfolding str_eq
proxy_http_request-Passes_example =
    proxy_http_request-Passes (λ s. none) lib no_content (λ s. 0) (λ n. []) (codes "x") request
      (codes "a") [] refl
