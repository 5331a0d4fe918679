-- ===== src/HttpProc/Examples.antt =====
-- The theorems about a request of a connection at concrete inputs.
use lhotse_agent.Prelude.{◌≡◌, refl, [], Option, none, some, codes}
use lhotse_agent.Remote.{good, bad}
use lhotse_agent.DomainPolicy.Manager.{Manager}
use lhotse_agent.Enforcement.{enforce_domain_policy}
use lhotse_agent.Enforcement.Examples.{manager}
use lhotse_agent.Injection.{apply_credential_injection}
use lhotse_agent.HttpRequest
use lhotse_agent.HttpRequest.{read_request, target_domain}
use lhotse_agent.HttpRequest.Examples.{lib, header, request, read_get}
use lhotse_agent.Routing.Maps.Loading.{new_maps}
use lhotse_agent.Routing.Maps.Examples.{outside, no_service_known}
use lhotse_agent.HttpProc.{
  World, State, outbound_http_proc, handle_outbound, handle_allowed, handle_routed, handle_injected,
  handle_exchange, destination, enforce, inject,
}
use lhotse_agent.HttpProc.Guarded.{Passed, outbound_http_proc-Passed}

abbrev world : Option Manager → World
world manager = record {
  lib = lib;
  read_head = λ s. record {
    line = good (codes "GET / HTTP/1.1");
    header = good header;
    buffered = [];
    pending = s;
  };
  flushed = λ s. 0;
  parse_hex = λ s. none;
  itoa = λ n. [];
  outside = outside;
  intn = λ n. 0;
  dial = λ a. bad (codes "refused");
  manager = manager;
  agent = none;
  identity =
      λ k. record { post = λ u b. bad (codes "x"); digest = λ s. s; checked_at = 0; stored_at = 0 };
  identity_uri = [];
  sources = none;
  server_name = codes "x";
}

abbrev state : State
state = record { maps = new_maps; users = []; credentials = [] }

dials :
    (outbound_http_proc (world none) state (codes "more") (codes "10.0.0.1:80")).dialled
    ≡ some (codes "10.0.0.1:80")
unfolding outbound_http_proc handle_outbound handle_allowed handle_routed handle_injected
    handle_exchange destination enforce inject enforce_domain_policy apply_credential_injection
dials = rw (read_get, no_service_known request) refl

outbound_http_proc-Passed_example :
    (r : HttpRequest.Request) × (read_request lib (good (codes "GET / HTTP/1.1")) (good header)
      ≡ HttpRequest.ok r)
    × Passed
        (world none)
        state
        r
        (codes "more")
        (codes "10.0.0.1:80")
        (codes "10.0.0.1:80")
        (outbound_http_proc (world none) state (codes "more") (codes "10.0.0.1:80"))
outbound_http_proc-Passed_example =
    outbound_http_proc-Passed (world none) state (codes "more") (codes "10.0.0.1:80")
      (codes "10.0.0.1:80") dials
