-- ===== src/Mitm/Examples.antt =====
-- The theorems about intercepted connections at concrete inputs.
use lhotse_agent.Prelude.{
  if◌then◌else◌, List, lookup, str_eq_refl, trim_space, ◌≡◌, refl, true, false, [], ◌∷◌, none, Str,
  codes, str_eq,
}
use lhotse_agent.Injection.{Injected}
use lhotse_agent.RuntimeConfig.{normalize_host}
use lhotse_agent.Enforcement.Examples.{names_only}
use lhotse_agent.Mitm.{
  Forwarding, new_transports, transport, forwards, round_trip, certificate_name, set_all, Handler,
  Forward, target_host, serve_http, serve_injected, Listener, new_listener, accepts, refuses,
  closes, Step, accept, accept_closed, close, rest, followed,
}
use lhotse_agent.Mitm.Accepting.{accepted, taken, Run-new_listener}
use lhotse_agent.Mitm.Serving.{Documented, SentOn, serve_http-SentOn}

abbrev forwarded_host : Str
forwarded_host = codes "X-Forwarded-Host"

get_header : Str → List (Str × Str) → Str
get_header name [] = []
get_header name ((other, value) ∷ more) =
    let rest = get_header name more in if str_eq name other then value else rest

abbrev lib : Forwarding
lib = record {
  get = get_header;
  set = λ name value headers. (name, value) ∷ headers;
  outgoing = λ headers. headers;
  set_x_forwarded = λ host headers. (forwarded_host, host) ∷ headers;
  tls_host = λ host. host;
}

documented : Documented lib
unfolding get_header
documented = record {
  removes = λ name headers. false;
  names_forwarder = λ name. str_eq name forwarded_host;
  get-set = λ name value headers. rw (str_eq_refl name) refl;
  get-outgoing = λ name headers kept. refl;
  get-set_x_forwarded = λ name host headers plain. rw plain refl;
}

abbrev handler : Handler
handler = record {
  net = names_only;
  lib = lib;
  dst_host = codes "10.0.0.1:443";
  server_name = codes "a.io";
}

abbrev inject : Str → Injected
inject host = record {
  users = [];
  credentials = [];
  set_headers = (codes "X", codes "1") ∷ [];
  user_id = [];
  error = none;
}

abbrev accepts_all : List (Str × Str)
accepts_all = (codes "Accept", codes "*") ∷ []

abbrev forward : Forward
forward = record {
  scheme = codes "https";
  url_host = codes "10.0.0.1:443";
  host = [];
  headers = (forwarded_host, []) ∷ (codes "X", codes "1") ∷ accepts_all;
  via = record { number = 0; tls_server_name = codes "a.io" };
  checked_name = codes "a.io";
}

-- A request without a Host.
sends : (serve_http handler new_transports [] accepts_all inject).1 ≡ forwards forward
unfolding serve_http serve_injected target_host str_eq normalize_host trim_space round_trip
    certificate_name set_all transport new_transports lookup
sends = refl

serve_http-SentOn_example : SentOn handler documented [] accepts_all inject forward
unfolding new_transports
serve_http-SentOn_example =
    serve_http-SentOn handler documented [] accepts_all inject new_transports forward _ sends

abbrev ended : Listener
ended = record { used = true; done = true }

Run-new_listener_example :
    (accepted (accepts ∷ closes ∷ refuses ∷ []) ≡ taken ended)
    × ((m : Listener)
        → Step ended refuses m
        → (accepted (accepts ∷ closes ∷ refuses ∷ []) ≡ 1) × (ended.done ≡ true) × (m ≡ ended))
unfolding new_listener
Run-new_listener_example = Run-new_listener ended (accepts ∷ closes ∷ refuses ∷ []) (
    followed (accept false) (
      followed (close (record { used = true; done = false }))
        (followed accept_closed (rest ended))))
