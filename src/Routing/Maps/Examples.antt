-- ===== src/Routing/Maps/Examples.antt =====
-- The theorems about routes at concrete inputs.
use lhotse_agent.Prelude.{
  ℕ, ◌≡◌, refl, ◌↔◌, true, false, [], ◌∷◌, none, some, here, codes, str_eq, lookup,
}
use lhotse_agent.Prelude.Int.{pos}
use lhotse_agent.Remote.{good}
use lhotse_agent.HttpRequest.{Request}
use lhotse_agent.Routing.{Outside, StringMatch, HttpMatchRequest, request_matches}
use lhotse_agent.Routing.Criteria.{Criteria, request_matches_iff}
use lhotse_agent.Routing.Maps.{
  fails, no_service, Endpoint, last_conn_lb, round_robin_lb, Cluster, Service, Maps, select,
  last_conn, match_request, match_service, match_rules, serve_service, get_service, get_rule,
  get_endpoints,
}
use lhotse_agent.Routing.Maps.Chosen.{FromService, match_request-FromService}
use lhotse_agent.Routing.Maps.Loading.{or_balancer, load_service, load_service_data, new_maps}
use lhotse_agent.Routing.Maps.Loading.Hosts.{get_service-load_service}
use lhotse_agent.Routing.Maps.Loading.Balancers.{AllRoundRobin, load_service_data-AllRoundRobin}

abbrev pub outside : Outside
outside = record { match_regex = λ p s. false; canonical = λ k. k; query = λ r name. codes "1" }

abbrev request : Request
request = record {
  method = codes "GET";
  proto = codes "HTTP/1.1";
  proto_major = 1;
  proto_minor = 1;
  url = record { scheme = []; host = []; port = [] };
  port = pos 80;
  authority = codes "a";
  header = [];
  content_length = pos 0;
  transfer_encoding = [];
  host = codes "a";
  request_uri = codes "/";
  close = false;
}

abbrev unset : StringMatch
unset = record { exact = []; prefix = []; regex = [] }

abbrev criteria : HttpMatchRequest
criteria = record {
  uri = record unset { prefix = codes "/" };
  scheme = unset;
  method = unset;
  authority = unset;
  headers = [];
  port = pos 0;
  query_params = (codes "v", record unset { exact = codes "2" }) ∷ [];
  ignore_uri_case = false;
  without_headers = [];
}

request_matches_iff_example :
    (request_matches outside criteria request ≡ true) ↔ Criteria outside request criteria
request_matches_iff_example = request_matches_iff outside request criteria _

abbrev endpoint : Endpoint
endpoint = record { ip = codes "10.0.0.1"; port = codes "80" }

abbrev cluster : Cluster
cluster = record {
  name = codes "c";
  endpoints = endpoint ∷ [];
  simple = codes "RANDOM";
  balancer = none;
}

abbrev service : Service
service = record {
  name = codes "s";
  hosts = codes "a" ∷ [];
  clusters = cluster ∷ [];
  rules = [];
  balancer = some (last_conn_lb (pos 0));
}

abbrev tables : Maps
tables = record {
  services = service ∷ [];
  service_map = (codes "a", 0) ∷ [];
  rule_map = [];
  endpoint_map = (codes "s", (codes "10.0.0.1:80", endpoint) ∷ []) ∷ [];
  cluster_map = [];
}

match_request-FromService_example :
    (i : ℕ) × (s : Service) × (get_service tables request.host ≡ some (i, s))
    × FromService outside request tables s endpoint
unfolding match_request match_service match_rules serve_service get_service get_rule get_endpoints
    select last_conn lookup str_eq
match_request-FromService_example =
    match_request-FromService outside request (λ n. 0) endpoint tables refl

get_service-load_service_example :
    get_service (load_service (λ s. none) (λ w. []) service new_maps) (codes "a")
    ≡ some (0, record service { balancer = some (or_balancer service.balancer (round_robin_lb 0)) })
unfolding new_maps
get_service-load_service_example =
    get_service-load_service (λ s. none) (λ w. []) service new_maps (codes "a") (here [])

load_service_data-AllRoundRobin_example :
    AllRoundRobin (load_service_data (λ s. none) (λ w. []) (good (service ∷ [])) new_maps)
unfolding new_maps
load_service_data-AllRoundRobin_example =
    load_service_data-AllRoundRobin (λ s. none) (λ w. []) (service ∷ []) new_maps ((refl, _), _) _

pub no_service_known :
    (r : Request) → match_request outside (λ n. 0) r new_maps ≡ (new_maps, fails no_service)
unfolding match_request match_service get_service new_maps lookup
no_service_known r = refl
