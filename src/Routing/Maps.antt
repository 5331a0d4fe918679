-- ===== src/Routing/Maps.antt =====
-- cmd/proxy/data/config.go: the tables of services, rules, clusters and endpoints, and the choice of
-- an endpoint for a request. A service is named by its place in `services`, as the source names it
-- by a pointer; the pointers in a list are not nil. `intn` is rand.Intn.
pub mod Loading
pub mod Selecting
pub mod Chosen
pub mod Examples
use lhotse_agent.Prelude.{
  zero, ℕ, suc, Bool, true, false, not, ◌&&◌, ◌||◌, List, [], ◌∷◌, ◌++◌, map, Option, none, some,
  length, get_elem?, if◌then◌else◌, Str, str_eq, is_empty, lookup, insert,
}
use lhotse_agent.Prelude.Int.{ℤ, pos, negsuc}
use lhotse_agent.HttpRequest.{Request}
use lhotse_agent.Balancer.{WeightNode, next, round_robin, random_select}
use lhotse_agent.Routing.{Outside, HttpMatchRequest, request_matches}

pub record Endpoint : Type 0 where
  pub ip : Str
  pub port : Str

-- The implementations of LoadBalancer with their states.
pub data LoadBalancer : Type 0 where
  round_robin_lb : (next : ℕ) → LoadBalancer
  last_conn_lb : (last : ℤ) → LoadBalancer
  random_lb pass_through_lb : LoadBalancer

-- ROUND_ROBIN, LEAST_CONN, RANDOM and PASSTHROUGH are declared without a value.
abbrev pub simple_constant : Str
simple_constant = []

pub record Cluster : Type 0 where
  pub name : Str
  pub endpoints : List Endpoint
  pub simple : Str
  pub balancer : Option LoadBalancer

pub record Destination : Type 0 where
  pub cluster : Str
  pub weight : ℤ

pub record HttpRoute : Type 0 where
  pub matches : List HttpMatchRequest
  pub route : List Destination
  pub balancer : Option (List WeightNode)

abbrev pub RouteRule : Type 0
RouteRule = List HttpRoute

pub record Service : Type 0 where
  pub name : Str
  pub hosts : List Str
  pub clusters : List Cluster
  pub rules : List RouteRule
  pub balancer : Option LoadBalancer

abbrev pub Table : Type 0 → Type 0
Table V = List (Str × V)

pub record Maps : Type 0 where
  pub services : List Service
  pub service_map : Table ℕ
  pub rule_map : Table (List RouteRule)
  pub endpoint_map : Table (Table Endpoint)
  pub cluster_map : Table (Table Cluster)

-- What a selection returns: an endpoint, a nil pointer, or a run-time error.
pub data Selected : Type 0 where
  selected : Endpoint → Selected
  nil_endpoint panics : Selected

or_nil : Option Endpoint → Selected
or_nil none = nil_endpoint
or_nil (some e) = selected e

or_panic : Option Endpoint → Selected
or_panic none = panics
or_panic (some e) = selected e

-- LastConnLoadBalancer.Select behind its choice of an index.
last_conn_new : (ℕ → ℕ) → ℤ → List Endpoint → LoadBalancer × Selected
unfolding or_panic
last_conn_new intn last [] = (last_conn_lb last, nil_endpoint)
last_conn_new intn last (e ∷ es) =
    let index = intn (length (e ∷ es)) in
    (last_conn_lb (pos index), or_panic (get_elem? (e ∷ es) index))

last_conn : (ℕ → ℕ) → ℤ → List Endpoint → LoadBalancer × Selected
unfolding last_conn_new
last_conn intn (negsuc n) es = last_conn_new intn (negsuc n) es
last_conn intn (pos n) es = elim (get_elem? es n) [
  | none ↦ last_conn_new intn (pos n) es
  | some e ↦ (last_conn_lb (pos n), selected e)
]

-- Select of each balancer.
pub select : (ℕ → ℕ) → LoadBalancer → List Endpoint → LoadBalancer × Selected
unfolding or_nil or_panic last_conn
select intn (round_robin_lb n) es = let s = round_robin n es in (round_robin_lb s.0, or_panic s.1)
select intn (last_conn_lb last) es = last_conn intn last es
select intn random_lb es = (random_lb, or_nil (random_select intn es))
select intn pass_through_lb es = (pass_through_lb, nil_endpoint)

pub data MatchError : Type 0 where
  no_service no_cluster service_no_cluster cluster_not_found pass_through no_endpoint : MatchError

pub data Matched : Type 0 where
  answers : Selected → Matched
  fails : MatchError → Matched

-- The loops of Match over the criteria, the routes and the rules: the first route that applies and
-- has a balancer is taken; its balancer moves on and names a cluster.
any_matches : Outside → Request → List HttpMatchRequest → Bool
any_matches o r [] = false
any_matches o r (m ∷ ms) = request_matches o m r || any_matches o r ms

serve_route : HttpRoute → Option (List WeightNode) → Option (HttpRoute × Str)
serve_route h none = none
serve_route h (some nodes) = let s = next nodes in some (record h { balancer = some s.0 }, s.1)

use_route : Outside → Request → HttpRoute → Option (HttpRoute × Str)
unfolding any_matches serve_route
use_route o r h = if any_matches o r h.matches then serve_route h h.balancer else none

use_rule : Outside → Request → RouteRule → Option (RouteRule × Str)
unfolding use_route
use_rule o r [] = none
use_rule o r (h ∷ hs) =
    let more = use_rule o r hs in
    elim (use_route o r h) [
      | some (moved, cluster) ↦ some (moved ∷ hs, cluster)
      | none ↦ elim more [ none ↦ none | some (rest, cluster) ↦ some (h ∷ rest, cluster) ]
    ]

use_rules : Outside → Request → List RouteRule → Option (List RouteRule × Str)
unfolding use_rule
use_rules o r [] = none
use_rules o r (rule ∷ rules) =
    let more = use_rules o r rules in
    elim (use_rule o r rule) [
      | some (moved, cluster) ↦ some (moved ∷ rules, cluster)
      | none ↦ elim more [ none ↦ none | some (rest, cluster) ↦ some (rule ∷ rest, cluster) ]
    ]

select_cluster :
    (ℕ → ℕ) → Str → Str → Table Cluster → Cluster → Option LoadBalancer → Maps → Maps × Matched
select_cluster intn service key table c none m = (m, fails cluster_not_found)
select_cluster intn service key table c (some lb) m =
    if str_eq c.simple simple_constant
    then (m, fails pass_through)
    else (let s = select intn lb c.endpoints in
        (
          record m {
            cluster_map =
                insert service (insert key (record c { balancer = some s.0 }) table) m.cluster_map;
          },
          answers s.1,
        ))

serve_cluster : (ℕ → ℕ) → Str → Str → Maps → Maps × Matched
unfolding select_cluster
serve_cluster intn service cluster m = elim (lookup service m.cluster_map) [
  | none ↦ (m, fails service_no_cluster)
  | some table ↦ elim (lookup cluster table) [
    | none ↦ (m, fails cluster_not_found)
    | some c ↦ select_cluster intn service cluster table c c.balancer m
  ]
]

set_at {ℓ} : {A : Type ℓ} → ℕ → A → List A → List A
set_at i a [] = []
set_at zero a (x ∷ xs) = a ∷ xs
set_at (suc i) a (x ∷ xs) = x ∷ set_at i a xs

-- GetEndpoints
pub get_endpoints : Maps → Str → List Endpoint
get_endpoints m service = elim (lookup service m.endpoint_map) [
  | none ↦ []
  | some table ↦ map (λ (e : Str × Endpoint). e.1) table
]

-- GetRule; without an entry there are no rules.
pub get_rule : Maps → Str → List RouteRule
get_rule m service = elim (lookup service m.rule_map) [ none ↦ [] | some rules ↦ rules ]

serve_service : (ℕ → ℕ) → ℕ → Service → Option LoadBalancer → List Endpoint → Maps → Maps × Matched
unfolding set_at
serve_service intn i service lb [] m = (m, fails no_cluster)
serve_service intn i service none (e ∷ es) m = (m, answers panics)
serve_service intn i service (some lb) (e ∷ es) m =
    let s = select intn lb (e ∷ es) in
    (
      record m { services = set_at i (record service { balancer = some s.0 }) m.services },
      answers s.1,
    )

serve_rules : (ℕ → ℕ) → Str → Option (List RouteRule × Str) → Maps → Maps × Matched
unfolding serve_cluster
serve_rules intn service none m = (m, fails no_endpoint)
serve_rules intn service (some (rules, cluster)) m =
    serve_cluster intn service cluster (record m { rule_map = insert service rules m.rule_map })

match_rules : Outside → (ℕ → ℕ) → Request → ℕ → Service → List RouteRule → Maps → Maps × Matched
unfolding serve_service serve_rules use_rules get_endpoints
match_rules o intn r i service [] m =
    serve_service intn i service service.balancer (get_endpoints m service.name) m
match_rules o intn r i service (rule ∷ rules) m =
    serve_rules intn service.name (use_rules o r (rule ∷ rules)) m

-- GetService: the service's place, and the service.
pub get_service : Maps → Str → Option (ℕ × Service)
get_service m host = elim (lookup host m.service_map) [
  | none ↦ none
  | some i ↦ elim (get_elem? m.services i) [ none ↦ none | some s ↦ some (i, s) ]
]

match_service : Outside → (ℕ → ℕ) → Request → Option (ℕ × Service) → Maps → Maps × Matched
unfolding match_rules get_rule
match_service o intn r none m = (m, fails no_service)
match_service o intn r (some (i, service)) m =
    match_rules o intn r i service (get_rule m service.name) m

-- Match
pub match_request : Outside → (ℕ → ℕ) → Request → Maps → Maps × Matched
unfolding match_service get_service
match_request o intn r m = match_service o intn r (get_service m r.host) m

-- GetServiceRule; without a service there are no rules.
pub get_service_rule : Maps → Str → List RouteRule
get_service_rule m host = elim (get_service m host) [
  | none ↦ []
  | some (i, service) ↦ get_rule m service.name
]

-- GetCluster
pub get_cluster : Maps → Str → List Cluster
get_cluster m service = elim (lookup service m.cluster_map) [
  | none ↦ []
  | some table ↦ map (λ (e : Str × Cluster). e.1) table
]
