-- ===== src/Routing/Maps/Loading.antt =====
-- LoadServiceData of cmd/proxy/data/config.go: filling the tables from a document. `document` is what
-- reading, parsing and defaults.Set give, `parse_int` is strconv.ParseInt and `itoa` strconv.Itoa.
pub mod Hosts
pub mod Balancers
use lhotse_agent.Prelude.{
  ℕ, Bool, true, false, not, List, [], ◌∷◌, ◌++◌, map, Option, none, some, length, if◌then◌else◌,
  Str, str_eq, is_empty, lookup, insert,
}
use lhotse_agent.Prelude.Int.{ℤ, pos, negsuc}
use lhotse_agent.Remote.{Fallible, good, bad}
use lhotse_agent.Balancer.{WeightNode, add}
use lhotse_agent.Routing.Maps.{
  Endpoint, LoadBalancer, round_robin_lb, last_conn_lb, random_lb, pass_through_lb, simple_constant,
  Cluster, Destination, HttpRoute, RouteRule, Service, Table, Maps, get_rule,
}

-- The switch on Simple; its four cases compare with constants that are equal.
pub balancer_of : Str → LoadBalancer
balancer_of simple =
    if str_eq simple simple_constant
    then round_robin_lb 0
    else if str_eq simple simple_constant
    then random_lb
    else if str_eq simple simple_constant
    then last_conn_lb (negsuc 0)
    else if str_eq simple simple_constant
    then pass_through_lb
    else round_robin_lb 0

pub or_balancer : Option LoadBalancer → LoadBalancer → LoadBalancer
or_balancer none lb = lb
or_balancer (some kept) lb = kept

pub load_cluster : Cluster → Cluster
unfolding or_balancer balancer_of
load_cluster c = record c { balancer = some (or_balancer c.balancer (balancer_of c.simple)) }

endpoint_key : Endpoint → Str
endpoint_key e = e.ip ++ (58 ∷ e.port)

load_endpoints : List Endpoint → Table Endpoint → Table Endpoint
unfolding endpoint_key
load_endpoints [] table = table
load_endpoints (e ∷ es) table = load_endpoints es (insert (endpoint_key e) e table)

pub entry {ℓ} : {V : Type ℓ} → Str → List (Str × List (Str × V)) → List (Str × V)
entry key tables = elim (lookup key tables) [ none ↦ [] | some table ↦ table ]

-- The loop over a service's clusters.
pub load_clusters : Str → List Cluster → Maps → Maps
unfolding load_endpoints load_cluster entry
load_clusters service [] m = m
load_clusters service (c ∷ cs) m = load_clusters service cs (record m {
  cluster_map =
      insert service (insert c.name (load_cluster c) (entry service m.cluster_map)) m.cluster_map;
  endpoint_map =
      insert service (load_endpoints c.endpoints (entry service m.endpoint_map)) m.endpoint_map;
})

-- The entries that are made before that loop.
pub prepare : Str → Maps → Maps
unfolding entry
prepare service m = record m {
  cluster_map = insert service (entry service m.cluster_map) m.cluster_map;
  endpoint_map = insert service (entry service m.endpoint_map) m.endpoint_map;
}

pub load_hosts : ℕ → List Str → Table ℕ → Table ℕ
load_hosts i [] table = table
load_hosts i (host ∷ hosts) table = load_hosts i hosts (insert host i table)

is_positive : ℤ → Bool
is_positive (pos ℕ.zero) = false
is_positive (pos (ℕ.suc n)) = true
is_positive (negsuc n) = false

module _ (parse_int : Str → Option ℤ) (itoa : ℤ → Str) where
  -- The loop over a route's destinations.
  pub add_destinations : List Destination → List WeightNode → List WeightNode
  unfolding is_positive
  add_destinations [] nodes = nodes
  add_destinations (d ∷ ds) nodes =
      let skipped = add_destinations ds nodes in
      let added = add_destinations ds (add parse_int (d.cluster ∷ itoa d.weight ∷ []) nodes).0 in
      if not (is_positive d.weight) then skipped else if is_empty d.cluster then skipped else added

  route_balancer : List Destination → Option (List WeightNode) → List WeightNode
  unfolding add_destinations
  route_balancer ds none = add_destinations ds []
  route_balancer ds (some kept) = kept

  pub load_route : HttpRoute → HttpRoute
  unfolding route_balancer
  load_route h = record h { balancer = some (route_balancer h.route h.balancer) }

  -- The loop over a service's rules.
  pub load_rules : Str → List RouteRule → Maps → Maps
  unfolding load_route
  load_rules service [] m = m
  load_rules service (rule ∷ rules) m = load_rules service rules (record m {
    rule_map = insert service (get_rule m service ++ (map load_route rule ∷ [])) m.rule_map;
  })

  -- The loop's body for one service. The place of the service is the number of those before it.
  pub load_service : Service → Maps → Maps
  unfolding load_rules load_hosts load_clusters prepare
  load_service s m =
      let i = length m.services in
      let filled = load_clusters s.name s.clusters (prepare s.name m) in
      load_rules s.name s.rules (record filled {
        services =
            filled.services
            ++ (record s { balancer = some (or_balancer s.balancer (round_robin_lb 0)) } ∷ []);
        service_map = load_hosts i s.hosts filled.service_map;
      })

  pub load_services : List Service → Maps → Maps
  unfolding load_service
  load_services [] m = m
  load_services (s ∷ ss) m = load_services ss (load_service s m)

  -- LoadServiceData
  pub load_service_data : Fallible (List Service) → Maps → Maps
  unfolding load_services
  load_service_data (bad e) m = m
  load_service_data (good services) m = load_services services m

-- NewMaps
unfoldable pub new_maps : Maps
new_maps = record {
  services = [];
  service_map = [];
  rule_map = [];
  endpoint_map = [];
  cluster_map = [];
}
