-- ===== src/Routing/Maps/Loading/Balancers.antt =====
-- Which balancers the clusters have behind LoadServiceData of cmd/proxy/data/config.go.
use lhotse_agent.Prelude.{
  lookup-All, insert-All, ◌≡◌, refl, sym, ap, subst, inl, inr, List, [], ◌∷◌, Option, none, some,
  All, Str, str_eq, lookup, Bool-cases, Option-cases,
}
use lhotse_agent.Prelude.Int.{ℤ}
use lhotse_agent.Remote.{good}
use lhotse_agent.Routing.Maps.{
  round_robin_lb, Cluster, RouteRule, Service, Table, Maps, simple_constant,
}
use lhotse_agent.Routing.Maps.Loading.{
  balancer_of, or_balancer, load_cluster, entry, load_clusters, prepare, load_rules, load_service,
  load_services, load_service_data,
}

-- A cluster with a round robin balancer that has not been used.
abbrev pub IsRoundRobin : Cluster → Type 0
IsRoundRobin c = c.balancer ≡ some (round_robin_lb 0)

abbrev pub AtValue : {V : Type 0} → (V → Type 0) → Str × V → Type 0
AtValue P e = P e.1

-- Every value of a table has the property.
abbrev pub AllIn : {V : Type 0} → (V → Type 0) → List (Str × V) → Type 0
AllIn P = All (AtValue P)

-- Every cluster of the tables is one.
abbrev pub AllRoundRobin : Maps → Type 0
AllRoundRobin m = AllIn (AllIn IsRoundRobin) m.cluster_map

entry-AllIn :
    (key : Str) (t : Table (Table Cluster))
    → AllIn (AllIn IsRoundRobin) t
    → AllIn IsRoundRobin (entry key t)
unfolding entry
entry-AllIn key t a = elim (Option-cases (lookup key t)) [
  | inl missing ↦ rw (missing, entry) _
  | inr (v, found) ↦ rw (found, entry) (lookup-All (AtValue (AllIn IsRoundRobin)) key t v a found)
]

-- Whatever a cluster's simple balancer is called, the switch gives the round robin.
balancer_of_round_robin : (simple : Str) → balancer_of simple ≡ round_robin_lb 0
unfolding balancer_of
balancer_of_round_robin simple = elim (Bool-cases (str_eq simple simple_constant)) [
  | inl same ↦ rw same refl
  | inr other ↦ rw other refl
]

-- A cluster of a document has no balancer yet.
abbrev pub IsPlain : Cluster → Type 0
IsPlain c = c.balancer ≡ none

load_clusters-AllRoundRobin :
    (service : Str) (cs : List Cluster) (m : Maps)
    → All IsPlain cs
    → AllRoundRobin m
    → AllRoundRobin (load_clusters service cs m)
unfolding load_clusters load_cluster or_balancer
load_clusters-AllRoundRobin service [] m p a = a
load_clusters-AllRoundRobin service (c ∷ cs) m p a = load_clusters-AllRoundRobin service cs _ p.1 (
    insert-All (AtValue (AllIn IsRoundRobin)) service _ m.cluster_map
      (insert-All (AtValue IsRoundRobin) c.name (load_cluster c) (entry service m.cluster_map)
        (rw p.0 (ap some (balancer_of_round_robin c.simple))) (entry-AllIn service m.cluster_map a))
      a)

module _ (parse_int : Str → Option ℤ) (itoa : ℤ → Str) where
  load_rules_clusters :
      (service : Str) (rules : List RouteRule) (m : Maps)
      → (load_rules parse_int itoa service rules m).cluster_map ≡ m.cluster_map
  unfolding load_rules
  load_rules_clusters service [] m = refl
  load_rules_clusters service (rule ∷ rules) m = load_rules_clusters service rules _

  load_service-AllRoundRobin :
      (s : Service) (m : Maps)
      → All IsPlain s.clusters
      → AllRoundRobin m
      → AllRoundRobin (load_service parse_int itoa s m)
  unfolding load_service prepare
  load_service-AllRoundRobin s m p a =
      subst (AllIn (AllIn IsRoundRobin)) (sym (load_rules_clusters s.name s.rules _)) (
        load_clusters-AllRoundRobin s.name s.clusters (prepare s.name m) p (
          insert-All (AtValue (AllIn IsRoundRobin)) s.name (entry s.name m.cluster_map)
            m.cluster_map (entry-AllIn s.name m.cluster_map a) a))

  load_services-AllRoundRobin :
      (ss : List Service) (m : Maps)
      → All (λ (s : Service). All IsPlain s.clusters) ss
      → AllRoundRobin m
      → AllRoundRobin (load_services parse_int itoa ss m)
  unfolding load_services
  load_services-AllRoundRobin [] m p a = a
  load_services-AllRoundRobin (s ∷ ss) m p a =
      load_services-AllRoundRobin ss (load_service parse_int itoa s m) p.1
        (load_service-AllRoundRobin s m p.0 a)

  -- A document whose clusters have no balancer yet, and tables whose clusters all have an unused
  -- round robin: behind the loading all clusters of the tables have one, whatever simple balancer
  -- the document names for its clusters.
  pub load_service_data-AllRoundRobin :
      (services : List Service) (m : Maps)
      → All (λ (s : Service). All IsPlain s.clusters) services
      → AllRoundRobin m
      → AllRoundRobin (load_service_data parse_int itoa (good services) m)
  unfolding load_service_data
  load_service_data-AllRoundRobin services m p a = load_services-AllRoundRobin services m p a
