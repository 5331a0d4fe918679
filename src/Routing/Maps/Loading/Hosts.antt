-- ===== src/Routing/Maps/Loading/Hosts.antt =====
-- Which service a host leads to behind LoadServiceData of cmd/proxy/data/config.go.
use lhotse_agent.Prelude.{
  ℕ, ◌≡◌, refl, ap, ◌∙◌, inl, inr, List, [], ◌∷◌, ◌++◌, Option, some, length, get_elem?, In, here,
  there, Str, str_eq, lookup, insert, lookup-insert, lookup-insert_self, Bool-cases,
}
use lhotse_agent.Prelude.Int.{ℤ}
use lhotse_agent.Routing.Maps.{
  round_robin_lb, Cluster, RouteRule, Service, Table, Maps, get_service,
}
use lhotse_agent.Routing.Maps.Loading.{
  or_balancer, load_clusters, prepare, load_hosts, load_rules, load_service,
}

load_hosts_kept :
    (i : ℕ) (hosts : List Str) (host : Str) (table : Table ℕ)
    → lookup host table ≡ some i
    → lookup host (load_hosts i hosts table) ≡ some i
unfolding load_hosts
load_hosts_kept i [] host table h = h
load_hosts_kept i (other ∷ hosts) host table h =
    load_hosts_kept i hosts host (insert other i table) (elim (Bool-cases (str_eq other host)) [
      | inl same ↦ lookup-insert other host i table ∙ rw same refl
      | inr differs ↦ lookup-insert other host i table ∙ rw differs h
    ])

load_hosts_found :
    (i : ℕ) (hosts : List Str) (host : Str) (table : Table ℕ)
    → In host hosts
    → lookup host (load_hosts i hosts table) ≡ some i
unfolding load_hosts
load_hosts_found i (host ∷ hosts) _ table (here _) =
    load_hosts_kept i hosts host (insert host i table) (lookup-insert_self host i table)
load_hosts_found i (other ∷ hosts) host table (there _ later) =
    load_hosts_found i hosts host (insert other i table) later
load_hosts_found i [] host table x4 = elim x4 [ ]

load_clusters_services :
    (service : Str) (cs : List Cluster) (m : Maps)
    → (load_clusters service cs m).services ≡ m.services
unfolding load_clusters
load_clusters_services service [] m = refl
load_clusters_services service (c ∷ cs) m = load_clusters_services service cs _

get_elem_last {ℓ} :
    {A : Type ℓ} (xs : List A) (a : A) → get_elem? (xs ++ a ∷ []) (length xs) ≡ some a
get_elem_last [] a = refl
get_elem_last (x ∷ xs) a = get_elem_last xs a

get_service_at :
    (m : Maps) (i : ℕ) (s : Service) (host : Str)
    → lookup host m.service_map ≡ some i
    → get_elem? m.services i ≡ some s
    → get_service m host ≡ some (i, s)
unfolding get_service
get_service_at m i s host found present = rw (found, present, get_service) refl

module _ (parse_int : Str → Option ℤ) (itoa : ℤ → Str) where
  load_rules_services :
      (service : Str) (rules : List RouteRule) (m : Maps)
      → (load_rules parse_int itoa service rules m).services ≡ m.services
  unfolding load_rules
  load_rules_services service [] m = refl
  load_rules_services service (rule ∷ rules) m = load_rules_services service rules _

  load_rules_hosts :
      (service : Str) (rules : List RouteRule) (m : Maps)
      → (load_rules parse_int itoa service rules m).service_map ≡ m.service_map
  unfolding load_rules
  load_rules_hosts service [] m = refl
  load_rules_hosts service (rule ∷ rules) m = load_rules_hosts service rules _

  -- After a service is loaded, each of its hosts leads to it, whatever the hosts led to before; it
  -- has a balancer, its own or a round robin.
  pub get_service-load_service :
      (s : Service) (m : Maps) (host : Str)
      → In host s.hosts
      → get_service (load_service parse_int itoa s m) host
        ≡ some (
          length m.services,
          record s { balancer = some (or_balancer s.balancer (round_robin_lb 0)) },
        )
  unfolding load_service get_service prepare
  get_service-load_service s m host h =
      let kept = record s { balancer = some (or_balancer s.balancer (round_robin_lb 0)) } in
      let filled = load_clusters s.name s.clusters (prepare s.name m) in
      let at : lookup host (load_service parse_int itoa s m).service_map
          ≡ some (length m.services) =
        ap (lookup host) (load_rules_hosts s.name s.rules _)
        ∙ load_hosts_found (length m.services) s.hosts host filled.service_map h in
      let grown : (load_service parse_int itoa s m).services ≡ m.services ++ kept ∷ [] =
        load_rules_services s.name s.rules _
        ∙ ap (λ (ss : List Service). ss ++ kept ∷ [])
            (load_clusters_services s.name s.clusters (prepare s.name m)) in
      get_service_at (load_service parse_int itoa s m) (length m.services) kept host at
        (rw grown (get_elem_last m.services kept))
