-- ===== src/Routing/Maps/Chosen.antt =====
-- Where the endpoint comes from that Match of cmd/proxy/data/config.go answers.
use lhotse_agent.Prelude.{
  refl, insert, ap, ℕ, ◌≡◌, subst, inl, inr, true, false, List, [], ◌∷◌, Option, none, some, In,
  here, there, Str, str_eq, lookup, Bool-cases, Option-cases,
}
use lhotse_agent.HttpRequest.{Request}
use lhotse_agent.Balancer.{WeightNode, next}
use lhotse_agent.Routing.{Outside, HttpMatchRequest, request_matches}
use lhotse_agent.Routing.Maps.{
  get_service, match_service, panics, serve_service, match_request, serve_rules, match_rules,
  Endpoint, LoadBalancer, simple_constant, Cluster, HttpRoute, RouteRule, Service, Table, Maps,
  Selected, selected, select, answers, any_matches, serve_route, use_route, use_rule, use_rules,
  select_cluster, serve_cluster, get_endpoints, get_rule,
}
use lhotse_agent.Routing.Maps.Selecting.{select-In}

same_name : {A : Type 0} (a b : A × Str) → some a ≡ some b → a.1 ≡ b.1
same_name {A} a b h = ap (λ (x : A × Str). x.1) (some_inj h)
  where
    some_inj : some a ≡ some b → a ≡ b
    some_inj g = cc

module _ (o : Outside) (r : Request) where
  -- The route applies to the request, and its balancer names the cluster.
  pub record Route (h : HttpRoute) (cluster : Str) : Type 0 where
    pub criteria : HttpMatchRequest
    pub listed : In criteria h.matches
    pub met : request_matches o criteria r ≡ true
    pub nodes : List WeightNode
    pub balancer : h.balancer ≡ some nodes
    pub named : (next nodes).1 ≡ cluster

  any_matches_met :
      (ms : List HttpMatchRequest)
      → any_matches o r ms ≡ true
      → (m : HttpMatchRequest) × In m ms × (request_matches o m r ≡ true)
  unfolding any_matches
  any_matches_met [] h = absurd (let clash = h in cc)
  any_matches_met (m ∷ ms) h = elim (Bool-cases (request_matches o m r)) [
    | inl met ↦ (m, here ms, met)
    | inr unmet ↦
        let more = any_matches_met ms (let rest = rw unmet at h in rest) in
        (more.0, there m more.1, more.2)
  ]

  use_route-Route : (h : HttpRoute) (x : HttpRoute × Str) → use_route o r h ≡ some x → Route h x.1
  unfolding use_route serve_route
  use_route-Route h x e = elim (Bool-cases (any_matches o r h.matches)) [
    | inr unmet ↦ absurd (let clash = rw unmet at e in cc)
    | inl met ↦ elim (Option-cases h.balancer) [
      | inl missing ↦ absurd (let clash = rw (met, missing) at e in cc)
      | inr (nodes, present) ↦
          let m = any_matches_met h.matches met in
          record {
            criteria = m.0;
            listed = m.1;
            met = m.2;
            nodes = nodes;
            balancer = present;
            named =
                same_name (record h { balancer = some (next nodes).0 }, (next nodes).1) x
                  (let same = rw (met, present) at e in same);
          }
    ]
  ]

  use_rule-Route :
      (rule : RouteRule) (x : RouteRule × Str)
      → use_rule o r rule ≡ some x
      → (h : HttpRoute) × In h rule × Route h x.1
  unfolding use_rule
  use_rule-Route [] x e = absurd (let clash = e in cc)
  use_rule-Route (h ∷ rule) x e = elim (Option-cases (use_route o r h)) [
    | inr (y, used) ↦
        let same : y.1 ≡ x.1 =
          same_name (y.0 ∷ rule, y.1) x (let got = rw (used, use_rule) at e in got) in
        (h, here rule, subst (Route h) same (use_route-Route h y used))
    | inl unused ↦ elim (Option-cases (use_rule o r rule)) [
      | inl nothing ↦ absurd (let clash = rw (unused, nothing, use_rule) at e in cc)
      | inr (y, later) ↦
          let same : y.1 ≡ x.1 =
            same_name (h ∷ y.0, y.1) x (let got = rw (unused, later, use_rule) at e in got) in
          let rest = use_rule-Route rule y later in
          (rest.0, there h rest.1, subst (Route rest.0) same rest.2)
    ]
  ]

  use_rules-Route :
      (rules : List RouteRule) (x : List RouteRule × Str)
      → use_rules o r rules ≡ some x
      → (rule : RouteRule) × In rule rules × (h : HttpRoute) × In h rule × Route h x.1
  unfolding use_rules
  use_rules-Route [] x e = absurd (let clash = e in cc)
  use_rules-Route (rule ∷ rules) x e = elim (Option-cases (use_rule o r rule)) [
    | inr (y, used) ↦
        let same : y.1 ≡ x.1 =
          same_name (y.0 ∷ rules, y.1) x (let got = rw (used, use_rules) at e in got) in
        let one = use_rule-Route rule y used in
        (rule, here rules, one.0, one.1, subst (Route one.0) same one.2)
    | inl unused ↦ elim (Option-cases (use_rules o r rules)) [
      | inl nothing ↦ absurd (let clash = rw (unused, nothing, use_rules) at e in cc)
      | inr (y, later) ↦
          let same : y.1 ≡ x.1 =
            same_name (rule ∷ y.0, y.1) x (let got = rw (unused, later, use_rules) at e in got) in
          let rest = use_rules-Route rules y later in
          (rest.0, there rule rest.1, rest.2, rest.3, subst (Route rest.2) same rest.4)
    ]
  ]

  -- The cluster that a route names is in the service's table, and has the endpoint.
  pub record FromCluster (m : Maps) (service cluster : Str) (e : Endpoint) : Type 0 where
    pub table : Table Cluster
    pub found_table : lookup service m.cluster_map ≡ some table
    pub target : Cluster
    pub found : lookup cluster table ≡ some target
    pub not_default : str_eq target.simple simple_constant ≡ false
    pub has : In e target.endpoints

  -- A service without rules has the endpoint; or a rule of it has a route that applies and whose
  -- balancer names a cluster of the service with the endpoint.
  pub data FromService (m : Maps) (service : Service) (e : Endpoint) : Type 0 where
    without_rules :
        get_rule m service.name ≡ [] → In e (get_endpoints m service.name) → FromService m service e
    by_rule :
        (rule : RouteRule)
        → In rule (get_rule m service.name)
        → (h : HttpRoute) → In h rule
        → (cluster : Str) → Route h cluster
        → FromCluster m service.name cluster e
        → FromService m service e

  module _ (intn : ℕ → ℕ) (m : Maps) (e : Endpoint) where
    answers_selected : (a b : Selected) → answers a ≡ answers b → a ≡ b
    answers_selected a b h = cc

    serve_cluster-FromCluster :
        (service cluster : Str)
        → (serve_cluster intn service cluster m).1 ≡ answers (selected e)
        → FromCluster m service cluster e
    unfolding serve_cluster select_cluster
    serve_cluster-FromCluster service cluster h =
        elim (Option-cases (lookup service m.cluster_map)) [
          | inl missing ↦ absurd (let clash = rw (missing, serve_cluster) at h in cc)
          | inr (table, t) ↦ elim (Option-cases (lookup cluster table)) [
            | inl missing ↦ absurd (let clash = rw (t, missing, serve_cluster) at h in cc)
            | inr (c, f) ↦ elim (Option-cases c.balancer) [
              | inl missing ↦ absurd (let clash = rw (t, f, missing, serve_cluster) at h in cc)
              | inr (lb, b) ↦ elim (Bool-cases (str_eq c.simple simple_constant)) [
                | inl default ↦ absurd (let clash = rw (t, f, b, default, serve_cluster) at h in cc)
                | inr other ↦ record {
                  table = table;
                  found_table = t;
                  target = c;
                  found = f;
                  not_default = other;
                  has = select-In intn lb c.endpoints e (
                      answers_selected (select intn lb c.endpoints).1 (selected e)
                        (let got = rw (t, f, b, other, serve_cluster) at h in got));
                }
              ]
            ]
          ]
        ]

  module _ (intn : ℕ → ℕ) (e : Endpoint) where
    serve_rules-FromService :
        (m : Maps) (s : Service) (chosen : Option (List RouteRule × Str))
        → use_rules o r (get_rule m s.name) ≡ chosen
        → (serve_rules intn s.name chosen m).1 ≡ answers (selected e)
        → FromService m s e
    unfolding serve_rules
    serve_rules-FromService m s none c h = absurd (let clash = h in cc)
    serve_rules-FromService m s (some (rules, cluster)) c h =
        let used = use_rules-Route (get_rule m s.name) (rules, cluster) c in
        let from =
          serve_cluster-FromCluster intn (record m { rule_map = insert s.name rules m.rule_map }) e
            s.name cluster h in
        by_rule used.0 used.1 used.2 used.3 cluster used.4 (record {
          table = from.table;
          found_table = from.found_table;
          target = from.target;
          found = from.found;
          not_default = from.not_default;
          has = from.has;
        })

    serve_service-In :
        (i : ℕ) (m : Maps) (s : Service) (lb : Option LoadBalancer) (es : List Endpoint)
        → (serve_service intn i s lb es m).1 ≡ answers (selected e)
        → In e es
    unfolding serve_service
    serve_service-In i m s lb [] h = absurd (let clash = h in cc)
    serve_service-In i m s none (d ∷ es) h =
        absurd
          (let clash : panics ≡ selected e = answers_selected intn m e panics (selected e) h in cc)
    serve_service-In i m s (some lb) (d ∷ es) h =
        select-In intn lb (d ∷ es) e
          (answers_selected intn m e (select intn lb (d ∷ es)).1 (selected e) h)

    match_rules-FromService :
        (i : ℕ) (m : Maps) (s : Service) (rules : List RouteRule)
        → get_rule m s.name ≡ rules
        → (match_rules o intn r i s rules m).1 ≡ answers (selected e)
        → FromService m s e
    unfolding match_rules
    match_rules-FromService i m s [] g h =
        without_rules g (serve_service-In i m s s.balancer (get_endpoints m s.name) h)
    match_rules-FromService i m s (rule ∷ rules) g h =
        serve_rules-FromService m s (use_rules o r (rule ∷ rules)) (ap (use_rules o r) g) h

    -- An endpoint that Match answers belongs to the service of the request's host. Where the service
    -- has no rules it is one of the service's endpoints. Otherwise a route of a rule of the service
    -- has criteria that the request meets, the route's balancer names a cluster in the service's
    -- table whose simple balancer is not the empty text, and the endpoint is one of that cluster.
    pub match_request-FromService :
        (m : Maps)
        → (match_request o intn r m).1 ≡ answers (selected e)
        → (i : ℕ) × (s : Service) × (get_service m r.host ≡ some (i, s)) × FromService m s e
    unfolding match_request match_service
    match_request-FromService m h = elim (Option-cases (get_service m r.host)) [
      | inl unknown ↦ absurd (let clash = rw unknown at h in cc)
      | inr (x, known) ↦ (
        x.0,
        x.1,
        known,
        match_rules-FromService x.0 m x.1 (get_rule m x.1.name) refl
            (let got = rw known at h in got),
      )
    ]
