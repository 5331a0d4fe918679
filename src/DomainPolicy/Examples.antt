-- ===== src/DomainPolicy/Examples.antt =====
-- Runs of the domain policy and its manager, and their theorems at concrete inputs.
use lhotse_agent.Prelude.{
  insert, str_eq, trim_suffix, trim_space, to_lower, ◌≡◌, refl, ap, sym, ◌∙◌, ◌↔◌, false, [], ◌∷◌,
  ◌++◌, Option, none, some, Str, codes, here, lookup,
}
use lhotse_agent.Prelude.Int.{pos}
use lhotse_agent.Net.{Net}
use lhotse_agent.Remote.{read_response, good, bad, cached, cache_missing, CacheRead, no_fault, Disk}
use lhotse_agent.DomainPolicy.{
  contains_str, compile_matcher_set, compile_rule, compile_rules, Policy, RuleDocument,
  ConfigDocument, MatcherSet, DirectionPolicy, ok, evaluate, compile, normalize_domain, extract_ip,
  rule_mode,
}
use lhotse_agent.DomainPolicy.Decisions.{Denied, blocked_decision, evaluate_iff}
use lhotse_agent.DomainPolicy.Compiling.BlockList.{block_list_refuses}
use lhotse_agent.DomainPolicy.Manager.{
  parse, fetch, Manager, Options, World, reload, load_cache, refresh_loop, start, tick, stop,
  manager_evaluate, enabled,
}
use lhotse_agent.DomainPolicy.Manager.Freshness.{
  reload-writes, Reloaded, reload-Reloaded, Held, refresh_loop-Held, load_cache-reload, FromCache,
  start-FromCache,
}
use lhotse_agent.DomainPolicy.Manager.Scope.{Refuses, manager_evaluate_iff}

-- A package net that knows no address and splits nothing.
abbrev names_only : Net
names_only = record {
  split_host_port = λ s. none;
  join_host_port = λ h p. h ++ (codes ":" ++ p);
  parse_ip = λ s. none;
  parse_cidr = λ s. none;
  ip_equal = λ a b. false;
  contains = λ n a. false;
}

abbrev rule : RuleDocument
rule = record {
  direction = codes " Outbound";
  mode = [];
  allow_list = [];
  block_list = codes "Bad.Example" ∷ codes "*.evil.io" ∷ [];
}

abbrev document : ConfigDocument
document = record { rules = rule ∷ [] }

abbrev policy : Policy
policy =
    (
      codes "outbound",
      record {
        mode = codes "default_allow";
        allow = record { domains = []; wildcard_domains = []; ips = []; nets = [] };
        block = record {
          domains = codes "bad.example" ∷ [];
          wildcard_domains = codes "evil.io" ∷ [];
          ips = [];
          nets = [];
        };
      },
    )
    ∷ []

compiles : compile names_only document ≡ ok policy
unfolding compile compile_rules compile_rule compile_matcher_set contains_str normalize_domain
    str_eq to_lower trim_space trim_suffix insert
compiles = refl

abbrev block_set : MatcherSet
block_set = record {
  domains = codes "bad.example" ∷ [];
  wildcard_domains = codes "evil.io" ∷ [];
  ips = [];
  nets = [];
}

evaluate_iff_example :
    (evaluate names_only (some policy) (codes "outbound") (codes "A.Evil.io") [] ≡ blocked_decision)
    ↔ ((q : Policy) × (r : DirectionPolicy) × (some policy ≡ some q)
        × (lookup (codes "outbound") q ≡ some r)
        × Denied names_only r
            (normalize_domain names_only (codes "A.Evil.io"))
            (extract_ip names_only [])
            blocked_decision)
evaluate_iff_example =
    evaluate_iff names_only (some policy) (codes "outbound") (codes "A.Evil.io") [] blocked_decision
      refl

block_list_refuses_example :
    evaluate names_only
      (some policy)
      (codes "outbound")
      (codes "BAD.example.")
      (codes "1.2.3.4:443")
    ≡ blocked_decision
unfolding rule_mode normalize_domain to_lower trim_space trim_suffix
block_list_refuses_example =
    block_list_refuses names_only rule policy (codes "BAD.example.") (codes "1.2.3.4:443") refl
      (here (codes "*.evil.io" ∷ []))
      (record {
        not_blank = refl;
        no_network = refl;
        no_address = refl;
        has_name = refl;
        no_wildcard = refl;
      })
      refl compiles

abbrev options : Options
options = record {
  url = codes "http://policy";
  cache_file = codes "/tmp/cache";
  refresh_interval = pos 60000;
  fetch_timeout = pos 0;
  scope = [];
  app_name = codes "app";
  instance_ip = codes "10.0.0.1";
}

abbrev manager : Manager
manager = record {
  options = options;
  policy = none;
  source = [];
  last_refresh = none;
  last_error = none;
  stopped = false;
}

-- A world in which the server sends a document, and one in which it cannot be reached.
abbrev online : World
online = record {
  net = names_only;
  http_get = λ u a i. good (record { status = 200; content = good (codes "{}") });
  unmarshal = λ t. good document;
  read_cache = cache_missing;
  save_fault = no_fault;
  local_ip = bad (codes "none");
  now = 7;
}

abbrev offline : World
offline = record online {
  http_get = λ u a i. bad (codes "refused");
  read_cache = cached (codes "{}");
}

abbrev empty_disk : Disk
empty_disk = record { cache = none; temps = 0 }

reload-Reloaded_example : Reloaded offline manager empty_disk (reload offline manager empty_disk)
reload-Reloaded_example = reload-Reloaded offline manager empty_disk

refresh_loop-Held_example :
    Held
      (tick offline ∷ tick online ∷ stop ∷ [])
      manager
      (refresh_loop (tick offline ∷ tick online ∷ stop ∷ []) manager empty_disk).0.policy
refresh_loop-Held_example =
    refresh_loop-Held (tick offline ∷ tick online ∷ stop ∷ []) manager empty_disk

-- What a read of the cache file with this content answers.
reading : Option Str → CacheRead
reading none = cache_missing
reading (some s) = cached s

load_cache-reload_example :
    (load_cache offline manager).policy ≡ (reload online manager empty_disk).manager.policy
unfolding enabled trim_space fetch read_response parse compile compile_rules compile_rule
    compile_matcher_set contains_str normalize_domain str_eq to_lower trim_suffix insert reload
    reading
load_cache-reload_example =
    load_cache-reload online offline manager manager empty_disk (codes "{}") policy refl refl refl
      refl refl refl refl refl
      (λ s e. ap reading (
        sym (
          reload-writes online manager empty_disk (codes "{}") policy refl refl refl refl refl refl
            refl)
        ∙ e))
      refl

start-FromCache_example : FromCache policy (start offline offline manager empty_disk).0
unfolding enabled trim_space fetch read_response parse compile compile_rules compile_rule
    compile_matcher_set contains_str normalize_domain str_eq to_lower trim_suffix insert
start-FromCache_example =
    start-FromCache offline offline manager empty_disk (codes "{}") policy refl refl refl refl
      (λ k s q e f. cc)

manager_evaluate_iff_example :
    (manager_evaluate names_only
        (record manager { policy = some policy })
        (codes "outbound")
        (codes "bad.example")
        []
      ≡ blocked_decision)
    ↔ Refuses names_only
        (record manager { policy = some policy })
        (codes "outbound")
        (codes "bad.example")
        []
        blocked_decision
manager_evaluate_iff_example =
    manager_evaluate_iff names_only (record manager { policy = some policy }) (codes "outbound")
      (codes "bad.example") [] blocked_decision refl
