-- ===== src/RuntimeConfig/Examples.antt =====
-- Runs of the runtime configuration's manager, and its theorems at concrete inputs.
use lhotse_agent.Prelude.{
  to_lower, trim_suffix, ◌≡◌, refl, ◌↔◌, true, false, [], ◌∷◌, ◌++◌, none, codes, trim_space,
}
use lhotse_agent.Prelude.Int.{pos}
use lhotse_agent.Net.{Net}
use lhotse_agent.Remote.{good, bad, cache_missing, no_fault, Disk, read_response}
use lhotse_agent.RuntimeConfig.{
  Options, Document, Manager, World, normalize_host, mitm_enabled_for_host,
}
use lhotse_agent.RuntimeConfig.Refresh.{fetch, enabled, reload}
use lhotse_agent.RuntimeConfig.Hosts.{Selects}
use lhotse_agent.RuntimeConfig.Refresh.Reloading.{mitm_enabled-reload}

-- A package net that knows no address and splits nothing.
abbrev names_only : Net
names_only = record {
  split_host_port = λ s. none;
  join_host_port = λ h p. h ++ (codes ":" ++ p);
  parse_ip = λ s. none;
  parse_cidr = λ s. none;
  ip_equal = λ a b. false;
  contains = λ n a. false;
}

abbrev document : Document
document = record {
  mitm_hosts = codes "*.corp.example" ∷ codes "API.example." ∷ [];
  user_sources = [];
}

abbrev options : Options
options = record {
  url = codes "http://control/";
  cache_file = codes "/tmp/cache";
  refresh_interval = pos 60000;
  fetch_timeout = pos 0;
  app_name = codes "app";
  instance_ip = codes "10.0.0.1";
  agent_id = codes "agent";
}

abbrev manager : Manager
manager = record {
  options = options;
  cfg = none;
  source = [];
  last_refresh = none;
  last_error = none;
  stopped = false;
}

abbrev online : World
online = record {
  net = names_only;
  http_get = λ u q. good (record { status = 200; content = good (codes "{}") });
  unmarshal = λ t. good document;
  read_cache = cache_missing;
  save_fault = no_fault;
  local_ip = bad (codes "none");
  now = 7;
}

abbrev offline : World
offline = record online { http_get = λ u q. bad (codes "refused") }

abbrev empty_disk : Disk
empty_disk = record { cache = none; temps = 0 }

mitm_enabled-reload_example :
    (mitm_enabled_for_host names_only
        (reload online manager empty_disk).manager
        (codes "git.corp.example")
      ≡ true)
    ↔ Selects names_only document.mitm_hosts (normalize_host names_only (codes "git.corp.example"))
unfolding enabled trim_space fetch read_response normalize_host to_lower trim_suffix
mitm_enabled-reload_example =
    mitm_enabled-reload online manager empty_disk (codes "{}") document (codes "git.corp.example")
      refl refl refl refl refl
