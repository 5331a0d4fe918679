-- ===== src/DomainPolicy/Manager.antt =====
-- cmd/proxy/domainpolicy/manager.go: the manager that fetches, caches and applies the policy. Each
-- method is one step; `World` holds what the network, the disk, the JSON decoder and the clock
-- answer during it. An empty lastError and a zero lastRefresh are `none`.
pub mod Freshness
pub mod Scope
use lhotse_agent.Prelude.{
  ℕ, ◌+◌, ◌≡◌, Bool, true, false, not, ◌&&◌, ◌||◌, List, [], ◌∷◌, Option, none, some, if◌then◌else◌,
  Str, codes, str_eq, is_empty, trim_space,
}
use lhotse_agent.Prelude.Int.{ℤ, pos, ltb_ℤ}
use lhotse_agent.Net.{Net}
use lhotse_agent.Remote.{
  Fallible, good, bad, Response, Fetched, body, fetch_error, bad_status, read_response, CacheRead,
  cached, cache_missing, cache_error, SaveFault, no_fault, mkdir_fails, temp_fails, write_fails,
  close_fails, rename_fails, Disk,
}
use lhotse_agent.DomainPolicy.{
  Policy, ConfigDocument, Decision, RuleSummary, compile, evaluate, summary, allow_all,
  direction_inbound, direction_outbound,
}
use lhotse_agent.DomainPolicy

abbrev pub scope_inbound : Str
scope_inbound = codes "inbound"

abbrev pub scope_outbound : Str
scope_outbound = codes "outbound"

abbrev pub scope_both : Str
scope_both = codes "both"

-- Durations are counted in milliseconds.
pub record Options : Type 0 where
  pub url : Str
  pub cache_file : Str
  pub refresh_interval : ℤ
  pub fetch_timeout : ℤ
  pub scope : Str
  pub app_name : Str
  pub instance_ip : Str

pub data Error : Type 0 where
  app_name_required instance_ip_required : Error
  instance_ip_lookup request_failed invalid_json : Str → Error
  status_failed : ℕ → Error
  invalid_policy : DomainPolicy.Error → Error

pub record Manager : Type 0 where
  pub options : Options
  pub policy : Option Policy
  pub source : Str
  pub last_refresh : Option ℕ
  pub last_error : Option Error
  pub stopped : Bool

pub record World : Type 0 where
  pub net : Net
  pub http_get : Str → Str → Str → Fallible Response
  pub unmarshal : Str → Fallible ConfigDocument
  pub read_cache : CacheRead
  pub save_fault : SaveFault
  pub local_ip : Fallible Str
  pub now : ℕ

pub data Outcome {ℓ} (A : Type ℓ) : Type ℓ where
  done : A → Outcome A
  failed : Error → Outcome A

abbrev or_default : Str → Str → Str
or_default s d = if is_empty s then d else s

pub new_manager : Options → Manager
new_manager o = record {
  options = record o {
    scope = or_default o.scope scope_outbound;
    fetch_timeout = if ltb_ℤ (pos 0) o.fetch_timeout then o.fetch_timeout else pos 5000;
    cache_file = or_default o.cache_file (codes "/tmp/lhotse-domain-policy-cache.json");
  };
  policy = none;
  source = [];
  last_refresh = none;
  last_error = none;
  stopped = false;
}

unfoldable pub enabled : Manager → Bool
enabled m = not (is_empty (trim_space m.options.url))

set_policy : Option Policy → Str → Option Error → ℕ → Manager → Manager
set_policy p source e now m = record m {
  policy = p;
  source = source;
  last_refresh = some now;
  last_error = e;
}

set_error : Error → Manager → Manager
set_error e m = record m { last_error = some e }

pub new_static_manager : Option Policy → Str → ℕ → Manager
unfolding set_policy
new_static_manager p scope now = set_policy p (codes "static") none now (
    new_manager (record {
      url = codes "static";
      cache_file = [];
      refresh_interval = pos 0;
      fetch_timeout = pos 0;
      scope = scope;
      app_name = [];
      instance_ip = [];
    }))

-- Parse
compiled : DomainPolicy.Result Policy → Outcome Policy
compiled (DomainPolicy.ok p) = done p
compiled (DomainPolicy.err e) = failed (invalid_policy e)

parse_document : World → Fallible ConfigDocument → Outcome Policy
unfolding compiled
parse_document w (good doc) = compiled (compile w.net doc)
parse_document w (bad e) = failed (invalid_json e)

unfoldable pub parse : World → Str → Outcome Policy
unfolding parse_document
parse w text = parse_document w (w.unmarshal text)

unfoldable pub fetch : World → Manager → Fetched
fetch w m = read_response (w.http_get m.options.url m.options.app_name m.options.instance_ip)

-- saveCache: the body reaches the cache file by a rename, the last of its steps. A temporary file
-- is removed where writing or closing it fails, and stays where the rename fails.
write_cache : SaveFault → Str → Disk → Disk
write_cache no_fault text d = record d { cache = some text }
write_cache mkdir_fails text d = d
write_cache temp_fails text d = d
write_cache write_fails text d = d
write_cache close_fails text d = d
write_cache rename_fails text d = record d { temps = d.temps + 1 }

pub save_cache : World → Manager → Str → Disk → Disk
unfolding write_cache
save_cache w m text d = if is_empty m.options.cache_file then d else write_cache w.save_fault text d

-- A step of the manager: its new state, what is on the disk, and the error that it returns.
pub record Stepped : Type 0 where
  pub manager : Manager
  pub disk : Disk
  pub result : Outcome (Unit {0})

abbrev fail_with : Error → Manager → Disk → Stepped
fail_with e m d = record { manager = set_error e m; disk = d; result = failed e }

apply_policy : World → Str → Manager → Disk → Outcome Policy → Stepped
unfolding set_error set_policy
apply_policy w text m d (failed e) = fail_with e m d
apply_policy w text m d (done p) =
    let m' = set_policy (some p) (codes "remote") none w.now m in
    record { manager = m'; disk = save_cache w m' text d; result = done tt }

apply_fetched : World → Manager → Disk → Fetched → Stepped
unfolding apply_policy set_error
apply_fetched w m d (fetch_error e) = fail_with (request_failed e) m d
apply_fetched w m d (bad_status n) = fail_with (status_failed n) m d
apply_fetched w m d (body text) = apply_policy w text m d (parse w text)

unfoldable pub reload : World → Manager → Disk → Stepped
unfolding apply_fetched set_error
reload w m d =
    if not (enabled m)
    then record { manager = m; disk = d; result = done tt }
    else if is_empty (trim_space m.options.app_name)
    then fail_with app_name_required m d
    else if is_empty (trim_space m.options.instance_ip)
    then fail_with instance_ip_required m d
    else apply_fetched w m d (fetch w m)

load_parsed : World → Manager → Outcome Policy → Manager
unfolding set_policy
load_parsed w m (failed e) = m
load_parsed w m (done p) = set_policy (some p) (codes "cache") none w.now m

load_read : World → Manager → CacheRead → Manager
unfolding load_parsed
load_read w m (cached text) = load_parsed w m (parse w text)
load_read w m cache_missing = m
load_read w m (cache_error e) = m

-- loadCache; its error is only logged.
pub load_cache : World → Manager → Manager
unfolding load_read
load_cache w m = if is_empty m.options.cache_file then m else load_read w m w.read_cache

resolve_ip : World → Manager → Manager
unfolding set_error
resolve_ip w m = if not (is_empty m.options.instance_ip) then m else elim w.local_ip [
  | good ip ↦ record m { options = record m.options { instance_ip = ip } }
  | bad e ↦ set_error (instance_ip_lookup e) m
]

-- Start; the flag says whether the refresh loop is started. The load of the cache and the reload
-- each have their own answers of the world.
pub start : World → World → Manager → Disk → Manager × Disk × Bool
unfolding resolve_ip
start w w' m d =
    if not (enabled m)
    then (m, d, false)
    else (let r = reload w' (load_cache w (resolve_ip w m)) d in
        (r.manager, r.disk, ltb_ℤ (pos 0) m.options.refresh_interval))

-- refreshLoop: what its select receives, in order.
pub data LoopEvent : Type 0 where
  tick : World → LoopEvent
  stop : LoopEvent

pub refresh_loop : List LoopEvent → Manager → Disk → Manager × Disk
refresh_loop [] m d = (m, d)
refresh_loop (stop ∷ es) m d = (m, d)
refresh_loop (tick w ∷ es) m d = let r = reload w m d in refresh_loop es r.manager r.disk

pub stop_manager : Manager → Manager
stop_manager m = record m { stopped = true }

pub direction_enabled : Manager → Str → Bool
direction_enabled m direction =
    if str_eq m.options.scope scope_both
    then true
    else if str_eq m.options.scope scope_inbound
    then str_eq direction direction_inbound
    else str_eq direction direction_outbound

pub manager_evaluate : Net → Manager → Str → Str → Str → Decision
manager_evaluate net m direction domain target =
    if not (enabled m) || not (direction_enabled m direction)
    then allow_all
    else evaluate net m.policy direction domain target

-- The durations and times are numbers here, which the source prints.
pub record Status : Type 0 where
  pub is_enabled : Bool
  pub url : Str
  pub cache_file : Str
  pub refresh_interval : ℤ
  pub scope : Str
  pub app_name : Str
  pub instance_ip : Str
  pub source : Str
  pub last_refresh : Option ℕ
  pub last_error : Option Error
  pub rules : List (Str × RuleSummary)

pub status : Manager → Status
status m = record {
  is_enabled = enabled m;
  url = m.options.url;
  cache_file = m.options.cache_file;
  refresh_interval = m.options.refresh_interval;
  scope = m.options.scope;
  app_name = m.options.app_name;
  instance_ip = m.options.instance_ip;
  source = m.source;
  last_refresh = m.last_refresh;
  last_error = m.last_error;
  rules = summary m.policy;
}
