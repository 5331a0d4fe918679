-- ===== src/RuntimeConfig/Refresh.antt =====
-- cmd/proxy/runtimeconfig/manager.go: how the manager fetches, caches and replaces its configuration.
-- Each method is one step.
pub mod Reloading
use lhotse_agent.Prelude.{
  ℕ, ◌≡◌, Bool, true, false, not, ◌||◌, List, [], ◌∷◌, ◌++◌, Option, none, some, if◌then◌else◌, Str,
  codes, str_eq, is_empty, trim_space, length, reverse, lookup, insert, ◌==◌, has_prefix,
  has_suffix, trim_prefix, trim_suffix, to_lower,
}
use lhotse_agent.Prelude.Int.{ℤ, pos, ltb_ℤ}
use lhotse_agent.Net.{Net}
use lhotse_agent.Remote.{
  Fallible, good, bad, Response, Fetched, body, fetch_error, bad_status, read_response, CacheRead,
  cached, cache_missing, cache_error, SaveFault, no_fault, mkdir_fails, temp_fails, write_fails,
  close_fails, rename_fails, Disk,
}
use lhotse_agent.RuntimeConfig.{
  UserSource, Document, Options, Compiled, Error, Outcome, Manager, World, compile, done, failed,
  agent_id_required, instance_ip_lookup, request_failed, invalid_json, status_failed,
}

pub new_manager : Options → Manager
new_manager o = record {
  options = record o {
    fetch_timeout = if ltb_ℤ (pos 0) o.fetch_timeout then o.fetch_timeout else pos 5000;
    cache_file =
        if is_empty o.cache_file
        then codes "/tmp/lhotse-credential-runtime-cache.json"
        else o.cache_file;
  };
  cfg = none;
  source = [];
  last_refresh = none;
  last_error = none;
  stopped = false;
}

unfoldable pub enabled : Manager → Bool
enabled m = not (is_empty (trim_space m.options.url))

set_config : Compiled → Str → ℕ → Manager → Manager
set_config c source now m = record m {
  cfg = some c;
  source = source;
  last_refresh = some now;
  last_error = none;
}

set_error : Error → Manager → Manager
set_error e m = record m { last_error = some e }

parse_document : World → Fallible Document → Outcome Compiled
parse_document w (good doc) = done (compile w.net doc)
parse_document w (bad e) = failed (invalid_json e)

unfoldable pub parse : World → Str → Outcome Compiled
unfolding parse_document
parse w text = parse_document w (w.unmarshal text)

-- strings.TrimRight(url, "/")
drop_slashes : Str → Str
drop_slashes [] = []
drop_slashes (c ∷ s) = let rest = drop_slashes s in if c == 47 then rest else c ∷ s

endpoint : Manager → Str
unfolding drop_slashes
endpoint m =
    reverse (drop_slashes (reverse m.options.url)) ++ codes "/internal/credential-runtime-config"

-- A query parameter that is set only if it is not empty.
if_set : Str → Str → List (Str × Str)
if_set name value = if is_empty value then [] else (name, value) ∷ []

query : Manager → List (Str × Str)
unfolding if_set
query m =
    if_set (codes "app") m.options.app_name
    ++ (if_set (codes "ip") m.options.instance_ip ++ (codes "agent_id", m.options.agent_id) ∷ [])

unfoldable pub fetch : World → Manager → Fetched
unfolding endpoint query
fetch w m = read_response (w.http_get (endpoint m) (query m))

-- saveCache; the deferred os.Remove leaves no temporary file on any path.
write_cache : SaveFault → Str → Disk → Disk
write_cache no_fault text d = record d { cache = some text }
write_cache mkdir_fails text d = d
write_cache temp_fails text d = d
write_cache write_fails text d = d
write_cache close_fails text d = d
write_cache rename_fails text d = d

pub save_cache : World → Manager → Str → Disk → Disk
unfolding write_cache
save_cache w m text d = if is_empty m.options.cache_file then d else write_cache w.save_fault text d

pub record Stepped : Type 0 where
  pub manager : Manager
  pub disk : Disk
  pub result : Outcome (Unit {0})

abbrev fail_with : Error → Manager → Disk → Stepped
fail_with e m d = record { manager = set_error e m; disk = d; result = failed e }

apply_config : World → Str → Manager → Disk → Outcome Compiled → Stepped
unfolding set_error set_config
apply_config w text m d (failed e) = fail_with e m d
apply_config w text m d (done c) =
    let m' = set_config c (codes "remote") w.now m in
    record { manager = m'; disk = save_cache w m' text d; result = done tt }

apply_fetched : World → Manager → Disk → Fetched → Stepped
unfolding apply_config set_error
apply_fetched w m d (fetch_error e) = fail_with (request_failed e) m d
apply_fetched w m d (bad_status n) = fail_with (status_failed n) m d
apply_fetched w m d (body text) = apply_config w text m d (parse w text)

unfoldable pub reload : World → Manager → Disk → Stepped
unfolding apply_fetched set_error
reload w m d =
    if not (enabled m)
    then record { manager = m; disk = d; result = done tt }
    else if is_empty (trim_space m.options.agent_id)
    then fail_with agent_id_required m d
    else apply_fetched w m d (fetch w m)

load_parsed : World → Manager → Outcome Compiled → Manager
unfolding set_config
load_parsed w m (failed e) = m
load_parsed w m (done c) = set_config c (codes "cache") w.now m

load_read : World → Manager → CacheRead → Manager
unfolding load_parsed
load_read w m (cached text) = load_parsed w m (parse w text)
load_read w m cache_missing = m
load_read w m (cache_error e) = m

-- loadCache; its error is only logged.
pub load_cache : World → Manager → Manager
unfolding load_read
load_cache w m = if is_empty m.options.cache_file then m else load_read w m w.read_cache

resolve_ip : World → Manager → Manager
unfolding set_error
resolve_ip w m = if not (is_empty m.options.instance_ip) then m else elim w.local_ip [
  | good ip ↦ record m { options = record m.options { instance_ip = ip } }
  | bad e ↦ set_error (instance_ip_lookup e) m
]

-- Start; the flag says whether the refresh loop is started.
pub start : World → World → Manager → Disk → Manager × Disk × Bool
unfolding resolve_ip
start w w' m d =
    if not (enabled m)
    then (m, d, false)
    else (let r = reload w' (load_cache w (resolve_ip w m)) d in
        (r.manager, r.disk, ltb_ℤ (pos 0) m.options.refresh_interval))

-- refreshLoop: what its select receives, in order.
pub data LoopEvent : Type 0 where
  tick : World → LoopEvent
  stop : LoopEvent

pub refresh_loop : List LoopEvent → Manager → Disk → Manager × Disk
refresh_loop [] m d = (m, d)
refresh_loop (stop ∷ es) m d = (m, d)
refresh_loop (tick w ∷ es) m d = let r = reload w m d in refresh_loop es r.manager r.disk

pub stop_manager : Manager → Manager
stop_manager m = record m { stopped = true }

-- The durations and times are numbers here, which the source prints.
pub record Status : Type 0 where
  pub is_enabled : Bool
  pub url : Str
  pub cache_file : Str
  pub refresh_interval : ℤ
  pub app_name : Str
  pub instance_ip : Str
  pub agent_id : Str
  pub source : Str
  pub last_refresh : Option ℕ
  pub last_error : Option Error
  pub mitm_hosts : List Str
  pub source_count : ℕ

pub status : Manager → Status
status m = record {
  is_enabled = enabled m;
  url = m.options.url;
  cache_file = m.options.cache_file;
  refresh_interval = m.options.refresh_interval;
  app_name = m.options.app_name;
  instance_ip = m.options.instance_ip;
  agent_id = m.options.agent_id;
  source = m.source;
  last_refresh = m.last_refresh;
  last_error = m.last_error;
  mitm_hosts = elim m.cfg [ none ↦ [] | some c ↦ c.doc.mitm_hosts ];
  source_count = elim m.cfg [ none ↦ 0 | some c ↦ length c.doc.user_sources ];
}
