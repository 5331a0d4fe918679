-- ===== src/RuntimeConfig.antt =====
-- cmd/proxy/runtimeconfig/manager.go: the document that tells for which hosts TLS is intercepted and
-- where a request names its user, the state of its manager, and the questions that the proxy asks of
-- it. `World` holds what the network, the disk, the JSON decoder and the clock answer during a step.
pub mod Hosts
pub mod Refresh
pub mod Examples
use lhotse_agent.Prelude.{
  ℕ, ◌≡◌, Bool, true, false, not, ◌||◌, List, [], ◌∷◌, ◌++◌, Option, none, some, if◌then◌else◌, Str,
  codes, str_eq, is_empty, trim_space, length, reverse, lookup, insert, ◌==◌, has_prefix,
  has_suffix, trim_prefix, trim_suffix, to_lower,
}
use lhotse_agent.Prelude.Int.{ℤ, pos, ltb_ℤ}
use lhotse_agent.Net.{Net}
use lhotse_agent.Remote.{
  Fallible, good, bad, Response, Fetched, body, fetch_error, bad_status, read_response, CacheRead,
  cached, cache_missing, cache_error, SaveFault, no_fault, mkdir_fails, temp_fails, write_fails,
  close_fails, rename_fails, Disk,
}

abbrev pub user_source_oauth2_token : Str
user_source_oauth2_token = codes "oauth2_token"

abbrev pub user_source_header : Str
user_source_header = codes "trusted_header"

pub record UserSource : Type 0 where
  pub kind : Str
  pub header : Str
  pub prefix : Str
  pub provider : Str

pub record Document : Type 0 where
  pub mitm_hosts : List Str
  pub user_sources : List UserSource

-- Durations are counted in milliseconds.
pub record Options : Type 0 where
  pub url : Str
  pub cache_file : Str
  pub refresh_interval : ℤ
  pub fetch_timeout : ℤ
  pub app_name : Str
  pub instance_ip : Str
  pub agent_id : Str

pub record Compiled : Type 0 where
  pub doc : Document
  pub exact : List (Str × Unit {0})
  pub wildcards : List Str

pub data Error : Type 0 where
  agent_id_required : Error
  instance_ip_lookup request_failed invalid_json : Str → Error
  status_failed : ℕ → Error

pub data Outcome {ℓ} (A : Type ℓ) : Type ℓ where
  done : A → Outcome A
  failed : Error → Outcome A

-- `stopped` says whether the channel `stop` is closed.
pub record Manager : Type 0 where
  pub options : Options
  pub cfg : Option Compiled
  pub source : Str
  pub last_refresh : Option ℕ
  pub last_error : Option Error
  pub stopped : Bool

-- `http_get` takes the endpoint and the query parameters that are set on it.
pub record World : Type 0 where
  pub net : Net
  pub http_get : Str → List (Str × Str) → Fallible Response
  pub unmarshal : Str → Fallible Document
  pub read_cache : CacheRead
  pub save_fault : SaveFault
  pub local_ip : Fallible Str
  pub now : ℕ

-- Hosts
split_host : Net → Str → Str
split_host net host = elim (net.split_host_port host) [ none ↦ host | some (h, p) ↦ h ]

unfoldable pub normalize_host : Net → Str → Str
unfolding split_host
normalize_host net raw =
    let host = trim_space raw in
    if is_empty host
    then []
    else to_lower (
        trim_suffix (trim_suffix (trim_prefix (split_host net host) (codes "[")) (codes "]"))
          (codes "."))

add_host : Net → Compiled → Str → Compiled
add_host net c raw =
    let host = normalize_host net raw in
    if is_empty host
    then c
    else if has_prefix host (codes "*.")
    then record c { wildcards = c.wildcards ++ trim_prefix host (codes "*.") ∷ [] }
    else record c { exact = insert host tt c.exact }

add_hosts : Net → Compiled → List Str → Compiled
add_hosts net c [] = c
add_hosts net c (raw ∷ hosts) = add_hosts net (add_host net c raw) hosts

pub compile : Net → Document → Compiled
compile net doc = add_hosts net (record { doc = doc; exact = []; wildcards = [] }) doc.mitm_hosts

wildcard_covers : Str → List Str → Bool
wildcard_covers host [] = false
wildcard_covers host (suffix ∷ rest) =
    let more = wildcard_covers host rest in
    if str_eq host suffix || has_suffix host (codes "." ++ suffix) then true else more

pub covers : Compiled → Str → Bool
unfolding wildcard_covers
covers c host = elim (lookup host c.exact) [
  | some found ↦ true
  | none ↦ wildcard_covers host c.wildcards
]

pub mitm_enabled_for_host : Net → Manager → Str → Bool
unfolding covers
mitm_enabled_for_host net m raw =
    let host = normalize_host net raw in
    if is_empty host then false else elim m.cfg [ none ↦ false | some c ↦ covers c host ]

pub user_sources : Manager → List UserSource
user_sources m = elim m.cfg [ none ↦ [] | some c ↦ c.doc.user_sources ]
