-- ===== src/Injection.antt =====
-- cmd/proxy/credentials.go: finding the user of a request in its headers, and adding the credential of
-- the agent and the user to the request. A request's headers are a function from names to values;
-- setHeader is the list of calls made. The receiver's optional parts are `none` where they are nil.
pub mod Tokens
pub mod Users
pub mod Examples
use lhotse_agent.Prelude.{
  ℕ, ◌+◌, not, List, [], ◌∷◌, ◌++◌, Option, none, some, length, drop, if◌then◌else◌, Str, str_eq,
  is_empty, trim_space, to_lower, has_prefix,
}
use lhotse_agent.Net.{Net}
use lhotse_agent.TtlCache.{Cache, Result, ok, err}
use lhotse_agent.RuntimeConfig.{
  UserSource, user_source_oauth2_token, user_source_header, normalize_host,
}
use lhotse_agent.Credential
use lhotse_agent.Identity

pub data TokenError : Type 0 where
  missing_prefix empty_token : TokenError

-- trimTokenPrefix. ToLower keeps the length of ASCII text, so the slice behind the prefix is in range.
pub trim_token_prefix : Str → Str → Result Str TokenError
trim_token_prefix raw raw_prefix =
    let value = trim_space raw in
    if is_empty raw_prefix
    then ok value
    else (let prefix = trim_space raw_prefix in
        if not (has_prefix (to_lower value) (to_lower prefix))
        then err missing_prefix
        else (let token = trim_space (drop (length prefix) value) in
            if is_empty token then err empty_token else ok token))

-- What one request meets: its headers, and the vault and the clock at the k-th call of the identity
-- resolver.
pub record Request : Type 0 where
  pub get_header : Str → Str
  pub identity : ℕ → Identity.World
  pub identity_uri : Str

-- Asking for the user behind a token; `rest` is what the later sources give.
ask :
    Cache Str
    → Result Str Identity.Error
    → Cache Str × Result Str Identity.Error
    → Cache Str × Result Str Identity.Error
ask c (err e) rest = (c, err e)
ask c (ok user) rest = if not (is_empty user) then (c, ok user) else rest

-- The token of a source's header, if it has one.
pub token_of : Request → UserSource → Option Str
token_of r s =
    let raw = trim_space (r.get_header s.header) in
    if is_empty raw
    then none
    else elim (trim_token_prefix raw s.prefix) [ ok token ↦ some token | err e ↦ none ]

-- The loop of resolveUserID; `k` counts the calls of the identity resolver.
pub user_loop : Request → ℕ → List UserSource → Cache Str → Cache Str × Result Str Identity.Error
unfolding ask
user_loop r k [] c = (c, ok [])
user_loop r k (s ∷ ss) c =
    let skip = user_loop r k ss c in
    let raw = trim_space (r.get_header s.header) in
    if str_eq s.kind user_source_oauth2_token
    then elim (token_of r s) [
      | none ↦ skip
      | some token ↦
          let asked = Identity.resolve (r.identity k) r.identity_uri s.provider token c in
          ask asked.0 asked.1 (user_loop r (k + 1) ss asked.0)
    ]
    else if str_eq s.kind user_source_header
    then (if not (is_empty raw) then (c, ok raw) else skip)
    else skip

-- resolveUserID: the sources of the runtime configuration, if it and the resolver are there.
pub resolve_user_id :
    Request → Option (List UserSource) → Cache Str → Cache Str × Result Str Identity.Error
resolve_user_id r sources c = elim sources [ none ↦ (c, ok []) | some ss ↦ user_loop r 0 ss c ]

pub data InjectionError : Type 0 where
  identity_failed : Identity.Error → InjectionError
  credential_failed : Credential.Error → InjectionError

-- What applyCredentialInjection leaves: both caches, the headers set, the user and the error.
pub record Injected : Type 0 where
  pub users : Cache Str
  pub credentials : Cache (Option Credential.Credential)
  pub set_headers : List (Str × Str)
  pub user_id : Str
  pub error : Option InjectionError

-- The agent's side: the vault of the credential resolver and the configured agent id.
pub record Agent : Type 0 where
  pub net : Net
  pub vault : Credential.World
  pub vault_uri : Str
  pub agent_id : Str

set_credential : Option Credential.Credential → List (Str × Str)
set_credential none = []
set_credential (some c) = (c.header_name, c.header_prefix ++ c.value) ∷ []

inject_resolved :
    Cache Str
    → Str
    → Cache (Option Credential.Credential) × Result (Option Credential.Credential) Credential.Error
    → Injected
unfolding set_credential
inject_resolved users user (credentials, err e) = record {
  users = users;
  credentials = credentials;
  set_headers = [];
  user_id = user;
  error = some (credential_failed e);
}
inject_resolved users user (credentials, ok cred) = record {
  users = users;
  credentials = credentials;
  set_headers = set_credential cred;
  user_id = user;
  error = none;
}

inject_user :
    Agent
    → Str
    → Cache (Option Credential.Credential)
    → Cache Str × Result Str Identity.Error
    → Injected
unfolding inject_resolved
inject_user a host credentials (users, err e) = record {
  users = users;
  credentials = credentials;
  set_headers = [];
  user_id = [];
  error = some (identity_failed e);
}
inject_user a host credentials (users, ok user) =
    inject_resolved users user (
      Credential.resolve a.vault a.vault_uri a.agent_id (normalize_host a.net host) user
        credentials)

-- applyCredentialInjection; `agent` is `none` where the server has no credential resolver.
unfoldable pub apply_credential_injection :
    Option Agent
    → Str
    → Request
    → Option (List UserSource)
    → Cache Str
    → Cache (Option Credential.Credential)
    → Injected
unfolding inject_user
apply_credential_injection none host r sources users credentials = record {
  users = users;
  credentials = credentials;
  set_headers = [];
  user_id = [];
  error = none;
}
apply_credential_injection (some a) host r sources users credentials =
    inject_user a host credentials (resolve_user_id r sources users)
