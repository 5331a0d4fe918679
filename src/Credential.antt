-- ===== src/Credential.antt =====
-- pkg/credential/fetcher.go and resolver.go: asking the vault for the credential of an agent and a
-- user at a host, with a cache. The calls of Resolve are taken one after the other. Times are in
-- nanoseconds; what the vault and the clock answer are parameters of a call.

pub mod Answers
pub mod Examples
use lhotse_agent.Prelude.{
  ℕ, not, Option, none, List, ◌++◌, ◌==◌, if◌then◌else◌, Str, codes, is_empty,
}
use lhotse_agent.Remote.{Fallible, good, bad}
use lhotse_agent.TtlCache.{Cache, Answer, keeps, fails, Result, ok, err}
use lhotse_agent.TtlCache

pub record Credential : Type 0 where
  pub header_name : Str
  pub header_prefix : Str
  pub value : Str

pub data Error : Type 0 where
  request_failed invalid_json : Str → Error
  vault_status : ℕ → Error

-- A response of the vault: its status, and what decoding its body gives.
pub record VaultResponse : Type 0 where
  pub status : ℕ
  pub payload : Fallible (Option Credential)

-- What a call of Resolve meets: the vault, and the clock when the cache is checked and filled.
pub record World : Type 0 where
  pub post : Str → Str → Str → Fallible VaultResponse
  pub checked_at : ℕ
  pub stored_at : ℕ

decoded : Fallible (Option Credential) → Result (Option Credential) Error
decoded (good c) = ok c
decoded (bad e) = err (invalid_json e)

read_answer : Fallible VaultResponse → Result (Option Credential) Error
unfolding decoded
read_answer (bad e) = err (request_failed e)
read_answer (good r) =
    if r.status == 404
    then ok none
    else if not (r.status == 200)
    then err (vault_status r.status)
    else decoded r.payload

-- Fetcher.Fetch
unfoldable pub fetch : World → Str → Str → Str → Str → Result (Option Credential) Error
unfolding read_answer
fetch w vault_uri agent_id target_host user_id =
    if is_empty vault_uri then ok none else read_answer (w.post agent_id target_host user_id)

abbrev pub ttl : ℕ
ttl = 30000000000

unfoldable pub fmt_key : Str → Str → Str → Str
fmt_key agent_id target_host user_id =
    agent_id ++ (codes ":" ++ (target_host ++ (codes ":" ++ user_id)))

-- What Resolve does with the answer of Fetch: a credential is kept, the lack of one too.
unfoldable pub to_answer : Result (Option Credential) Error → Answer (Option Credential) Error
to_answer (ok c) = keeps c ttl
to_answer (err e) = fails e

unfoldable pub call : World → Str → Str → Str → Str → TtlCache.Call (Option Credential) Error
call w vault_uri agent_id target_host user_id = record {
  key = fmt_key agent_id target_host user_id;
  checked_at = w.checked_at;
  stored_at = w.stored_at;
  answer = to_answer (fetch w vault_uri agent_id target_host user_id);
}

-- Resolver.Resolve
unfoldable pub resolve :
    World
    → Str
    → Str
    → Str
    → Str
    → Cache (Option Credential)
    → Cache (Option Credential) × Result (Option Credential) Error
resolve w vault_uri agent_id target_host user_id c =
    if is_empty vault_uri
    then (c, ok none)
    else TtlCache.resolve (call w vault_uri agent_id target_host user_id) c

-- The arguments of one call of Resolve, and a history of calls.
pub record Request : Type 0 where
  pub world : World
  pub agent_id : Str
  pub target_host : Str
  pub user_id : Str

pub resolves : Str → List Request → Cache (Option Credential) → Cache (Option Credential)
resolves vault_uri List.[] c = c
resolves vault_uri (List.◌∷◌ r rs) c =
    resolves vault_uri rs (resolve r.world vault_uri r.agent_id r.target_host r.user_id c).0
