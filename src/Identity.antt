-- ===== src/Identity.antt =====
-- pkg/identity/resolver.go: asking the vault for the user behind a token, with a cache. The calls of
-- Resolve are taken one after the other. Times are in nanoseconds; the hash of a token, the vault
-- and the clock are parameters of a call.

use lhotse_agent.Prelude.{
  ℕ, ◌*◌, ◌%◌, ◌^◌, not, ◌||◌, [], ◌++◌, ltb, ◌==◌, if◌then◌else◌, Str, codes, is_empty,
}
use lhotse_agent.Prelude.Int.{ℤ, pos, negsuc}
use lhotse_agent.Remote.{Fallible, good, bad}
use lhotse_agent.TtlCache.{Cache, Answer, keeps, passes, fails, Result, ok, err}
use lhotse_agent.TtlCache

pub record Payload : Type 0 where
  pub user_id : Str
  pub ttl_seconds : ℤ

pub data Error : Type 0 where
  request_failed invalid_json : Str → Error
  identity_status : ℕ → Error

-- A response of the vault: its status, and what decoding its body gives.
pub record VaultResponse : Type 0 where
  pub status : ℕ
  pub payload : Fallible Payload

-- `digest` is the SHA-256 of a token in hexadecimal.
pub record World : Type 0 where
  pub post : Str → Str → Fallible VaultResponse
  pub digest : Str → Str
  pub checked_at : ℕ
  pub stored_at : ℕ

-- The time to live. The product is an int64, so it wraps around; a negative one is counted as 0,
-- which has expired as well.
unfoldable pub ttl : ℤ → ℕ
ttl (negsuc n) = 30000000000
ttl (pos n) =
    let nanos = (n * 1000000000) % 2 ^ 64 in
    if n == 0 then 30000000000 else if ltb nanos (2 ^ 63) then nanos else 0

decoded : Fallible Payload → Answer Str Error
decoded (good p) = keeps p.user_id (ttl p.ttl_seconds)
decoded (bad e) = fails (invalid_json e)

-- What Resolve does with the response; a token that the vault does not know is not kept.
unfoldable pub read_answer : Fallible VaultResponse → Answer Str Error
unfolding decoded
read_answer (bad e) = fails (request_failed e)
read_answer (good r) =
    if r.status == 404
    then passes []
    else if not (r.status == 200)
    then fails (identity_status r.status)
    else decoded r.payload

unfoldable pub cache_key : World → Str → Str → Str
cache_key w provider token = provider ++ (codes ":" ++ w.digest token)

unfoldable pub call : World → Str → Str → TtlCache.Call Str Error
call w provider token = record {
  key = cache_key w provider token;
  checked_at = w.checked_at;
  stored_at = w.stored_at;
  answer = read_answer (w.post provider token);
}

-- Resolver.Resolve
unfoldable pub resolve : World → Str → Str → Str → Cache Str → Cache Str × Result Str Error
resolve w vault_uri provider token c =
    if is_empty vault_uri || is_empty provider || is_empty token
    then (c, ok [])
    else TtlCache.resolve (call w provider token) c
