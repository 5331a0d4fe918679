-- ===== src/Remote.antt =====
-- What the two configuration managers share: the answers of the HTTP client and of the file system,
-- as parameters of a call. Errors carry their text.
use lhotse_agent.Prelude.{ℕ, Option, ◌||◌, ltb, leb, if◌then◌else◌, Str}

pub data Fallible {ℓ} (A : Type ℓ) : Type ℓ where
  good : A → Fallible A
  bad : Str → Fallible A

-- An HTTP response; `content` is what io.ReadAll of its body gives.
pub record Response : Type 0 where
  pub status : ℕ
  pub content : Fallible Str

-- The result of a fetch: the body, an error text, or a status outside 200..299.
pub data Fetched : Type 0 where
  body : Str → Fetched
  fetch_error : Str → Fetched
  bad_status : ℕ → Fetched

read_content : Fallible Str → Fetched
read_content (good text) = body text
read_content (bad e) = fetch_error e

-- The part of both fetch methods behind the request.
unfoldable pub read_response : Fallible Response → Fetched
unfolding read_content
read_response (bad e) = fetch_error e
read_response (good r) =
    if ltb r.status 200 || leb 300 r.status then bad_status r.status else read_content r.content

-- Reading the cache file: its text, os.IsNotExist, or another error.
pub data CacheRead : Type 0 where
  cached : Str → CacheRead
  cache_missing : CacheRead
  cache_error : Str → CacheRead

-- The step of saveCache that fails, if one does.
pub data SaveFault : Type 0 where
  no_fault mkdir_fails temp_fails write_fails close_fails rename_fails : SaveFault

-- The cache file's content, and the temporary files left in its directory.
pub record Disk : Type 0 where
  pub cache : Option Str
  pub temps : ℕ
