-- ===== src/TtlCache/Examples.antt =====
-- The theorems about the caches of pkg/credential and pkg/identity at concrete inputs.
use lhotse_agent.Prelude.{ℕ, codes, Str}
use lhotse_agent.TtlCache.{keeps, fails, Call}

abbrev first : Call Str ℕ
first = record { key = codes "k"; checked_at = 1; stored_at = 2; answer = keeps (codes "v") 10 }

abbrev second : Call Str ℕ
second = record { key = codes "k"; checked_at = 5; stored_at = 6; answer = fails 500 }
