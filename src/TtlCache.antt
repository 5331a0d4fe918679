-- ===== src/TtlCache.antt =====
-- The cache that pkg/credential/resolver.go and pkg/identity/resolver.go keep: a sync.Map from a key
-- to a value and the time when it expires, and the part of both Resolve methods behind their
-- guards. Times are in milliseconds.
pub mod Sources
pub mod Examples
use lhotse_agent.Prelude.{
  ℕ, ◌+◌, Bool, true, false, List, [], ◌∷◌, Option, none, some, ltb, if◌then◌else◌, Str, lookup,
  insert, delete,
}

pub record Entry {ℓ} (V : Type ℓ) : Type ℓ where
  pub value : V
  pub expires_at : ℕ

abbrev pub Cache {ℓ} : Type ℓ → Type ℓ
Cache V = List (Str × Entry V)

-- What the service answers: a value to keep for a time, a value that is not kept, or an error.
pub data Answer {ℓ κ} (V : Type ℓ) (E : Type κ) : Type (ℓ ⊔ κ) where
  keeps : V → ℕ → Answer V E
  passes : V → Answer V E
  fails : E → Answer V E

pub data Result {ℓ κ} (V : Type ℓ) (E : Type κ) : Type (ℓ ⊔ κ) where
  ok : V → Result V E
  err : E → Result V E

-- One call: the key, the two readings of the clock, and what the service answers if it is asked.
pub record Call {ℓ κ} (V : Type ℓ) (E : Type κ) : Type (ℓ ⊔ κ) where
  pub key : Str
  pub checked_at : ℕ
  pub stored_at : ℕ
  pub answer : Answer V E

module _ {ℓ κ} {V : Type ℓ} {E : Type κ} where
  store_answer : Str → ℕ → Answer V E → Cache V → Cache V × Result V E
  store_answer key now (keeps v ttl) c =
      (insert key (record { value = v; expires_at = now + ttl }) c, ok v)
  store_answer key now (passes v) c = (c, ok v)
  store_answer key now (fails e) c = (c, err e)

  resolve_found : Call V E → Cache V → Option (Entry V) → Cache V × Result V E
  unfolding store_answer
  resolve_found k c none = store_answer k.key k.stored_at k.answer c
  resolve_found k c (some entry) =
      if ltb k.checked_at entry.expires_at
      then (c, ok entry.value)
      else store_answer k.key k.stored_at k.answer (delete k.key c)

  unfoldable pub resolve : Call V E → Cache V → Cache V × Result V E
  unfolding resolve_found
  resolve k c = resolve_found k c (lookup k.key c)

  -- Calls one after the other, the earliest first.
  unfoldable pub run : List (Call V E) → Cache V → Cache V
  run [] c = c
  run (k ∷ ks) c = run ks (resolve k c).0
