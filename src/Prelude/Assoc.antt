-- ===== src/Prelude/Assoc.antt =====
-- A Go map with string keys, as an association list.
use mathlib.Core.Path.{◌≡◌, refl, subst}
use mathlib.Core.Logic.{inl, inr}
use mathlib.Core.List.{List, [], ◌∷◌}
use mathlib.Core.Option.{Option, none, some}
use native.Mathlib.Omega.{arith}
use lhotse_agent.Prelude.Tests.{if◌then◌else◌, Bool-cases}
use lhotse_agent.Prelude.Lists.{All}
use lhotse_agent.Prelude.Text.{Str, str_eq, str_eq_sound, str_eq_iff, str_eq_refl}

module _ {ℓ} {V : Type ℓ} where
  -- m[k], with `none` for a key that is missing.
  unfoldable pub lookup : Str → List (Str × V) → Option V
  lookup k [] = none
  lookup k ((j, v) ∷ m) = if str_eq j k then some v else lookup k m

  -- m[k] = v
  unfoldable pub insert : Str → V → List (Str × V) → List (Str × V)
  insert k v [] = (k, v) ∷ []
  insert k v ((j, w) ∷ m) = if str_eq j k then (k, v) ∷ m else (j, w) ∷ insert k v m

  -- delete(m, k)
  unfoldable pub delete : Str → List (Str × V) → List (Str × V)
  delete k [] = []
  delete k ((j, v) ∷ m) = let rest = delete k m in if str_eq j k then rest else (j, v) ∷ rest

  pub lookup-insert :
      (k j : Str) (v : V) (m : List (Str × V))
      → lookup j (insert k v m) ≡ (if str_eq k j then some v else lookup j m)
  unfolding lookup insert
  lookup-insert k j v [] = refl
  lookup-insert k j v ((i, w) ∷ m) =
      ground (arith, str_eq_iff k j, str_eq_iff i k, str_eq_iff i j, lookup-insert k j v m)

  pub lookup-insert_self : (k : Str) (v : V) (m : List (Str × V)) → lookup k (insert k v m) ≡ some v
  lookup-insert_self k v m = rw (lookup-insert k k v m, str_eq_refl k)

  pub lookup-delete :
      (k j : Str) (m : List (Str × V))
      → lookup j (delete k m) ≡ (if str_eq k j then none else lookup j m)
  unfolding lookup delete
  lookup-delete k j [] = ground arith
  lookup-delete k j ((i, w) ∷ m) =
      ground (arith, str_eq_iff k j, str_eq_iff i k, str_eq_iff i j, lookup-delete k j m)

  -- What holds of every entry of a map holds of the value under a key.
  pub lookup-All {κ} :
      (P : Str × V → Type κ) (k : Str) (m : List (Str × V)) (v : V)
      → All P m
      → lookup k m ≡ some v
      → P (k, v)
  unfolding lookup
  lookup-All P k [] v a h = absurd (let clash = h in cc)
  lookup-All P k ((j, w) ∷ m) v a h = elim (Bool-cases (str_eq j k)) [
    | inr other ↦ lookup-All P k m v a.1 (let rest = rw other at h in rest)
    | inl same ↦
        let found : some w ≡ some v = rw same at h in
        let value : w ≡ v = some_same w v found in
        subst (λ (j : Str). P (j, v)) (str_eq_sound j k same)
          (subst (λ (x : V). P (j, x)) value a.0)
  ]
    where
      some_same : (w v : V) → some w ≡ some v → w ≡ v
      some_same w v g = cc

  -- It holds of every entry still if it holds of an entry that is set.
  pub insert-All {κ} :
      (P : Str × V → Type κ) (k : Str) (v : V) (m : List (Str × V))
      → P (k, v)
      → All P m
      → All P (insert k v m)
  unfolding insert
  insert-All P k v [] p a = (p, a)
  insert-All P k v ((j, w) ∷ m) p a = elim (Bool-cases (str_eq j k)) [
    | inl same ↦ rw same (p, a.1)
    | inr other ↦ rw other (a.0, insert-All P k v m p a.1)
  ]
