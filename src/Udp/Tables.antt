-- ===== src/Udp/Tables.antt =====
-- Tables whose keys have one entry each, as the maps of cmd/proxy/udp.go are.
use lhotse_agent.Prelude.{
  str_eq_sound, subst, Bool, ◌==◌, if◌then◌else◌, ◌≤◌, ℕ, suc, ◌+◌, ◌≡◌, refl, ap, inl, inr, List,
  [], ◌∷◌, none, some, arith, Str, str_eq, str_eq_iff, lookup, insert, delete, Bool-cases,
}

module _ {V : Type 0} where
  -- How many entries a table has under a key.
  abbrev pub entries : Str → List (Str × V) → ℕ
  entries k [] = 0
  entries k ((j, v) ∷ m) = if str_eq j k then suc (entries k m) else entries k m

  -- No key has two entries.
  abbrev pub IsTable : List (Str × V) → Type 0
  IsTable m = (k : Str) → entries k m ≤ 1

  pub lookup-entries : (k : Str) (m : List (Str × V)) → lookup k m ≡ none → entries k m ≡ 0
  unfolding lookup
  lookup-entries k [] h = refl
  lookup-entries k ((j, v) ∷ m) h = elim (Bool-cases (str_eq j k)) [
    | inl same ↦ absurd (let clash = rw same at h in cc)
    | inr other ↦ rw other (lookup-entries k m (let rest = rw other at h in rest))
  ]

  pub entries-insert :
      (k i : Str) (v : V) (m : List (Str × V))
      → entries i (insert k v m) ≤ entries i m + (if str_eq k i then 1 else 0)
  unfolding insert
  entries-insert k i v [] = ground arith
  entries-insert k i v ((j, w) ∷ m) =
      ground (arith, entries-insert k i v m, str_eq_iff j k, str_eq_iff k i, str_eq_iff j i)

  pub entries-delete : (k i : Str) (m : List (Str × V)) → entries i (delete k m) ≤ entries i m
  unfolding delete
  entries-delete k i [] = omega arith
  entries-delete k i ((j, w) ∷ m) = ground (arith, entries-delete k i m)

  pub insert-IsTable :
      (k : Str) (v : V) (m : List (Str × V))
      → lookup k m ≡ none
      → IsTable m
      → IsTable (insert k v m)
  insert-IsTable k v m h t i = elim (Bool-cases (str_eq k i)) [
    | inl same ↦
        let e : k ≡ i = str_eq_sound k i same in
        let empty : entries i m ≡ 0 =
          subst (λ (j : Str). entries j m ≡ 0) e (lookup-entries k m h) in
        let grown : entries i (insert k v m) ≤ entries i m + 1 = bound same in
        omega (arith, empty, grown)
    | inr other ↦
        let grown : entries i (insert k v m) ≤ entries i m + 0 = bound other in
        omega (arith, t i, grown)
  ]
    where
      bound :
          {b : Bool}
          → str_eq k i ≡ b
          → entries i (insert k v m) ≤ entries i m + (if b then 1 else 0)
      bound {b} e =
          subst (λ (c : Bool). entries i (insert k v m) ≤ entries i m + (if c then 1 else 0)) e
            (entries-insert k i v m)

  pub delete-IsTable : (k : Str) (m : List (Str × V)) → IsTable m → IsTable (delete k m)
  delete-IsTable k m t i = omega (arith, entries-delete k i m, t i)

  delete_absent : (k : Str) (m : List (Str × V)) → entries k m ≡ 0 → delete k m ≡ m
  unfolding delete
  delete_absent k [] h = refl
  delete_absent k ((j, w) ∷ m) h = elim (Bool-cases (str_eq j k)) [
    | inl same ↦ absurd (let clash = rw same at h in omega (arith, clash))
    | inr other ↦ rw other (ap (◌∷◌ (j, w)) (delete_absent k m (let rest = rw other at h in rest)))
  ]

  -- How often a number is the measure of a value of the table.
  abbrev pub uses : (V → ℕ) → ℕ → List (Str × V) → ℕ
  uses f n [] = 0
  uses f n ((j, v) ∷ m) = (if f v == n then 1 else 0) + uses f n m

  pub uses-insert :
      (f : V → ℕ) (n : ℕ) (k : Str) (v : V) (m : List (Str × V))
      → lookup k m ≡ none
      → uses f n (insert k v m) ≡ uses f n m + (if f v == n then 1 else 0)
  unfolding lookup insert
  uses-insert f n k v [] h = omega arith
  uses-insert f n k v ((j, w) ∷ m) h = elim (Bool-cases (str_eq j k)) [
    | inl same ↦ absurd (let clash = rw same at h in cc)
    | inr other ↦ rw other (omega (arith, uses-insert f n k v m (let rest = rw other at h in rest)))
  ]

  pub uses-delete :
      (f : V → ℕ) (n : ℕ) (k : Str) (v : V) (m : List (Str × V))
      → entries k m ≤ 1
      → lookup k m ≡ some v
      → uses f n (delete k m) + (if f v == n then 1 else 0) ≡ uses f n m
  unfolding lookup delete
  uses-delete f n k v [] t h = absurd (let clash = h in cc)
  uses-delete f n k v ((j, w) ∷ m) t h = elim (Bool-cases (str_eq j k)) [
    | inl same ↦
        let alone : suc (entries k m) ≤ 1 = rw same at t in
        let found : some w ≡ some v = rw same at h in
        let gone = delete_absent k m (omega (arith, alone)) in
        rw (same, gone, some_same w v found) (omega arith)
    | inr other ↦ rw other (
        omega (
          arith,
          uses-delete f n k v m (let one = rw other at t in one) (let rest = rw other at h in rest),
        ))
  ]
    where
      some_same : (w v : V) → some w ≡ some v → w ≡ v
      some_same w v g = cc
