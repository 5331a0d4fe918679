-- ===== src/Balancer/Turns.antt =====
-- Whose turn it is in cmd/config/roundRobinLoadbalancer.go.
use lhotse_agent.Prelude.{
  ◌↔◌, ◌⊎◌, [], ◌∷◌, some, In, here, there, subst, inl, inr, Bool-cases, ℕ, suc, zero, ◌+◌, ◌%◌,
  ◌^◌, ◌<◌, ◌≡◌, refl, ap, ◌∙◌, false, List, none, length, get_elem?, ◌==◌, arith,
}
use native.Mathlib.Nat.{mod-lt, mod-eq_of_lt}
use lhotse_agent.Prelude.Int.{ℤ, pos, negsuc, ◌-ℤ◌, -ℤ_parts, eq_of_parts}
use lhotse_agent.Balancer.{random_select, round_robin, round_robins, remainder, at_index}

module _ {ℓ} {A : Type ℓ} where
  counts : (s : ℕ) (es : List A) → s + 1 < 2 ^ 32 → (round_robin s es).0 ≡ s + 1
  unfolding round_robin
  counts s es h = let small : (s + 1) % 2 ^ 32 ≡ s + 1 = omega (arith, h) in ground (arith, small)

  counts_up : (k s : ℕ) (es : List A) → s + k < 2 ^ 32 → round_robins k s es ≡ s + k
  unfolding round_robins
  counts_up zero s es h = omega arith
  counts_up (suc k) s es h =
      ap (λ (n : ℕ). round_robins k n es) (counts s es (omega (arith, h)))
      ∙ counts_up k (s + 1) es (omega (arith, h))
      ∙ omega arith

  serves :
      (s : ℕ) (es : List A)
      → 0 < length es
      → s + 1 < 2 ^ 32
      → (round_robin s es).1 ≡ get_elem? es (s % length es)
  unfolding round_robin remainder at_index
  serves s es some_left h =
      let small : (s + 1) % 2 ^ 32 ≡ s + 1 = omega (arith, h) in
      let back : pos (s + 1) -ℤ pos 1 ≡ pos s =
        eq_of_parts _ _ (omega (arith, -ℤ_parts (pos (s + 1)) (pos 1))) in
      let filled : (length es == 0) ≡ false = ground arith in rw (filled, small, back) refl

  -- Until the counter has counted 2^32 - 1 calls, the endpoints of a list that is not empty are
  -- selected in turn: the call after k others selects the one at the counter plus k, modulo the
  -- number of endpoints.
  pub round_robin_turns :
      (k s : ℕ) (es : List A)
      → 0 < length es
      → s + k + 1 < 2 ^ 32
      → (round_robin (round_robins k s es) es).1 ≡ get_elem? es ((s + k) % length es)
  round_robin_turns k s es some_left h =
      ap (λ (n : ℕ). (round_robin n es).1) (counts_up k s es (omega (arith, h)))
      ∙ serves (s + k) es some_left h

  get_elem-some : (es : List A) (i : ℕ) → i < length es → get_elem? es i ≡ none → ⊥
  get_elem-some [] i h e = omega (arith, h)
  get_elem-some (x ∷ es) zero h e = absurd (let clash = e in cc)
  get_elem-some (x ∷ es) (suc i) h e = get_elem-some es i (omega (arith, h)) e

  negative : (m : ℕ) (es : List A) → 1 < m → at_index (remainder (negsuc 0) m) es ≡ none
  unfolding remainder at_index ◌-ℤ◌
  negative m es many = rw (mod-eq_of_lt many) refl

  -- The choice at a counter, in a list that is not empty.
  indexed-none_iff :
      (c : ℕ) (es : List A)
      → 0 < length es
      → (at_index (remainder (pos c -ℤ pos 1) (length es)) es ≡ none) ↔ ((c ≡ 0) × (1 < length es))
  unfolding remainder at_index ◌-ℤ◌
  indexed-none_iff c [] some_left = absurd (omega (arith, some_left))
  indexed-none_iff zero (x ∷ []) some_left =
      ((λ e. let clash = e in cc), (λ wraps. absurd (omega (arith, wraps.1))))
  indexed-none_iff zero (x ∷ y ∷ es) some_left =
      ((λ e. (refl, omega arith)), (λ wraps. negative (length (x ∷ y ∷ es)) (x ∷ y ∷ es) wraps.1))
  indexed-none_iff (suc c) (x ∷ es) some_left =
      let back : pos (suc c) -ℤ pos 1 ≡ pos c =
        eq_of_parts _ _ (omega (arith, -ℤ_parts (pos (suc c)) (pos 1))) in
      (
        (λ e.
            absurd (
              get_elem-some (x ∷ es) (c % length (x ∷ es)) (mod-lt c (omega arith))
                (rw back at e))),
        (λ wraps. absurd (omega (arith, wraps.0))),
      )

  -- A selection ends in a run-time error exactly when the list is empty, or when the call makes the
  -- uint32 counter wrap around to 0 and the list has two or more endpoints.
  pub round_robin-none_iff :
      (n : ℕ) (es : List A)
      → ((round_robin n es).1 ≡ none)
        ↔ ((length es ≡ 0) ⊎ (((n + 1) % 2 ^ 32 ≡ 0) × (1 < length es)))
  unfolding round_robin remainder at_index
  round_robin-none_iff n es = elim (Bool-cases (length es == 0)) [
    | inl empty ↦ rw empty ((λ e. inl (ground (arith, empty))), (λ h. refl))
    | inr filled ↦
        let chosen = indexed-none_iff ((n + 1) % 2 ^ 32) es (ground (arith, filled)) in
        rw filled (
          (λ e. inr (chosen.0 e)),
          (λ h. elim h [
            | inl empty ↦ absurd (ground (arith, filled, empty))
            | inr wraps ↦ chosen.1 wraps
          ]),
        )
  ]

module _ {ℓ} {A : Type ℓ} where
  pub elem_In : (es : List A) (i : ℕ) (e : A) → get_elem? es i ≡ some e → In e es
  elem_In [] i e h = absurd (let clash = h in cc)
  elem_In (x ∷ es) ℕ.zero e h =
      let same : x ≡ e = some_inj h in subst (λ (y : A). In y (x ∷ es)) same (here es)
    where
      some_inj : {a b : A} → some a ≡ some b → a ≡ b
      some_inj g = cc
  elem_In (x ∷ es) (ℕ.suc i) e h = there x (elem_In es i e h)

  at_index-In : (i : ℤ) (es : List A) (e : A) → at_index i es ≡ some e → In e es
  unfolding at_index
  at_index-In (pos i) es e h = elem_In es i e h
  at_index-In (negsuc i) es e h = absurd (let clash = h in cc)

  pub round_robin-In : (n : ℕ) (es : List A) (e : A) → (round_robin n es).1 ≡ some e → In e es
  unfolding round_robin
  round_robin-In n es e h = elim (Bool-cases (length es == 0)) [
    | inl empty ↦ absurd (let clash = rw empty at h in cc)
    | inr filled ↦ at_index-In _ es e (rw filled at h)
  ]

  pub random_select-In :
      (intn : ℕ → ℕ) (es : List A) (e : A) → random_select intn es ≡ some e → In e es
  unfolding random_select
  random_select-In intn es e h = elim (Bool-cases (length es == 0)) [
    | inl empty ↦ absurd (let clash = rw empty at h in cc)
    | inr filled ↦ elem_In es (intn (length es)) e (let found = rw filled at h in found)
  ]
