-- ===== src/DomainPolicy/Manager/Scope.antt =====
-- Which directions the manager of cmd/proxy/domainpolicy/manager.go polices.
use lhotse_agent.Prelude.{
  some, lookup, is_empty, trim_space, str_eq_sound, str_eq_iff, ◌≡◌, refl, ◌≢◌, ◌↔◌, ◌⊎◌, inl, inr,
  true, false, arith, Str, str_eq, str_eq_refl, Bool-cases, ap, ◌∙◌,
}
use lhotse_agent.Net.{Net}
use lhotse_agent.DomainPolicy.{
  Decision, Policy, DirectionPolicy, evaluate, allow_all, direction_inbound, direction_outbound,
  normalize_domain, extract_ip,
}
use lhotse_agent.DomainPolicy.Decisions.{Denied, evaluate_iff}
use lhotse_agent.DomainPolicy.Manager.{
  Manager, enabled, direction_enabled, manager_evaluate, scope_both, scope_inbound,
}

scopes_differ : str_eq scope_inbound scope_both ≡ false
unfolding str_eq
scopes_differ = refl

directions_differ :
    (str_eq direction_outbound direction_inbound ≡ false)
    × (str_eq direction_inbound direction_outbound ≡ false)
unfolding str_eq
directions_differ = (refl, refl)

-- Inbound traffic is policed exactly under the scopes inbound and both, outbound traffic under
-- every scope but inbound, an unknown one included.
pub direction_enabled_iff :
    (m : Manager)
    → ((direction_enabled m direction_inbound ≡ true)
        ↔ ((m.options.scope ≡ scope_both) ⊎ (m.options.scope ≡ scope_inbound)))
      × ((direction_enabled m direction_outbound ≡ true) ↔ (m.options.scope ≢ scope_inbound))
unfolding direction_enabled
direction_enabled_iff m =
    let both = str_eq_iff m.options.scope scope_both in
    let inbound = str_eq_iff m.options.scope scope_inbound in
    let same = str_eq_refl direction_inbound in
    let same_out = str_eq_refl direction_outbound in
    let apart : ◌≡◌ {A = Str} scope_inbound scope_both → ⊥ =
      λ e. let clash = (str_eq_iff scope_inbound scope_both).1 e in cc scopes_differ in
    ground (arith, both, inbound, same, same_out, apart, directions_differ)

-- Which directions a configured scope polices: both of them, the inbound one, or, whatever else the
-- scope is, the outbound one.
pub data Policed (scope direction : Str) : Type 0 where
  either_way : scope ≡ scope_both → Policed scope direction
  inward : scope ≡ scope_inbound → direction ≡ direction_inbound → Policed scope direction
  outward :
      scope ≢ scope_both
      → scope ≢ scope_inbound
      → direction ≡ direction_outbound
      → Policed scope direction

-- What it takes for a manager to refuse a connection with a decision.
pub record Refuses (net : Net) (m : Manager) (direction domain target : Str) (d : Decision)
    : Type 0 where
  pub configured : is_empty (trim_space m.options.url) ≡ false
  pub policed : Policed m.options.scope direction
  pub denied :
      (q : Policy) × (rule : DirectionPolicy) × (m.policy ≡ some q)
      × (lookup direction q ≡ some rule)
      × Denied net rule (normalize_domain net domain) (extract_ip net target) d

direction_enabled-Policed :
    (m : Manager) (direction : Str)
    → (direction_enabled m direction ≡ true) ↔ Policed m.options.scope direction
unfolding direction_enabled
direction_enabled-Policed m direction = (sound, complete)
  where
    scope : Str
    scope = m.options.scope

    sound : direction_enabled m direction ≡ true → Policed m.options.scope direction
    sound h = elim (Bool-cases (str_eq scope scope_both)) [
      | inl both ↦ either_way (str_eq_sound scope scope_both both)
      | inr other ↦ elim (Bool-cases (str_eq scope scope_inbound)) [
        | inl inbound ↦
            inward (str_eq_sound scope scope_inbound inbound)
              (str_eq_sound direction direction_inbound (let e = rw (other, inbound) at h in e))
        | inr no_inbound ↦
            outward (λ e. let clash = (str_eq_iff scope scope_both).1 e in cc other)
              (λ e. let clash = (str_eq_iff scope scope_inbound).1 e in cc no_inbound)
              (str_eq_sound direction direction_outbound (let e = rw (other, no_inbound) at h in e))
      ]
    ]

    complete : Policed m.options.scope direction → direction_enabled m direction ≡ true
    complete (either_way both) = rw ((str_eq_iff scope scope_both).1 both) refl
    complete (inward inbound d) =
        rw (inbound, scopes_differ, str_eq_refl scope_inbound, d, str_eq_refl direction_inbound)
          refl
    complete (outward no_both no_inbound d) = elim (Bool-cases (str_eq scope scope_both)) [
      | inl both ↦ absurd (no_both (str_eq_sound scope scope_both both))
      | inr other ↦ elim (Bool-cases (str_eq scope scope_inbound)) [
        | inl inbound ↦ absurd (no_inbound (str_eq_sound scope scope_inbound inbound))
        | inr neither ↦ rw (other, neither, d, str_eq_refl direction_outbound) refl
      ]
    ]

-- A connection is refused with a decision exactly when a URL is configured, the scope polices the
-- direction, and the manager has a policy whose rule for the direction denies the normalized domain
-- and the address of the target with that decision.
pub manager_evaluate_iff :
    (net : Net) (m : Manager) (direction domain target : Str) (d : Decision)
    → d.allowed ≡ false
    → (manager_evaluate net m direction domain target ≡ d) ↔ Refuses net m direction domain target d
unfolding manager_evaluate enabled
manager_evaluate_iff net m direction domain target d refused = (sound, complete)
  where
    passes : allow_all ≡ d → ⊥
    passes h = let clash : true ≡ false = ap (λ (z : Decision). z.allowed) h ∙ refused in cc

    rules : (evaluate net m.policy direction domain target ≡ d) ↔ (
        (q : Policy) × (rule : DirectionPolicy) × (m.policy ≡ some q)
        × (lookup direction q ≡ some rule)
        × Denied net rule (normalize_domain net domain) (extract_ip net target) d)
    rules = evaluate_iff net m.policy direction domain target d refused

    sound :
        manager_evaluate net m direction domain target ≡ d → Refuses net m direction domain target d
    sound h = elim (Bool-cases (is_empty (trim_space m.options.url))) [
      | inl blank ↦ absurd (passes (let e = rw blank at h in e))
      | inr filled ↦ elim (Bool-cases (direction_enabled m direction)) [
        | inr out ↦ absurd (passes (let e = rw (filled, out) at h in e))
        | inl covered ↦ record {
          configured = filled;
          policed = (direction_enabled-Policed m direction).0 covered;
          denied = rules.0 (let e = rw (filled, covered) at h in e);
        }
      ]
    ]

    complete :
        Refuses net m direction domain target d → manager_evaluate net m direction domain target ≡ d
    complete r =
        rw (r.configured, (direction_enabled-Policed m direction).1 r.policed) (rules.1 r.denied)
