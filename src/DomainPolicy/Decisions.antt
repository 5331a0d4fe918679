-- ===== src/DomainPolicy/Decisions.antt =====
-- What the policies compiled by cmd/proxy/domainpolicy/policy.go decide.
use lhotse_agent.Prelude.{
  ◌∙◌, ap, ◌≡◌, refl, ◌↔◌, inl, inr, true, false, Option, none, some, arith, Str, codes, str_eq,
  str_eq_sound, str_eq_refl, lookup, Bool-cases,
}
use lhotse_agent.Net.{Net}
use lhotse_agent.DomainPolicy.{
  Policy, DirectionPolicy, Decision, mode_default_allow, mode_default_deny, evaluate, evaluate_rule,
  matches, normalize_domain, extract_ip, allow_all,
}
use lhotse_agent.DomainPolicy.Matching.{Listed, matches_iff}

abbrev pub blocked_decision : Decision
blocked_decision = record { allowed = false; reason = codes "domain_policy_blocklist" }

abbrev pub unlisted_decision : Decision
unlisted_decision = record { allowed = false; reason = codes "domain_policy_allowlist" }

-- Why a connection is refused: its target is on the block list of a rule that allows by default,
-- or is not on the allow list of a rule that denies by default.
pub data Denied (net : Net) (rule : DirectionPolicy) (domain : Str) (ip : Option Str)
    : Decision → Type 0 where
  blocked :
      rule.mode ≡ mode_default_allow
      → Listed net rule.block domain ip
      → Denied net rule domain ip blocked_decision
  unlisted :
      rule.mode ≡ mode_default_deny
      → ¬ Listed net rule.allow domain ip
      → Denied net rule domain ip unlisted_decision

deny_is_no_allow : str_eq mode_default_deny mode_default_allow ≡ false
unfolding str_eq
deny_is_no_allow = refl

evaluate_rule-denies :
    (net : Net) (rule : DirectionPolicy) (domain : Str) (ip : Option Str)
    → (evaluate_rule net rule domain ip).allowed ≡ false
    → Denied net rule domain ip (evaluate_rule net rule domain ip)
unfolding evaluate_rule
evaluate_rule-denies net rule domain ip h =
    elim (Bool-cases (str_eq rule.mode mode_default_allow)) [
      | inl allows ↦ elim (Bool-cases (matches net rule.block domain ip)) [
        | inl hit ↦
            rw (allows, hit)
              (blocked (str_eq_sound rule.mode mode_default_allow allows)
                ((matches_iff net rule.block domain ip).0 hit))
        | inr miss ↦ ground arith
      ]
      | inr other ↦ elim (Bool-cases (str_eq rule.mode mode_default_deny)) [
        | inl denies ↦ elim (Bool-cases (matches net rule.allow domain ip)) [
          | inl hit ↦ ground arith
          | inr miss ↦
              rw (other, denies, miss)
                (unlisted (str_eq_sound rule.mode mode_default_deny denies)
                  (λ l. cc ((matches_iff net rule.allow domain ip).1 l)))
        ]
        | inr unknown ↦ ground arith
      ]
    ]

evaluate_rule-Denied :
    (net : Net) (rule : DirectionPolicy) (domain : Str) (ip : Option Str) {d : Decision}
    → Denied net rule domain ip d
    → evaluate_rule net rule domain ip ≡ d
unfolding evaluate_rule
evaluate_rule-Denied net rule domain ip (blocked m l) =
    rw (m, str_eq_refl mode_default_allow, (matches_iff net rule.block domain ip).1 l)
evaluate_rule-Denied net rule domain ip (unlisted m l) =
    elim (Bool-cases (matches net rule.allow domain ip)) [
      | inl hit ↦ absurd (l ((matches_iff net rule.allow domain ip).0 hit))
      | inr miss ↦ rw (m, deny_is_no_allow, str_eq_refl mode_default_deny, miss)
    ]

-- Evaluate refuses a connection, with the decision `d`, exactly when the policy has a rule for the
-- direction that denies the normalised domain and the address of the target with `d`.
pub evaluate_iff :
    (net : Net) (p : Option Policy) (direction domain target : Str) (d : Decision)
    → d.allowed ≡ false
    → (evaluate net p direction domain target ≡ d) ↔ (
        (q : Policy) × (rule : DirectionPolicy) × (p ≡ some q)
        × (lookup direction q ≡ some rule)
        × Denied net rule (normalize_domain net domain) (extract_ip net target) d)
unfolding evaluate
evaluate_iff net p direction domain target d no_pass = (sound p, complete)
  where
    Because : Option Policy → Type 0
    Because o =
        (q : Policy) × (rule : DirectionPolicy) × (o ≡ some q)
        × (lookup direction q ≡ some rule)
        × Denied net rule (normalize_domain net domain) (extract_ip net target) d

    passes : allow_all ≡ d → ⊥
    passes h = let clash : true ≡ false = ap (λ (z : Decision). z.allowed) h ∙ no_pass in cc

    by_rule :
        (q : Policy) (found : Option DirectionPolicy)
        → lookup direction q ≡ found
        → evaluate net (some q) direction domain target ≡ d
        → Because (some q)
    by_rule q none e h = absurd (passes (rw (e, evaluate) at h))
    by_rule q (some rule) e h =
        let decided = rw (e, evaluate) at h in
        (
          q,
          rule,
          refl,
          e,
          rw decided at (
              evaluate_rule-denies net rule _ _
                (ap (λ (z : Decision). z.allowed) decided ∙ no_pass)),
        )

    sound : (o : Option Policy) → evaluate net o direction domain target ≡ d → Because o
    sound none h = absurd (passes h)
    sound (some q) h = by_rule q (lookup direction q) refl h

    complete : Because p → evaluate net p direction domain target ≡ d
    complete (q, rule, e, found, denied) =
        rw (e, found, evaluate) (evaluate_rule-Denied net rule _ _ denied)
