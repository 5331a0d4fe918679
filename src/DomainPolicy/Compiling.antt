-- ===== src/DomainPolicy/Compiling.antt =====
-- What cmd/proxy/domainpolicy/policy.go compiles.
pub mod BlockList
use lhotse_agent.Prelude.{
  trim_prefix, ◌∙◌, ap, ◌≡◌, refl, sym, subst, ◌≢◌, ◌⊎◌, inl, inr, false, not, ◌&&◌, List, [], ◌∷◌,
  ◌++◌, Option, none, some, arith, Str, codes, str_eq, str_eq_sound, is_empty, has_prefix,
  trim_space, to_lower, lookup, insert, lookup-insert, lookup-insert_self, Bool-cases, Option-cases,
  In, here, there, In-append_left, In-append_right,
}
use lhotse_agent.Net.{Net, IpNet}
use lhotse_agent.DomainPolicy.{
  empty_set, Policy, MatcherSet, DirectionPolicy, RuleDocument, ConfigDocument, Error, Result, ok,
  err, direction_inbound, direction_outbound, mode_default_allow, mode_default_deny, evaluate,
  normalize_domain, compile, compile_rules, compile_rule, compile_matcher_set, compile_values,
  add_value, add_network, add_address, add_name, add_domain, contains_str, rule_mode, trim_brackets,
  ◌>>=◌, invalid_allow_list, invalid_block_list,
}
use lhotse_agent.DomainPolicy.Decisions.{blocked_decision, blocked, evaluate_iff}
use lhotse_agent.DomainPolicy.Matching.{by_name, exact, contains_str_sound}

abbrev IsDirection : Str → Type 0
IsDirection d = (d ≡ direction_inbound) ⊎ (d ≡ direction_outbound)

abbrev IsMode : Str → Type 0
IsMode m = (m ≡ mode_default_allow) ⊎ (m ≡ mode_default_deny)

-- Every direction and every mode of the policy is one that the source names.
abbrev pub IsWellFormed : Policy → Type 0
IsWellFormed p =
    (d : Str) (rule : DirectionPolicy) → lookup d p ≡ some rule → IsDirection d × IsMode rule.mode

one_of : (s a b : Str) → (not (str_eq s a) && not (str_eq s b)) ≡ false → (s ≡ a) ⊎ (s ≡ b)
one_of s a b h = ground (arith, str_eq_sound s a, str_eq_sound s b)

insert-IsWellFormed :
    (p : Policy) (d : Str) (r : DirectionPolicy)
    → IsDirection d
    → IsMode r.mode
    → IsWellFormed p
    → IsWellFormed (insert d r p)
insert-IsWellFormed p d r hd hm w e rule found = elim (Bool-cases (str_eq d e)) [
  | inl same ↦
      let same' : d ≡ e = str_eq_sound d e same in
      let is_r : some r ≡ some rule = rw (lookup-insert d e r p, same) at found in
      (rw same' at hd, (let same_rule : r ≡ rule = cc in rw same_rule at hm))
  | inr other ↦ w e rule (rw (lookup-insert d e r p, other) at found)
]

Result-cases {ℓ} :
    {A : Type ℓ} (r : Result A) → ((a : A) × (r ≡ ok a)) ⊎ ((e : Error) × (r ≡ err e))
Result-cases (ok a) = inl (a, refl)
Result-cases (err e) = inr (e, refl)

-- What a rule that compiles has gone through.
record Compiled (net : Net) (rule : RuleDocument) (p q : Policy) : Type 0 where
  allow : MatcherSet
  block : MatcherSet
  has_direction : IsDirection (to_lower (trim_space rule.direction))
  has_mode : IsMode (rule_mode rule.mode)
  allow_compiled : compile_matcher_set net invalid_allow_list rule.allow_list ≡ ok allow
  block_compiled : compile_matcher_set net invalid_block_list rule.block_list ≡ ok block
  inserted :
      q
      ≡ insert
          (to_lower (trim_space rule.direction))
          (record { mode = rule_mode rule.mode; allow = allow; block = block })
          p

compile_rule-Compiled :
    (net : Net) (rule : RuleDocument) (p q : Policy)
    → compile_rule net rule p ≡ ok q
    → Compiled net rule p q
unfolding compile_rule
compile_rule-Compiled net rule p q h =
    let direction = to_lower (trim_space rule.direction) in
    let mode = rule_mode rule.mode in
    elim (Bool-cases
      (not (str_eq direction direction_inbound) && not (str_eq direction direction_outbound))) [
        | inl bad ↦ absurd (let clash = rw bad at h in cc)
        | inr good ↦
            elim (Bool-cases
              (not (str_eq mode mode_default_allow) && not (str_eq mode mode_default_deny))) [
                | inl bad ↦ absurd (let clash = rw (good, bad) at h in cc)
                | inr fine ↦
                    sets (one_of direction direction_inbound direction_outbound good)
                      (one_of mode mode_default_allow mode_default_deny fine) (rw (good, fine) at h)
              ]
      ]
  where
    Sets : Type 0
    Sets =
        (compile_matcher_set net invalid_allow_list rule.allow_list >>= λ allow.
        compile_matcher_set net invalid_block_list rule.block_list >>= λ block. ok (
          insert (to_lower (trim_space rule.direction))
            (record { mode = rule_mode rule.mode; allow = allow; block = block }) p))
        ≡ ok q

    sets :
        IsDirection (to_lower (trim_space rule.direction))
        → IsMode (rule_mode rule.mode)
        → Sets
        → Compiled net rule p q
    sets hd hm e =
        elim (Result-cases (compile_matcher_set net invalid_allow_list rule.allow_list)) [
          | inr (x, failed) ↦ absurd (let clash = rw failed at e in cc)
          | inl (allow, ea) ↦
              elim (Result-cases (compile_matcher_set net invalid_block_list rule.block_list)) [
                | inr (x, failed) ↦ absurd (let clash = rw (ea, failed) at e in cc)
                | inl (block, eb) ↦ record {
                  allow = allow;
                  block = block;
                  has_direction = hd;
                  has_mode = hm;
                  allow_compiled = ea;
                  block_compiled = eb;
                  inserted = (let same = rw (ea, eb) at e in cc);
                }
              ]
        ]

compile_rule-IsWellFormed :
    (net : Net) (rule : RuleDocument) (p q : Policy)
    → IsWellFormed p
    → compile_rule net rule p ≡ ok q
    → IsWellFormed q
compile_rule-IsWellFormed net rule p q w h =
    let c = compile_rule-Compiled net rule p q h in
    subst IsWellFormed (sym c.inserted)
      (insert-IsWellFormed p (to_lower (trim_space rule.direction)) _ c.has_direction c.has_mode w)

compile_rules-IsWellFormed :
    (net : Net) (rules : List RuleDocument) (p q : Policy)
    → IsWellFormed p
    → compile_rules net p rules ≡ ok q
    → IsWellFormed q
unfolding compile_rules
compile_rules-IsWellFormed net [] p q w h = let same : p ≡ q = cc in subst IsWellFormed same w
compile_rules-IsWellFormed net (r ∷ rs) p q w h = elim (Result-cases (compile_rule net r p)) [
  | inr (x, failed) ↦ absurd (let clash = rw (failed, compile_rules) at h in cc)
  | inl (mid, e) ↦
      compile_rules-IsWellFormed net rs mid q (compile_rule-IsWellFormed net r p mid w e)
        (rw (e, compile_rules) at h)
]

-- A document that compiles gives a policy whose directions are inbound or outbound and whose modes
-- are default_allow or default_deny.
pub compile-IsWellFormed :
    (net : Net) (doc : ConfigDocument) (p : Policy) → compile net doc ≡ ok p → IsWellFormed p
unfolding compile lookup
compile-IsWellFormed net doc p h = compile_rules-IsWellFormed net doc.rules [] p (λ d rule e. cc) h
