-- ===== src/DomainPolicy/Compiling/BlockList.antt =====
-- What a block list that cmd/proxy/domainpolicy/policy.go compiled refuses.
use lhotse_agent.Prelude.{
  trim_prefix, ◌∙◌, ap, ◌≡◌, refl, sym, subst, ◌≢◌, inl, inr, false, List, [], ◌∷◌, ◌++◌, Option,
  none, some, Str, codes, is_empty, has_prefix, trim_space, to_lower, lookup, lookup-insert_self,
  Bool-cases, Option-cases, In, here, there, In-append_left, In-append_right,
}
use lhotse_agent.Net.{Net, IpNet}
use lhotse_agent.DomainPolicy.{
  empty_set, Policy, MatcherSet, DirectionPolicy, RuleDocument, Error, ok, mode_default_allow,
  evaluate, normalize_domain, compile, compile_rules, compile_rule, compile_matcher_set,
  compile_values, add_value, add_network, add_address, add_name, add_domain, contains_str,
  rule_mode, trim_brackets, invalid_block_list,
}
use lhotse_agent.DomainPolicy.Decisions.{blocked_decision, blocked, evaluate_iff}
use lhotse_agent.DomainPolicy.Matching.{by_name, exact, contains_str_sound}
use lhotse_agent.DomainPolicy.Compiling.{Result-cases, Compiled, compile_rule-Compiled}

-- What `raw` becomes: a domain of the set, as it is neither blank, a network, an address nor a
-- wildcard.
pub record IsPlainDomain (net : Net) (raw : Str) : Type 0 where
  pub not_blank : is_empty (trim_space raw) ≡ false
  pub no_network : net.parse_cidr (trim_space raw) ≡ none
  pub no_address : net.parse_ip (trim_brackets (trim_space raw)) ≡ none
  pub has_name : is_empty (normalize_domain net (trim_space raw)) ≡ false
  pub no_wildcard : has_prefix (normalize_domain net (trim_space raw)) (codes "*.") ≡ false

add_domain-In : (s : Str) (xs : List Str) → In s (add_domain s xs)
unfolding add_domain
add_domain-In s xs = elim (Bool-cases (contains_str xs s)) [
  | inl old ↦ rw old (contains_str_sound xs s old)
  | inr new ↦ rw new (In-append_right xs (here []))
]

add_domain-keeps : {s : Str} (t : Str) (xs : List Str) → In s xs → In s (add_domain t xs)
unfolding add_domain
add_domain-keeps t xs i = elim (Bool-cases (contains_str xs t)) [
  | inl old ↦ rw old i
  | inr new ↦ rw new (In-append_left (t ∷ []) i)
]

add_value-plain :
    (net : Net) (set : MatcherSet) (raw : Str)
    → IsPlainDomain net raw
    → add_value net set raw
      ≡ some
          (record set { domains = add_domain (normalize_domain net (trim_space raw)) set.domains })
unfolding add_value add_network add_address add_name
add_value-plain net set raw w =
    rw (w.not_blank, w.no_network, w.no_address, w.has_name, w.no_wildcard)

keep : (a b : MatcherSet) {s : Str} → In s a.domains → some a ≡ some b → In s b.domains
keep a b {s} i e = let same : a ≡ b = cc in subst (λ (m : MatcherSet). In s m.domains) same i

add_name-keeps :
    (set next : MatcherSet) (domain : Str) {s : Str}
    → add_name set domain ≡ some next
    → In s set.domains
    → In s next.domains
unfolding add_name
add_name-keeps set next domain {s} h i = elim (Bool-cases (is_empty domain)) [
  | inl blank ↦ keep set next i (rw blank at h)
  | inr named ↦ elim (Bool-cases (has_prefix domain (codes "*."))) [
    | inl wild ↦ elim (Bool-cases (is_empty (trim_prefix domain (codes "*.")))) [
      | inl bare ↦ absurd (let clash = rw (named, wild, bare) at h in cc)
      | inr suffix ↦ keep _ next i (rw (named, wild, suffix) at h)
    ]
    | inr plain ↦
        keep (record set { domains = add_domain domain set.domains }) next
          (add_domain-keeps domain set.domains i) (rw (named, plain) at h)
  ]
]

add_value-keeps :
    (net : Net) (set next : MatcherSet) (raw : Str) {s : Str}
    → add_value net set raw ≡ some next
    → In s set.domains
    → In s next.domains
unfolding add_value
add_value-keeps net set next raw {s} h i = elim (Bool-cases (is_empty (trim_space raw))) [
  | inl blank ↦ keep set next i (rw blank at h)
  | inr value ↦ network (net.parse_cidr (trim_space raw)) (rw value at h)
]
  where
    address :
        (found : Option Str)
        → add_address net set (trim_space raw) found ≡ some next
        → In s next.domains
    address (some ip) e = keep (record set { ips = set.ips ++ ip ∷ [] }) next i e
    address none e = add_name-keeps set next (normalize_domain net (trim_space raw)) e i

    network :
        (found : Option (Str × IpNet))
        → add_network net set (trim_space raw) found ≡ some next
        → In s next.domains
    network (some (ip, n)) e = keep (record set { nets = set.nets ++ n ∷ [] }) next i e
    network none e = address (net.parse_ip (trim_brackets (trim_space raw))) e

compile_values-keeps :
    (net : Net) (wrap : Str → Error) (set done : MatcherSet) (vs : List Str) {s : Str}
    → compile_values net wrap set vs ≡ ok done
    → In s set.domains
    → In s done.domains
unfolding compile_values
compile_values-keeps net wrap set done [] {s} h i =
    let same : set ≡ done = cc in subst (λ (m : MatcherSet). In s m.domains) same i
compile_values-keeps net wrap set done (v ∷ vs) h i = elim (Option-cases (add_value net set v)) [
  | inl bad ↦ absurd (let clash = rw (bad, compile_values) at h in cc)
  | inr (next, e) ↦
      compile_values-keeps net wrap next done vs (rw (e, compile_values) at h)
        (add_value-keeps net set next v e i)
]

-- Each plain value of a list that compiles ends up, normalised, among the domains.
compile_values-In :
    (net : Net) (wrap : Str → Error) {raw : Str} (set done : MatcherSet) {vs : List Str}
    → In raw vs
    → IsPlainDomain net raw
    → compile_values net wrap set vs ≡ ok done
    → In (normalize_domain net (trim_space raw)) done.domains
unfolding compile_values
compile_values-In net wrap {raw} set done (here vs) w h =
    compile_values-keeps net wrap _ done vs
      (rw (add_value-plain net set raw w, compile_values) at h)
      (add_domain-In (normalize_domain net (trim_space raw)) set.domains)
compile_values-In net wrap {raw} set done (there v {xs = vs} i) w h =
    elim (Option-cases (add_value net set v)) [
      | inl bad ↦ absurd (let clash = rw (bad, compile_values) at h in cc)
      | inr (next, e) ↦ compile_values-In net wrap next done i w (rw (e, compile_values) at h)
    ]

-- A policy with one rule that allows by default refuses each plain domain of its block list, in
-- any spelling with the same normal form, whatever the target address is.
pub block_list_refuses :
    (net : Net) (rule : RuleDocument) (p : Policy) {raw : Str} (domain target : Str)
    → rule_mode rule.mode ≡ mode_default_allow
    → In raw rule.block_list
    → IsPlainDomain net raw
    → normalize_domain net domain ≡ normalize_domain net (trim_space raw)
    → compile net (record { rules = rule ∷ [] }) ≡ ok p
    → evaluate net (some p) (to_lower (trim_space rule.direction)) domain target ≡ blocked_decision
unfolding compile compile_rules compile_matcher_set
block_list_refuses net rule p {raw} domain target m i w same h =
    elim (Result-cases (compile_rule net rule [])) [
      | inr (x, failed) ↦ absurd (let clash = rw (failed, compile_rules) at h in cc)
      | inl (mid, e) ↦
          let is_p : mid ≡ p = cc (rw (e, compile_rules) at h) in
          refuses (compile_rule-Compiled net rule [] p (e ∙ ap ok is_p))
    ]
  where
    name_ne : (s : Str) → is_empty s ≡ false → s ≢ []
    name_ne [] e f = cc
    name_ne (x ∷ s) e f = cc

    refuses :
        Compiled net rule [] p
        → evaluate net (some p) (to_lower (trim_space rule.direction)) domain target
          ≡ blocked_decision
    refuses c =
        let direction = to_lower (trim_space rule.direction) in
        let compiled : DirectionPolicy = record {
          mode = rule_mode rule.mode;
          allow = c.allow;
          block = c.block;
        } in
        let found : lookup direction p ≡ some compiled =
          subst (λ (q : Policy). lookup direction q ≡ some compiled) (sym c.inserted)
            (lookup-insert_self direction compiled []) in
        let named : In (normalize_domain net domain) c.block.domains =
          subst (λ (d : Str). In d c.block.domains) (sym same)
            (compile_values-In net invalid_block_list empty_set c.block i w c.block_compiled) in
        (evaluate_iff net (some p) direction domain target blocked_decision refl).1 (
          p,
          compiled,
          refl,
          found,
          blocked m (
              by_name (
                exact (name_ne (normalize_domain net domain) (ap is_empty same ∙ w.has_name))
                  named)),
        )
