-- ===== src/DomainPolicy.antt =====
-- cmd/proxy/domainpolicy/policy.go: a domain policy is compiled from its document and then asked
-- whether a connection may pass. The rules map and the set of domains are lists with string keys.
pub mod Matching
pub mod Decisions
pub mod Compiling
pub mod Manager
pub mod Examples
use lhotse_agent.Prelude.{
  reverse, ℕ, ◌+◌, ◌≡◌, Bool, true, false, not, ◌&&◌, ◌||◌, List, [], ◌∷◌, ◌++◌, Option, none, some,
  arith, if◌then◌else◌, length, Str, codes, str_eq, is_empty, has_prefix, trim_prefix, has_suffix,
  trim_suffix, trim_space, to_lower, lookup, insert,
}
use lhotse_agent.Net.{Net, IpNet}

abbrev pub direction_inbound : Str
direction_inbound = codes "inbound"

abbrev pub direction_outbound : Str
direction_outbound = codes "outbound"

abbrev pub mode_default_allow : Str
mode_default_allow = codes "default_allow"

abbrev pub mode_default_deny : Str
mode_default_deny = codes "default_deny"

pub record RuleDocument : Type 0 where
  pub direction : Str
  pub mode : Str
  pub allow_list : List Str
  pub block_list : List Str

pub record ConfigDocument : Type 0 where
  pub rules : List RuleDocument

pub record MatcherSet : Type 0 where
  pub domains : List Str
  pub wildcard_domains : List Str
  pub ips : List Str
  pub nets : List IpNet

pub record DirectionPolicy : Type 0 where
  pub mode : Str
  pub allow : MatcherSet
  pub block : MatcherSet

abbrev pub Policy : Type 0
Policy = List (Str × DirectionPolicy)

pub record Decision : Type 0 where
  pub allowed : Bool
  pub reason : Str

pub data Error : Type 0 where
  unsupported_direction unsupported_mode invalid_allow_list invalid_block_list : Str → Error

pub data Result {ℓ} (A : Type ℓ) : Type ℓ where
  ok : A → Result A
  err : Error → Result A

infixl 5 ◌>>=◌
abbrev pub ◌>>=◌ {ℓ κ} : {A : Type ℓ} {B : Type κ} → Result A → (A → Result B) → Result B
ok a >>= f = f a
err e >>= f = err e

-- The host of `host:port`, or the text itself where it does not split.
host_part : Net → Str → Str
host_part net host = elim (net.split_host_port host) [
  | none ↦ host
  | some (parsed_host, port) ↦ parsed_host
]

unbracket : Str → Str
unbracket host = trim_suffix (trim_prefix host (codes "[")) (codes "]")

unfoldable pub normalize_domain : Net → Str → Str
unfolding host_part unbracket
normalize_domain net value =
    let host = trim_space value in
    if is_empty host
    then []
    else to_lower (trim_suffix (unbracket (host_part net host)) (codes "."))

unfoldable pub extract_ip : Net → Str → Option Str
unfolding host_part unbracket
extract_ip net value =
    let host = trim_space value in
    if is_empty host then none else net.parse_ip (unbracket (host_part net host))

unfoldable pub contains_str : List Str → Str → Bool
contains_str [] s = false
contains_str (x ∷ xs) s = str_eq x s || contains_str xs s

-- set.domains[domain] = struct{}{}
add_domain : Str → List Str → List Str
add_domain s xs = if contains_str xs s then xs else xs ++ s ∷ []

empty_set : MatcherSet
empty_set = record { domains = []; wildcard_domains = []; ips = []; nets = [] }

-- strings.Trim(value, "[]")
is_bracket : ℕ → Bool
is_bracket c = str_eq (c ∷ []) (codes "[") || str_eq (c ∷ []) (codes "]")

trim_left_brackets : Str → Str
unfolding is_bracket
trim_left_brackets [] = []
trim_left_brackets (c ∷ s) = if is_bracket c then trim_left_brackets s else c ∷ s

unfoldable pub trim_brackets : Str → Str
unfolding trim_left_brackets
trim_brackets s = reverse (trim_left_brackets (reverse (trim_left_brackets s)))

-- What one value of a list adds to the set; `none` is the error on a wildcard with no suffix.
add_name : MatcherSet → Str → Option MatcherSet
unfolding add_domain
add_name set domain =
    if is_empty domain
    then some set
    else if has_prefix domain (codes "*.")
    then (let suffix = trim_prefix domain (codes "*.") in
        if is_empty suffix
        then none
        else some (record set { wildcard_domains = set.wildcard_domains ++ suffix ∷ [] }))
    else some (record set { domains = add_domain domain set.domains })

add_address : Net → MatcherSet → Str → Option Str → Option MatcherSet
unfolding add_name
add_address net set value (some ip) = some (record set { ips = set.ips ++ ip ∷ [] })
add_address net set value none = add_name set (normalize_domain net value)

add_network : Net → MatcherSet → Str → Option (Str × IpNet) → Option MatcherSet
unfolding add_address trim_brackets
add_network net set value (some (ip, ip_net)) = some (record set { nets = set.nets ++ ip_net ∷ [] })
add_network net set value none = add_address net set value (net.parse_ip (trim_brackets value))

unfoldable pub add_value : Net → MatcherSet → Str → Option MatcherSet
unfolding add_network
add_value net set raw_value =
    let value = trim_space raw_value in
    if is_empty value then some set else add_network net set value (net.parse_cidr value)

-- The loop of compileMatcherSet; the error carries the value as it was written.
compile_values : Net → (Str → Error) → MatcherSet → List Str → Result MatcherSet
unfolding add_value
compile_values net wrap set [] = ok set
compile_values net wrap set (v ∷ vs) = elim (add_value net set v) [
  | none ↦ err (wrap v)
  | some next ↦ compile_values net wrap next vs
]

unfoldable pub compile_matcher_set : Net → (Str → Error) → List Str → Result MatcherSet
unfolding compile_values empty_set
compile_matcher_set net wrap values = compile_values net wrap empty_set values

-- The mode of a rule: trimmed, lower case, and default_allow where it is empty.
unfoldable pub rule_mode : Str → Str
rule_mode raw =
    let mode = to_lower (trim_space raw) in if is_empty mode then mode_default_allow else mode

unfoldable pub compile_rule : Net → RuleDocument → Policy → Result Policy
unfolding rule_mode
compile_rule net rule p =
    let direction = to_lower (trim_space rule.direction) in
    let mode = rule_mode rule.mode in
    if not (str_eq direction direction_inbound) && not (str_eq direction direction_outbound)
    then err (unsupported_direction rule.direction)
    else if not (str_eq mode mode_default_allow) && not (str_eq mode mode_default_deny)
    then err (unsupported_mode rule.mode)
    else do
      allow ← compile_matcher_set net invalid_allow_list rule.allow_list
      block ← compile_matcher_set net invalid_block_list rule.block_list
      ok (insert direction (record { mode = mode; allow = allow; block = block }) p)

unfoldable pub compile_rules : Net → Policy → List RuleDocument → Result Policy
compile_rules net p [] = ok p
compile_rules net p (r ∷ rs) = elim (compile_rule net r p) [
  | err e ↦ err e
  | ok q ↦ compile_rules net q rs
]

unfoldable pub compile : Net → ConfigDocument → Result Policy
compile net doc = compile_rules net [] doc.rules

-- The loop over the wildcard suffixes.
matches_wildcard : Str → List Str → Bool
matches_wildcard domain [] = false
matches_wildcard domain (suffix ∷ rest) =
    (has_suffix domain (codes "." ++ suffix) && not (str_eq domain suffix))
    || matches_wildcard domain rest

matches_ip : Net → Str → List Str → Bool
matches_ip net ip [] = false
matches_ip net ip (item ∷ rest) = net.ip_equal item ip || matches_ip net ip rest

matches_net : Net → Str → List IpNet → Bool
matches_net net ip [] = false
matches_net net ip (network ∷ rest) = net.contains network ip || matches_net net ip rest

matches_domain : MatcherSet → Str → Bool
matches_domain m domain =
    not (is_empty domain)
    && (contains_str m.domains domain || matches_wildcard domain m.wildcard_domains)

matches_address : Net → MatcherSet → Option Str → Bool
matches_address net m none = false
matches_address net m (some ip) = matches_ip net ip m.ips || matches_net net ip m.nets

pub matches : Net → MatcherSet → Str → Option Str → Bool
unfolding matches_domain
matches net m domain ip = matches_domain m domain || matches_address net m ip

abbrev pub allow_all : Decision
allow_all = record { allowed = true; reason = [] }

evaluate_rule : Net → DirectionPolicy → Str → Option Str → Decision
evaluate_rule net rule domain ip =
    if str_eq rule.mode mode_default_allow
    then (if matches net rule.block domain ip
        then record { allowed = false; reason = codes "domain_policy_blocklist" }
        else allow_all)
    else if str_eq rule.mode mode_default_deny
    then (if matches net rule.allow domain ip
        then allow_all
        else record { allowed = false; reason = codes "domain_policy_allowlist" })
    else allow_all

-- Evaluate; the receiver is `none` where the source has a nil *Policy.
pub evaluate : Net → Option Policy → Str → Str → Str → Decision
unfolding evaluate_rule
evaluate net none direction domain target_addr = allow_all
evaluate net (some p) direction domain target_addr = elim (lookup direction p) [
  | none ↦ allow_all
  | some rule ↦ evaluate_rule net rule (normalize_domain net domain) (extract_ip net target_addr)
]

pub record RuleSummary : Type 0 where
  pub summary_mode : Str
  pub allow_count : ℕ
  pub block_count : ℕ

count : MatcherSet → ℕ
count m = length m.domains + length m.wildcard_domains + length m.ips + length m.nets

summarize : DirectionPolicy → RuleSummary
unfolding count
summarize r = record {
  summary_mode = r.mode;
  allow_count = count r.allow;
  block_count = count r.block;
}

summary_rules : Policy → List (Str × RuleSummary)
unfolding summarize
summary_rules [] = []
summary_rules ((direction, rule) ∷ p) = (direction, summarize rule) ∷ summary_rules p

pub summary : Option Policy → List (Str × RuleSummary)
unfolding summary_rules
summary none = []
summary (some p) = summary_rules p
