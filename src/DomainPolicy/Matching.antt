-- ===== src/DomainPolicy/Matching.antt =====
-- What a matcher set of cmd/proxy/domainpolicy/policy.go covers, stated without its loops.
use lhotse_agent.Prelude.{
  ap, ◌≡◌, refl, ◌≢◌, ◌↔◌, inl, inr, true, false, List, [], ◌∷◌, ◌++◌, Option, none, some, arith,
  length, length-append, Str, codes, str_eq, str_eq_sound, str_eq_refl, is_empty, has_suffix,
  has_suffix_sound, has_suffix-append, Bool-cases, In, here, there,
}
use lhotse_agent.Net.{Net, IpNet}
use lhotse_agent.DomainPolicy.{
  MatcherSet, contains_str, matches_wildcard, matches_ip, matches_net, matches_domain,
  matches_address, matches,
}

-- A domain is named by a set if it is one of its domains, or if it ends in a dot and one of the
-- wildcard suffixes.
pub data Names (m : MatcherSet) (domain : Str) : Type 0 where
  exact : domain ≢ [] → In domain m.domains → Names m domain
  under :
      (suffix sub : Str)
      → In suffix m.wildcard_domains
      → domain ≡ sub ++ (codes "." ++ suffix)
      → Names m domain

-- An address is covered if it equals one of the set's addresses or lies in one of its networks.
pub data Covers (net : Net) (m : MatcherSet) (ip : Str) : Type 0 where
  equal : (item : Str) → In item m.ips → net.ip_equal item ip ≡ true → Covers net m ip
  inside : (network : IpNet) → In network m.nets → net.contains network ip ≡ true → Covers net m ip

pub data Listed (net : Net) (m : MatcherSet) (domain : Str) (ip : Option Str) : Type 0 where
  by_name : Names m domain → Listed net m domain ip
  by_address : (address : Str) → ip ≡ some address → Covers net m address → Listed net m domain ip

pub contains_str_sound : (xs : List Str) (s : Str) → contains_str xs s ≡ true → In s xs
unfolding contains_str
contains_str_sound [] s h = cc
contains_str_sound (x ∷ xs) s h = elim (Bool-cases (str_eq x s)) [
  | inl same ↦ rw (str_eq_sound x s same) (here xs)
  | inr other ↦ there x (contains_str_sound xs s (ground arith))
]

pub contains_str_complete : {s : Str} {xs : List Str} → In s xs → contains_str xs s ≡ true
unfolding contains_str
contains_str_complete {s} (here xs) = ground (arith, str_eq_refl s)
contains_str_complete (there x i) = ground (arith, contains_str_complete i)

wildcard_sound :
    (domain : Str) (xs : List Str)
    → matches_wildcard domain xs ≡ true
    → (suffix : Str) × (sub : Str) × In suffix xs × (domain ≡ sub ++ (codes "." ++ suffix))
unfolding matches_wildcard
wildcard_sound domain [] h = cc
wildcard_sound domain (x ∷ xs) h = elim (Bool-cases (has_suffix domain (codes "." ++ x))) [
  | inl ends ↦ let (sub, e) = has_suffix_sound domain (codes "." ++ x) ends in (x, sub, here xs, e)
  | inr other ↦
      let (suffix, sub, i, e) = wildcard_sound domain xs (ground arith) in
      (suffix, sub, there x i, e)
]

-- The test `domain != suffix` of the source never decides: a domain that ends in a dot and the
-- suffix is longer than the suffix.
longer-ne : (sub suffix : Str) → str_eq (sub ++ (codes "." ++ suffix)) suffix ≡ false
longer-ne sub suffix = elim (Bool-cases (str_eq (sub ++ (codes "." ++ suffix)) suffix)) [
  | inl same ↦ absurd (
      omega (
        arith,
        ap length (str_eq_sound (sub ++ (codes "." ++ suffix)) suffix same),
        length-append sub (codes "." ++ suffix),
      ))
  | inr other ↦ other
]

wildcard_complete :
    (sub : Str) {suffix : Str} {xs : List Str}
    → In suffix xs
    → matches_wildcard (sub ++ (codes "." ++ suffix)) xs ≡ true
unfolding matches_wildcard
wildcard_complete sub {suffix} (here xs) =
    ground (arith, longer-ne sub suffix, has_suffix-append sub (codes "." ++ suffix))
wildcard_complete sub (there x i) = ground (arith, wildcard_complete sub i)

domain_sound : (m : MatcherSet) (domain : Str) → matches_domain m domain ≡ true → Names m domain
unfolding matches_domain
domain_sound m [] h = cc
domain_sound m (c ∷ s) h = elim (Bool-cases (contains_str m.domains (c ∷ s))) [
  | inl found ↦ exact (λ e. cc) (contains_str_sound m.domains (c ∷ s) found)
  | inr other ↦
      let (suffix, sub, i, e) = wildcard_sound (c ∷ s) m.wildcard_domains (ground arith) in
      under suffix sub i e
]

nonempty : (s : Str) → s ≢ [] → is_empty s ≡ false
nonempty [] h = absurd (h refl)
nonempty (c ∷ s) h = refl

dotted_nonempty : (sub suffix : Str) → is_empty (sub ++ (codes "." ++ suffix)) ≡ false
dotted_nonempty [] suffix = refl
dotted_nonempty (c ∷ sub) suffix = refl

domain_complete : (m : MatcherSet) (domain : Str) → Names m domain → matches_domain m domain ≡ true
unfolding matches_domain
domain_complete m domain (exact h i) = ground (arith, nonempty domain h, contains_str_complete i)
domain_complete m domain (under suffix sub i e) =
    rw e (ground (arith, dotted_nonempty sub suffix, wildcard_complete sub i))

ip_sound :
    (net : Net) (ip : Str) (xs : List Str)
    → matches_ip net ip xs ≡ true
    → (item : Str) × In item xs × (net.ip_equal item ip ≡ true)
unfolding matches_ip
ip_sound net ip [] h = cc
ip_sound net ip (x ∷ xs) h = elim (Bool-cases (net.ip_equal x ip)) [
  | inl same ↦ (x, here xs, same)
  | inr other ↦ let (item, i, e) = ip_sound net ip xs (ground arith) in (item, there x i, e)
]

ip_complete :
    (net : Net) (ip : Str) {item : Str} {xs : List Str}
    → In item xs
    → net.ip_equal item ip ≡ true
    → matches_ip net ip xs ≡ true
unfolding matches_ip
ip_complete net ip (here xs) e = ground arith
ip_complete net ip (there x i) e = ground (arith, ip_complete net ip i e)

net_sound :
    (net : Net) (ip : Str) (xs : List IpNet)
    → matches_net net ip xs ≡ true
    → (network : IpNet) × In network xs × (net.contains network ip ≡ true)
unfolding matches_net
net_sound net ip [] h = cc
net_sound net ip (x ∷ xs) h = elim (Bool-cases (net.contains x ip)) [
  | inl same ↦ (x, here xs, same)
  | inr other ↦ let (network, i, e) = net_sound net ip xs (ground arith) in (network, there x i, e)
]

net_complete :
    (net : Net) (ip : Str) {network : IpNet} {xs : List IpNet}
    → In network xs
    → net.contains network ip ≡ true
    → matches_net net ip xs ≡ true
unfolding matches_net
net_complete net ip (here xs) e = ground arith
net_complete net ip (there x i) e = ground (arith, net_complete net ip i e)

address_sound :
    (net : Net) (m : MatcherSet) (domain : Str) (ip : Option Str)
    → matches_address net m ip ≡ true
    → Listed net m domain ip
unfolding matches_address
address_sound net m domain none h = cc
address_sound net m domain (some ip) h = elim (Bool-cases (matches_ip net ip m.ips)) [
  | inl hit ↦ let (item, i, e) = ip_sound net ip m.ips hit in by_address ip refl (equal item i e)
  | inr other ↦
      let (network, i, e) = net_sound net ip m.nets (ground arith) in
      by_address ip refl (inside network i e)
]

address_complete :
    (net : Net) (m : MatcherSet) (ip : Str)
    → Covers net m ip
    → matches_address net m (some ip) ≡ true
unfolding matches_address
address_complete net m ip (equal item i e) = ground (arith, ip_complete net ip i e)
address_complete net m ip (inside network i e) = ground (arith, net_complete net ip i e)

-- The matcher of the source answers true exactly when the set lists the domain or the address.
pub matches_iff :
    (net : Net) (m : MatcherSet) (domain : Str) (ip : Option Str)
    → (matches net m domain ip ≡ true) ↔ Listed net m domain ip
unfolding matches
matches_iff net m domain ip = (sound, complete)
  where
    sound : matches net m domain ip ≡ true → Listed net m domain ip
    sound h = elim (Bool-cases (matches_domain m domain)) [
      | inl named ↦ by_name (domain_sound m domain named)
      | inr other ↦ address_sound net m domain ip (ground arith)
    ]

    complete : Listed net m domain ip → matches net m domain ip ≡ true
    complete (by_name n) = ground (arith, domain_complete m domain n)
    complete (by_address a e c) = rw e (ground (arith, address_complete net m a c))
