-- ===== src/RuntimeConfig/Hosts.antt =====
-- For which hosts cmd/proxy/runtimeconfig/manager.go lets TLS be intercepted.
use lhotse_agent.Prelude.{
  In-empty, lookup-insert_self, ap, ◌≡◌, refl, sym, ◌∙◌, subst, ◌↔◌, ◌⊎◌, inl, inr, true, false,
  List, [], ◌∷◌, ◌++◌, some, arith, Str, codes, str_eq, str_eq_iff, str_eq_sound, is_empty,
  has_prefix, has_prefix_sound, trim_prefix, has_suffix, has_suffix_sound, has_suffix-append,
  lookup, insert, lookup-insert, Bool-cases, Option-cases, In, here, there, In-append_left,
  In-append_right,
}
use lhotse_agent.Net.{Net}
use lhotse_agent.RuntimeConfig.{
  Document, Compiled, normalize_host, add_host, add_hosts, compile, wildcard_covers, covers,
}

-- A list of hosts selects a normalised host that it names, or one that is, or lies under, the
-- domain of one of its wildcards.
pub data Selects (net : Net) (hosts : List Str) (host : Str) : Type 0 where
  exact :
      (raw : Str)
      → In raw hosts
      → normalize_host net raw ≡ host
      → has_prefix host (codes "*.") ≡ false
      → Selects net hosts host
  wildcard :
      (raw suffix : Str)
      → In raw hosts
      → normalize_host net raw ≡ codes "*." ++ suffix
      → (host ≡ suffix) ⊎ ((sub : Str) × (host ≡ sub ++ (codes "." ++ suffix)))
      → Selects net hosts host

-- The three ways in which one entry of the document is taken.
data Added (net : Net) (c : Compiled) (raw : Str) : Compiled → Type 0 where
  blank : is_empty (normalize_host net raw) ≡ true → Added net c raw c
  wild :
      (suffix : Str)
      → normalize_host net raw ≡ codes "*." ++ suffix
      → Added net c raw (record c { wildcards = c.wildcards ++ suffix ∷ [] })
  plain :
      has_prefix (normalize_host net raw) (codes "*.") ≡ false
      → Added net c raw (record c { exact = insert (normalize_host net raw) tt c.exact })

trim_wildcard : (suffix : Str) → trim_prefix (codes "*." ++ suffix) (codes "*.") ≡ suffix
unfolding trim_prefix has_prefix
trim_wildcard suffix = refl

add_host-Added : (net : Net) (c : Compiled) (raw : Str) → Added net c raw (add_host net c raw)
unfolding add_host
add_host-Added net c raw = elim (Bool-cases (is_empty (normalize_host net raw))) [
  | inl e ↦ rw e (blank e)
  | inr named ↦ elim (Bool-cases (has_prefix (normalize_host net raw) (codes "*."))) [
    | inr p ↦ rw (named, p) (plain p)
    | inl w ↦
        let (suffix, e) = has_prefix_sound (normalize_host net raw) (codes "*.") w in
        let cut : trim_prefix (normalize_host net raw) (codes "*.") ≡ suffix =
          subst (λ (h : Str). trim_prefix h (codes "*.") ≡ suffix) (sym e) (trim_wildcard suffix) in
        rw (named, w, cut) (wild suffix e)
  ]
]

-- A host that the configuration names exactly.
abbrev Named : Net → List Str → Str → Type 0
Named net hosts host =
    (raw : Str) × In raw hosts
    × (normalize_host net raw ≡ host)
    × (has_prefix host (codes "*.") ≡ false)

-- A suffix that stands in one of its wildcards.
abbrev Starred : Net → List Str → Str → Type 0
Starred net hosts suffix =
    (raw : Str) × In raw hosts × (normalize_host net raw ≡ codes "*." ++ suffix)

exact_step :
    (net : Net) (c : Compiled) (raw host : Str) (next : Compiled)
    → Added net c raw next
    → lookup host next.exact ≡ some tt
    → (lookup host c.exact ≡ some tt)
      ⊎ ((normalize_host net raw ≡ host) × (has_prefix host (codes "*.") ≡ false))
exact_step net c raw host next (blank e) h = inl h
exact_step net c raw host next (wild suffix e) h = inl h
exact_step net c raw host next (plain p) h =
    elim (Bool-cases (str_eq (normalize_host net raw) host)) [
      | inl same ↦
          let e = str_eq_sound (normalize_host net raw) host same in
          inr (e, subst (λ (s : Str). has_prefix s (codes "*.") ≡ false) e p)
      | inr other ↦ inl (rw (lookup-insert (normalize_host net raw) host tt c.exact, other) at h)
    ]

exact_sound :
    (net : Net) (c : Compiled) (hosts : List Str) (host : Str)
    → lookup host (add_hosts net c hosts).exact ≡ some tt
    → (lookup host c.exact ≡ some tt) ⊎ Named net hosts host
unfolding add_hosts
exact_sound net c [] host h = inl h
exact_sound net c (raw ∷ hosts) host h = elim (exact_sound net (add_host net c raw) hosts host h) [
  | inr (r, i, e, p) ↦ inr (r, there raw i, e, p)
  | inl before ↦
      elim (exact_step net c raw host (add_host net c raw) (add_host-Added net c raw) before) [
        | inl old ↦ inl old
        | inr (e, p) ↦ inr (raw, here hosts, e, p)
      ]
]

-- What stands in a list and one more element.
In-last : {s t : Str} (xs : List Str) → In s (xs ++ t ∷ []) → In s xs ⊎ (t ≡ s)
In-last [] (here ys) = inr refl
In-last [] (there y j) = absurd (In-empty j)
In-last (x ∷ xs) (here ys) = inl (here xs)
In-last (x ∷ xs) (there y j) = elim (In-last xs j) [ inl k ↦ inl (there x k) | inr same ↦ inr same ]

wild_step :
    (net : Net) (c : Compiled) (raw suffix : Str) (next : Compiled)
    → Added net c raw next
    → In suffix next.wildcards
    → In suffix c.wildcards ⊎ (normalize_host net raw ≡ codes "*." ++ suffix)
wild_step net c raw suffix next (blank e) i = inl i
wild_step net c raw suffix next (plain p) i = inl i
wild_step net c raw suffix next (wild s e) i = elim (In-last c.wildcards i) [
  | inl old ↦ inl old
  | inr same ↦ inr (subst (λ (t : Str). normalize_host net raw ≡ codes "*." ++ t) same e)
]

wild_sound :
    (net : Net) (c : Compiled) (hosts : List Str) (suffix : Str)
    → In suffix (add_hosts net c hosts).wildcards
    → In suffix c.wildcards ⊎ Starred net hosts suffix
unfolding add_hosts
wild_sound net c [] suffix i = inl i
wild_sound net c (raw ∷ hosts) suffix i =
    elim (wild_sound net (add_host net c raw) hosts suffix i) [
      | inr (r, j, e) ↦ inr (r, there raw j, e)
      | inl before ↦
          elim (wild_step net c raw suffix (add_host net c raw) (add_host-Added net c raw) before) [
            | inl old ↦ inl old
            | inr e ↦ inr (raw, here hosts, e)
          ]
    ]

-- What is compiled stays: later entries remove neither a host nor a suffix.
keeps_step :
    (net : Net) (c : Compiled) (raw : Str) (next : Compiled)
    → Added net c raw next
    → ((host : Str) → lookup host c.exact ≡ some tt → lookup host next.exact ≡ some tt)
      × ((suffix : Str) → In suffix c.wildcards → In suffix next.wildcards)
keeps_step net c raw next (blank e) = (λ host h. h, λ suffix i. i)
keeps_step net c raw next (wild s e) = (λ host h. h, λ suffix i. In-append_left (s ∷ []) i)
keeps_step net c raw next (plain p) = (
  λ host h. ground (arith, lookup-insert (normalize_host net raw) host tt c.exact),
  λ suffix i. i,
)

add_hosts-keeps :
    (net : Net) (c : Compiled) (hosts : List Str)
    → ((host : Str)
        → lookup host c.exact ≡ some tt
        → lookup host (add_hosts net c hosts).exact ≡ some tt)
      × ((suffix : Str) → In suffix c.wildcards → In suffix (add_hosts net c hosts).wildcards)
unfolding add_hosts
add_hosts-keeps net c [] = (λ host h. h, λ suffix i. i)
add_hosts-keeps net c (raw ∷ hosts) =
    let now = keeps_step net c raw (add_host net c raw) (add_host-Added net c raw) in
    let later = add_hosts-keeps net (add_host net c raw) hosts in
    (λ host h. later.0 host (now.0 host h), λ suffix i. later.1 suffix (now.1 suffix i))

add_host-plain :
    (net : Net) (c : Compiled) (raw : Str)
    → is_empty (normalize_host net raw) ≡ false
    → has_prefix (normalize_host net raw) (codes "*.") ≡ false
    → lookup (normalize_host net raw) (add_host net c raw).exact ≡ some tt
unfolding add_host
add_host-plain net c raw named p =
    rw (named, p) (lookup-insert_self (normalize_host net raw) tt c.exact)

add_host-wild :
    (net : Net) (c : Compiled) (raw suffix : Str)
    → normalize_host net raw ≡ codes "*." ++ suffix
    → In suffix (add_host net c raw).wildcards
unfolding add_host has_prefix trim_prefix
add_host-wild net c raw suffix e = rw e (In-append_right c.wildcards (here []))

exact_complete :
    (net : Net) (raw : Str) (c : Compiled) {hosts : List Str}
    → In raw hosts
    → is_empty (normalize_host net raw) ≡ false
    → has_prefix (normalize_host net raw) (codes "*.") ≡ false
    → lookup (normalize_host net raw) (add_hosts net c hosts).exact ≡ some tt
unfolding add_hosts
exact_complete net raw c (here hosts) named p =
    (add_hosts-keeps net (add_host net c raw) hosts).0 (normalize_host net raw)
      (add_host-plain net c raw named p)
exact_complete net raw c (there other i) named p =
    exact_complete net raw (add_host net c other) i named p

wild_complete :
    (net : Net) (raw suffix : Str) (c : Compiled) {hosts : List Str}
    → In raw hosts
    → normalize_host net raw ≡ codes "*." ++ suffix
    → In suffix (add_hosts net c hosts).wildcards
unfolding add_hosts
wild_complete net raw suffix c (here hosts) e =
    (add_hosts-keeps net (add_host net c raw) hosts).1 suffix (add_host-wild net c raw suffix e)
wild_complete net raw suffix c (there other i) e =
    wild_complete net raw suffix (add_host net c other) i e

-- The loop over the suffixes.
wildcard_sound :
    (host : Str) (xs : List Str)
    → wildcard_covers host xs ≡ true
    → (suffix : Str) × In suffix xs
      × ((host ≡ suffix) ⊎ ((sub : Str) × (host ≡ sub ++ (codes "." ++ suffix))))
unfolding wildcard_covers
wildcard_sound host [] h = cc
wildcard_sound host (x ∷ xs) h = elim (Bool-cases (str_eq host x)) [
  | inl same ↦ (x, here xs, inl (str_eq_sound host x same))
  | inr differs ↦ elim (Bool-cases (has_suffix host (codes "." ++ x))) [
    | inl ends ↦ (x, here xs, inr (has_suffix_sound host (codes "." ++ x) ends))
    | inr other ↦
        let (suffix, i, e) = wildcard_sound host xs (ground arith) in (suffix, there x i, e)
  ]
]

wildcard_complete :
    (host : Str) {suffix : Str} {xs : List Str}
    → In suffix xs
    → (host ≡ suffix) ⊎ ((sub : Str) × (host ≡ sub ++ (codes "." ++ suffix)))
    → wildcard_covers host xs ≡ true
unfolding wildcard_covers
wildcard_complete host {suffix} (here xs) (inl e) = ground (arith, str_eq_iff host suffix)
wildcard_complete host {suffix} (here xs) (inr (sub, e)) =
    rw e (ground (arith, has_suffix-append sub (codes "." ++ suffix)))
wildcard_complete host (there x i) e = ground (arith, wildcard_complete host i e)

-- The state in which a document's hosts start to be compiled.
abbrev fresh : Document → Compiled
fresh doc = record { doc = doc; exact = []; wildcards = [] }

covers_sound :
    (net : Net) (doc : Document) (host : Str)
    → covers (compile net doc) host ≡ true
    → Selects net doc.mitm_hosts host
unfolding covers compile lookup
covers_sound net doc host h =
    elim (Option-cases (lookup host (add_hosts net (fresh doc) doc.mitm_hosts).exact)) [
      | inr (found, e) ↦ elim (exact_sound net (fresh doc) doc.mitm_hosts host e) [
        | inl before ↦ cc
        | inr (raw, i, same, p) ↦ exact raw i same p
      ]
      | inl missing ↦
          let (suffix, i, at) =
            wildcard_sound host (add_hosts net (fresh doc) doc.mitm_hosts).wildcards
              (rw (missing, covers) at h) in
          elim (wild_sound net (fresh doc) doc.mitm_hosts suffix i) [
            | inl before ↦ absurd (In-empty before)
            | inr (raw, j, e) ↦ wildcard raw suffix j e at
          ]
    ]

covers_suffix :
    (c : Compiled) (host : Str) → wildcard_covers host c.wildcards ≡ true → covers c host ≡ true
unfolding covers
covers_suffix c host h = elim (Option-cases (lookup host c.exact)) [
  | inl missing ↦ rw (missing, covers) h
  | inr (found, e) ↦ rw (e, covers) refl
]

covers_name : (c : Compiled) (host : Str) → lookup host c.exact ≡ some tt → covers c host ≡ true
unfolding covers
covers_name c host e = rw (e, covers) refl

covers_complete :
    (net : Net) (doc : Document) (host : Str)
    → is_empty host ≡ false
    → Selects net doc.mitm_hosts host
    → covers (compile net doc) host ≡ true
unfolding covers compile
covers_complete net doc host named (exact raw i e p) = covers_name (compile net doc) host (
    subst (λ (h : Str). lookup h (add_hosts net (fresh doc) doc.mitm_hosts).exact ≡ some tt) e
      (exact_complete net raw (fresh doc) i (ap is_empty e ∙ named)
        (subst (λ (h : Str). has_prefix h (codes "*.") ≡ false) (sym e) p)))
covers_complete net doc host named (wildcard raw suffix i e at) =
    covers_suffix (compile net doc) host
      (wildcard_complete host (wild_complete net raw suffix (fresh doc) i e) at)

-- Of a compiled document, the test on a host finds what its list selects, and nothing else.
pub covers_iff :
    (net : Net) (doc : Document) (host : Str)
    → is_empty host ≡ false
    → (covers (compile net doc) host ≡ true) ↔ Selects net doc.mitm_hosts host
covers_iff net doc host named = (covers_sound net doc host, covers_complete net doc host named)
