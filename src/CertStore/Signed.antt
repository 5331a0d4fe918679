-- ===== src/CertStore/Signed.antt =====
-- Who signed the certificates that pkg/tls/mitm/ca.go gives out.
use lhotse_agent.Prelude.{
  lookup-All, insert-All, ℕ, ◌+◌, ◌≡◌, refl, ap, subst, inl, inr, List, [], ◌∷◌, Option, none, some,
  All, ltb, Str, is_empty, trim_space, lookup, Bool-cases,
}
use lhotse_agent.Prelude.Int.{pos, ◌-ℤ◌}
use lhotse_agent.Remote.{Fallible, good, bad}
use lhotse_agent.TtlCache.{Result, ok, err}
use lhotse_agent.CertStore.{
  Error, Answer, Crypto, CertStore, Template, leaf_template, san_addresses, san_names, signed,
  generate, keep, cached, get_uncached, get_certificate, fetch_and_reload,
}

module _ {A L : Type 0} (x : Crypto A L) where
  -- The leaf is one that the authority that comes first signed for the domain: with the domain as its
  -- only name, an address if it is one, and valid for a day from some time and for the hour before.
  pub record FromPrimary (primary : Option A) (domain : Str) (l : L) : Type 0 where
    pub ca : A
    pub is_primary : primary ≡ some ca
    pub time : ℕ
    pub template : Template
    pub common_name : template.common_name ≡ domain
    pub by : x.sign ca template ≡ good l
    pub lasts : template.not_after ≡ time + 86400
    pub dated : template.not_before ≡ pos time -ℤ pos 3600
    pub address :
        (ip : Str)
        → x.parse_ip domain ≡ some ip
        → (template.ip_addresses ≡ ip ∷ []) × (template.dns_names ≡ [])
    pub dns_name :
        x.parse_ip domain ≡ none → (template.ip_addresses ≡ []) × (template.dns_names ≡ domain ∷ [])

  abbrev pub EntryFrom : Option A → Str × L → Type 0
  EntryFrom p e = FromPrimary p e.0 e.1

  abbrev pub AllFrom : Option A → List (Str × L) → Type 0
  AllFrom p = All (EntryFrom p)

  -- Every leaf that a store keeps is from its first authority.
  abbrev pub AllFromPrimary : CertStore A L → Type 0
  AllFromPrimary cs = AllFrom cs.primary cs.leaf_cache

  ok_same : (k l : L) → Path (Result L Error) (ok k) (ok l) → k ≡ l
  ok_same k l g = cc

  signed_good : (s : Fallible L) (l : L) → signed s ≡ ok l → s ≡ good l
  unfolding signed
  signed_good (good k) l h = ap good (ok_same k l h)
  signed_good (bad e) l h = absurd (let clash = h in cc)

  generate-FromPrimary :
      (now : ℕ) (domain : Str) (p : Option A) (l : L)
      → generate x now domain p ≡ ok l
      → FromPrimary p domain l
  unfolding generate leaf_template san_addresses san_names
  generate-FromPrimary now domain none l h = absurd (let clash = h in cc)
  generate-FromPrimary now domain (some ca) l h = record {
    ca = ca;
    is_primary = refl;
    time = now;
    template = leaf_template x now domain;
    common_name = refl;
    by = signed_good _ l h;
    lasts = refl;
    dated = refl;
    address = λ ip e. (ap san_addresses e, ap (san_names domain) e);
    dns_name = λ e. (ap san_addresses e, ap (san_names domain) e);
  }

  -- The store behind an answer, and the leaf that was given, if one was.
  pub record Given (cs : CertStore A L) (domain : Str) (r : CertStore A L × Result L Error)
      : Type 0 where
    pub kept : AllFromPrimary r.0
    pub primary_kept : r.0.primary ≡ cs.primary
    pub leaf : (l : L) → r.1 ≡ ok l → FromPrimary cs.primary domain l

  keep-Given :
      (cs : CertStore A L) (domain : Str) (r : Result L Error)
      → AllFromPrimary cs
      → ((l : L) → r ≡ ok l → FromPrimary cs.primary domain l)
      → Given cs domain (keep domain cs r)
  unfolding keep
  keep-Given cs domain (err e) a f = record { kept = a; primary_kept = refl; leaf = f }
  keep-Given cs domain (ok l) a f = record {
    kept = insert-All (EntryFrom cs.primary) domain l cs.leaf_cache (f l refl) a;
    primary_kept = refl;
    leaf = f;
  }

  cached_found : (now : ℕ) (o : Option L) (l : L) → cached x now o ≡ some l → o ≡ some l
  unfolding cached
  cached_found now none l h = absurd (let clash = h in cc)
  cached_found now (some k) l h = elim (Bool-cases (ltb (now + 3600) (x.not_after k))) [
    | inl lasting ↦ let same = rw lasting at h in same
    | inr ending ↦ absurd (let clash = rw ending at h in cc)
  ]

  get_uncached-Given :
      (now : ℕ) (domain : Str) (cs : CertStore A L) (o : Option L)
      → cached x now (lookup domain cs.leaf_cache) ≡ o
      → AllFromPrimary cs
      → Given cs domain (get_uncached x now domain cs o)
  unfolding get_uncached
  get_uncached-Given now domain cs none c a =
      keep-Given cs domain (generate x now domain cs.primary) a
        (generate-FromPrimary now domain cs.primary)
  get_uncached-Given now domain cs (some k) c a = record {
    kept = a;
    primary_kept = refl;
    leaf = λ l h. subst (FromPrimary cs.primary domain) (ok_same k l h) (
        lookup-All (EntryFrom cs.primary) domain cs.leaf_cache k a
          (cached_found now (lookup domain cs.leaf_cache) k c));
  }

  pub get_certificate-Given :
      (now : ℕ) (name : Str) (cs : CertStore A L)
      → AllFromPrimary cs
      → Given cs (trim_space name) (get_certificate x now name cs)
  unfolding get_certificate
  get_certificate-Given now name cs a = elim (Bool-cases (is_empty (trim_space name))) [
    | inl blank ↦
        rw blank
          (record { kept = a; primary_kept = refl; leaf = λ l h. absurd (let clash = h in cc) })
    | inr named ↦ rw named (
        get_uncached-Given now (trim_space name) cs
          (cached x now (lookup (trim_space name) cs.leaf_cache)) refl a)
  ]

  -- The calls on a store, in order.
  pub data Op : Type 0 where
    gets : (now : ℕ) (name : Str) → Op
    fetches : (Str → Fallible Answer) → Op

  unfoldable pub run : List Op → CertStore A L → CertStore A L
  run [] cs = cs
  run (gets now name ∷ ops) cs = run ops (get_certificate x now name cs).0
  run (fetches get ∷ ops) cs = run ops (fetch_and_reload x get cs).0
