-- ===== src/CertStore.antt =====
-- pkg/tls/mitm/ca.go: the authority whose certificates are shown to intercepted clients. A is the type
-- of an authority's certificate with its key, L that of a leaf certificate; times are in seconds.
pub mod Signed
pub mod Bundle
pub mod Examples
use lhotse_agent.Prelude.{
  reverse, ℕ, ◌+◌, not, ◌||◌, List, [], ◌∷◌, ◌++◌, Option, none, some, length, ltb, ◌==◌,
  if◌then◌else◌, Str, codes, is_empty, trim_space, lookup, insert,
}
use lhotse_agent.Prelude.Int.{ℤ, pos, ◌-ℤ◌}
use lhotse_agent.Remote.{Fallible, good, bad}
use lhotse_agent.TtlCache.{Result, ok, err}

pub data Error : Type 0 where
  missing_server_name no_ca_loaded uri_missing fetch_failed decode_failed none_returned : Error
  mismatched none_valid no_active_ca no_system_bundle : Error
  signing_failed : Str → Error
  vault_status : (status : ℕ) → Error

-- The answer of the vault: its status and the decoded lists of certificates and keys.
pub record Answer : Type 0 where
  pub status : ℕ
  pub payload : Fallible (List Str × List Str)

-- The template of a leaf. The organisation, the usages and the serial number, which is random, are
-- the same for all leaves or of no account to the store.
pub record Template : Type 0 where
  pub common_name : Str
  pub not_before : ℤ
  pub not_after : ℕ
  pub ip_addresses : List Str
  pub dns_names : List Str

-- `sign` makes a key and the leaf of a template that an authority signs; `parse_ip` is net.ParseIP;
-- `key_pair` is X509KeyPair with ParseCertificate of its first certificate.
pub record Crypto (A L : Type 0) : Type 0 where
  pub sign : A → Template → Fallible L
  pub parse_ip : Str → Option Str
  pub not_after : L → ℕ
  pub key_pair : Str → Str → Fallible A
  pub encode_pem : A → Str

pub record CertStore (A L : Type 0) : Type 0 where
  pub primary : Option A
  pub secondary : Option A
  pub leaf_cache : List (Str × L)
  pub vault_uri : Str

drop_slashes : Str → Str
drop_slashes [] = []
drop_slashes (c ∷ s) = if c == 47 then drop_slashes s else c ∷ s

pub new_cert_store : {A L : Type 0} → Str → CertStore A L
unfolding drop_slashes
new_cert_store uri = record {
  primary = none;
  secondary = none;
  leaf_cache = [];
  vault_uri = reverse (drop_slashes (reverse uri));
}

signed : {L : Type 0} → Fallible L → Result L Error
signed (good l) = ok l
signed (bad e) = err (signing_failed e)

-- The names that a certificate holds for a domain: an address, or a DNS name.
san_addresses : Option Str → List Str
san_addresses none = []
san_addresses (some ip) = ip ∷ []

san_names : Str → Option Str → List Str
san_names domain none = domain ∷ []
san_names domain (some ip) = []

pub leaf_template : {A L : Type 0} → Crypto A L → ℕ → Str → Template
unfolding san_addresses san_names
leaf_template x now domain = record {
  common_name = domain;
  not_before = pos now -ℤ pos 3600;
  not_after = now + 86400;
  ip_addresses = san_addresses (x.parse_ip domain);
  dns_names = san_names domain (x.parse_ip domain);
}

-- generateLeafCert
generate : {A L : Type 0} → Crypto A L → ℕ → Str → Option A → Result L Error
unfolding signed leaf_template
generate x now domain none = err no_ca_loaded
generate x now domain (some ca) = signed (x.sign ca (leaf_template x now domain))

keep : {A L : Type 0} → Str → CertStore A L → Result L Error → CertStore A L × Result L Error
keep domain cs (err e) = (cs, err e)
keep domain cs (ok l) = (record cs { leaf_cache = insert domain l cs.leaf_cache }, ok l)

cached : {A L : Type 0} → Crypto A L → ℕ → Option L → Option L
cached x now none = none
cached x now (some l) = if ltb (now + 3600) (x.not_after l) then some l else none

get_uncached :
    {A L : Type 0}
    → Crypto A L
    → ℕ
    → Str
    → CertStore A L
    → Option L
    → CertStore A L × Result L Error
unfolding keep generate
get_uncached x now domain cs (some l) = (cs, ok l)
get_uncached x now domain cs none = keep domain cs (generate x now domain cs.primary)

-- GetCertificate; the argument is the server name of the ClientHello.
pub get_certificate :
    {A L : Type 0} → Crypto A L → ℕ → Str → CertStore A L → CertStore A L × Result L Error
unfolding get_uncached cached
get_certificate x now server_name cs =
    let domain = trim_space server_name in
    if is_empty domain
    then (cs, err missing_server_name)
    else get_uncached x now domain cs (cached x now (lookup domain cs.leaf_cache))

second : {A : Type 0} → List A → Option A
second [] = none
second (a ∷ rest) = some a

-- Reload
pub reload : {A L : Type 0} → List A → CertStore A L → CertStore A L
unfolding second
reload [] cs = cs
reload (c ∷ certs) cs = record cs { primary = some c; secondary = second certs; leaf_cache = [] }

-- The loop over the payload: pairs that are empty or do not parse are passed over.
parse_pairs : {A L : Type 0} → Crypto A L → List Str → List Str → List A
parse_pairs x (c ∷ cs) (k ∷ ks) =
    let rest = parse_pairs x cs ks in
    let cert = trim_space c in
    let key = trim_space k in
    if is_empty cert || is_empty key
    then rest
    else elim (x.key_pair cert key) [ good a ↦ a ∷ rest | bad e ↦ rest ]
parse_pairs x cs ks = []

load_pairs : {A L : Type 0} → CertStore A L → List A → CertStore A L × Option Error
unfolding reload
load_pairs cs [] = (cs, some none_valid)
load_pairs cs (c ∷ certs) = (reload (c ∷ certs) cs, none)

load_payload :
    {A L : Type 0}
    → Crypto A L
    → CertStore A L
    → Fallible (List Str × List Str)
    → CertStore A L × Option Error
unfolding load_pairs parse_pairs
load_payload x cs (bad e) = (cs, some decode_failed)
load_payload x cs (good (certs, keys)) =
    if (length certs == 0) || (length keys == 0)
    then (cs, some none_returned)
    else if not (length certs == length keys)
    then (cs, some mismatched)
    else load_pairs cs (parse_pairs x certs keys)

load_answer :
    {A L : Type 0} → Crypto A L → CertStore A L → Fallible Answer → CertStore A L × Option Error
unfolding load_payload
load_answer x cs (bad e) = (cs, some fetch_failed)
load_answer x cs (good a) =
    if not (a.status == 200)
    then (cs, some (vault_status a.status))
    else load_payload x cs a.payload

-- FetchAndReload; `get` is the client's Get.
pub fetch_and_reload :
    {A L : Type 0}
    → Crypto A L
    → (Str → Fallible Answer)
    → CertStore A L
    → CertStore A L × Option Error
unfolding load_answer
fetch_and_reload x get cs =
    if is_empty cs.vault_uri
    then (cs, some uri_missing)
    else load_answer x cs (get (cs.vault_uri ++ codes "/internal/ca/keypair"))

pem_of : {A L : Type 0} → Crypto A L → Option A → Str
pem_of x none = []
pem_of x (some a) = x.encode_pem a

-- GetActiveCAPEM
pub get_active_ca_pem : {A L : Type 0} → Crypto A L → CertStore A L → Str
unfolding pem_of
get_active_ca_pem x cs = pem_of x cs.primary ++ pem_of x cs.secondary
