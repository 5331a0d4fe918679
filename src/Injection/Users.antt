-- ===== src/Injection/Users.antt =====
-- Who the user of a request is, and when cmd/proxy/credentials.go adds a header to it.
use lhotse_agent.Prelude.{
  ap, sym, In-cons, In-empty, refl, none, ℕ, ◌+◌, ◌≡◌, ◌⊎◌, inl, inr, false, List, [], ◌∷◌, ◌++◌,
  Option, some, Str, str_eq, str_eq_sound, is_empty, trim_space, Bool-cases, Option-cases, In, here,
  there,
}
use lhotse_agent.TtlCache.{Cache, Result, ok, err}
use lhotse_agent.RuntimeConfig.{
  UserSource, user_source_oauth2_token, user_source_header, normalize_host,
}
use lhotse_agent.Injection.{
  set_credential, inject_resolved, apply_credential_injection, inject_user, Request, Agent, ask,
  token_of, user_loop, resolve_user_id,
}
use lhotse_agent.Credential
use lhotse_agent.Identity

-- A user that one of the sources names: the value of its trusted header, or the user whom the
-- identity resolver returns for the token in its header.
pub data UserOf (r : Request) (sources : List UserSource) (user : Str) : Type 0 where
  trusted :
      (s : UserSource)
      → In s sources
      → s.kind ≡ user_source_header
      → trim_space (r.get_header s.header) ≡ user
      → UserOf r sources user
  identified :
      (s : UserSource) (token : Str) (k : ℕ) (c : Cache Str)
      → In s sources
      → s.kind ≡ user_source_oauth2_token
      → token_of r s ≡ some token
      → (Identity.resolve (r.identity k) r.identity_uri s.provider token c).1 ≡ ok user
      → UserOf r sources user

UserOf-there :
    {r : Request} {sources : List UserSource} {user : Str} (s : UserSource)
    → UserOf r sources user
    → UserOf r (s ∷ sources) user
UserOf-there s (trusted t i e h) = trusted t (there s i) e h
UserOf-there s (identified t token k c i e h f) = identified t token k c (there s i) e h f

ask_ok :
    (c : Cache Str) (a : Result Str Identity.Error) (rest : Cache Str × Result Str Identity.Error)
    (user : Str)
    → (ask c a rest).1 ≡ ok user
    → (a ≡ ok user) ⊎ (rest.1 ≡ ok user)
unfolding ask
ask_ok c (err e) rest user h = absurd (let clash = h in cc)
ask_ok c (ok found) rest user h = elim (Bool-cases (is_empty found)) [
  | inl empty ↦ inr (rw empty at h)
  | inr named ↦ inl (rw named at h)
]

user_loop-UserOf :
    (r : Request) (k : ℕ) (sources : List UserSource) (c : Cache Str) (user : Str)
    → is_empty user ≡ false
    → (user_loop r k sources c).1 ≡ ok user
    → UserOf r sources user
unfolding user_loop
user_loop-UserOf r k [] c [] full h = absurd (let clash = full in cc)
user_loop-UserOf r k [] c (x ∷ user) full h = absurd (let clash = h in cc)
user_loop-UserOf r k (s ∷ ss) c user full h =
    elim (Bool-cases (str_eq s.kind user_source_oauth2_token)) [
      | inl oauth ↦ elim (Option-cases (token_of r s)) [
        | inl no_token ↦
            UserOf-there s (user_loop-UserOf r k ss c user full (rw (oauth, no_token) at h))
        | inr (token, has) ↦
            let asked = Identity.resolve (r.identity k) r.identity_uri s.provider token c in
            elim (ask_ok asked.0 asked.1 (user_loop r (k + 1) ss asked.0) user
              (rw (oauth, has) at h)) [
                | inl found ↦
                    identified s token k c (here ss)
                      (str_eq_sound s.kind user_source_oauth2_token oauth) has found
                | inr later ↦ UserOf-there s (user_loop-UserOf r (k + 1) ss asked.0 user full later)
              ]
      ]
      | inr other ↦ elim (Bool-cases (str_eq s.kind user_source_header)) [
        | inr unknown ↦
            UserOf-there s (user_loop-UserOf r k ss c user full (rw (other, unknown) at h))
        | inl header ↦ elim (Bool-cases (is_empty (trim_space (r.get_header s.header)))) [
          | inl blank ↦
              UserOf-there s (user_loop-UserOf r k ss c user full (rw (other, header, blank) at h))
          | inr value ↦
              trusted s (here ss) (str_eq_sound s.kind user_source_header header)
                (cc (rw (other, header, value) at h))
        ]
      ]
    ]

-- A user id that resolveUserID returns, if it is not empty, is the trimmed value of a trusted header
-- of one of the sources, or the user whom the identity resolver returns for the token in the header
-- of one of them.
pub resolve_user_id-UserOf :
    (r : Request) (sources : List UserSource) (c : Cache Str) (user : Str)
    → is_empty user ≡ false
    → (resolve_user_id r (some sources) c).1 ≡ ok user
    → UserOf r sources user
unfolding resolve_user_id
resolve_user_id-UserOf r sources c user full h = user_loop-UserOf r 0 sources c user full h

-- The credential for the agent, the normalised host and the user of the request.
pub record CredentialOf (a : Agent) (host : Str) (r : Request) (sources : Option (List UserSource))
    (users : Cache Str) (credentials : Cache (Option Credential.Credential)) (name value : Str)
    : Type 0 where
  pub user : Str
  pub credential : Credential.Credential
  pub user_found : (resolve_user_id r sources users).1 ≡ ok user
  pub credential_found :
      (Credential.resolve a.vault a.vault_uri a.agent_id
        (normalize_host a.net host)
        user
        credentials).1
      ≡ ok (some credential)
  pub name_is : name ≡ credential.header_name
  pub value_is : value ≡ credential.header_prefix ++ credential.value

inject_resolved_sets :
    (users : Cache Str) (user name value : Str)
    (found : Cache (Option Credential.Credential)
      × Result (Option Credential.Credential) Credential.Error)
    → In (name, value) (inject_resolved users user found).set_headers
    → (cred : Credential.Credential) × (found.1 ≡ ok (some cred))
      × (name ≡ cred.header_name)
      × (value ≡ cred.header_prefix ++ cred.value)
      × ((inject_resolved users user found).error ≡ none)
unfolding inject_resolved set_credential
inject_resolved_sets users user name value (c, err e) i = absurd (In-empty i)
inject_resolved_sets users user name value (c, ok none) i = absurd (In-empty i)
inject_resolved_sets users user name value (c, ok (some cred)) i = elim (In-cons i) [
  | inl same ↦ (
    cred,
    refl,
    sym (ap (λ (x : Str × Str). x.0) same),
    sym (ap (λ (x : Str × Str). x.1) same),
    refl,
  )
  | inr more ↦ absurd (In-empty more)
]

inject_user_sets :
    (a : Agent) (host name value : Str) (credentials : Cache (Option Credential.Credential))
    (r : Request) (sources : Option (List UserSource)) (users : Cache Str)
    (found : Cache Str × Result Str Identity.Error)
    → (resolve_user_id r sources users).1 ≡ found.1
    → In (name, value) (inject_user a host credentials found).set_headers
    → CredentialOf a host r sources users credentials name value
      × ((inject_user a host credentials found).error ≡ none)
unfolding inject_user
inject_user_sets a host name value credentials r sources users (c, err e) h i = absurd (In-empty i)
inject_user_sets a host name value credentials r sources users (c, ok user) h i =
    let (cred, found, named, valued, fine) = inject_resolved_sets c user name value _ i in
    (
      record {
        user = user;
        credential = cred;
        user_found = h;
        credential_found = found;
        name_is = named;
        value_is = valued;
      },
      fine,
    )

-- A header that applyCredentialInjection sets carries the credential that the credential resolver
-- returns for the configured agent, the normalised host and the user that resolveUserID found, under
-- the credential's name and with its prefix, and then no error is returned.
pub injection-CredentialOf :
    (a : Agent) (host name value : Str) (r : Request) (sources : Option (List UserSource))
    (users : Cache Str) (credentials : Cache (Option Credential.Credential))
    → In
        (name, value)
        (apply_credential_injection (some a) host r sources users credentials).set_headers
    → CredentialOf a host r sources users credentials name value
      × ((apply_credential_injection (some a) host r sources users credentials).error ≡ none)
unfolding apply_credential_injection
injection-CredentialOf a host name value r sources users credentials i =
    inject_user_sets a host name value credentials r sources users (resolve_user_id r sources users)
      refl i
