-- ===== src/CertStore/Bundle.antt =====
-- cmd/proxy/server.go: the trust bundle of the system and of the certificate store, and the first fetch
-- of its authority.
use lhotse_agent.Prelude.{
  Bool, true, List, [], ◌∷◌, ◌++◌, Option, none, some, ◌==◌, if◌then◌else◌, Str, is_empty,
  trim_space,
}
use lhotse_agent.Remote.{Fallible, good, bad}
use lhotse_agent.TtlCache.{Result, ok, err}
use lhotse_agent.CertStore.{
  Error, no_active_ca, no_system_bundle, Answer, Crypto, CertStore, get_active_ca_pem,
  fetch_and_reload,
}

-- loadSystemCABundle; the list is what reading its paths gives.
load_system_ca_bundle : List (Fallible Str) → Option Str
load_system_ca_bundle [] = none
load_system_ca_bundle (bad e ∷ files) = load_system_ca_bundle files
load_system_ca_bundle (good s ∷ files) =
    let rest = load_system_ca_bundle files in if is_empty (trim_space s) then rest else some s

ends_in_newline : Str → Bool
ends_in_newline [] = true
ends_in_newline (c ∷ []) = c == 10
ends_in_newline (c ∷ d ∷ s) = ends_in_newline (d ∷ s)

join_bundles : Str → Str → Result Str Error
unfolding ends_in_newline
join_bundles system active =
    if is_empty (trim_space active)
    then err no_active_ca
    else ok (system ++ ((if ends_in_newline system then [] else 10 ∷ []) ++ active))

-- combinedTrustBundle; `none` is a store that is nil.
pub combined_trust_bundle :
    {A L : Type 0} → Crypto A L → List (Fallible Str) → Option (CertStore A L) → Result Str Error
unfolding load_system_ca_bundle join_bundles get_active_ca_pem
combined_trust_bundle x files store = elim (load_system_ca_bundle files) [
  | none ↦ err no_system_bundle
  | some system ↦ elim store [
    | none ↦ err no_active_ca
    | some cs ↦ join_bundles system (get_active_ca_pem x cs)
  ]
]

-- initializeCA: what the ticks before the timeout answer; `none` is the timeout, which ends the
-- program.
pub initialize_ca :
    {A L : Type 0}
    → Crypto A L
    → List (Str → Fallible Answer)
    → CertStore A L
    → Option (CertStore A L)
unfolding fetch_and_reload
initialize_ca x [] cs = none
initialize_ca x (get ∷ gets) cs =
    let tried = fetch_and_reload x get cs in
    let later = initialize_ca x gets tried.0 in
    elim tried.1 [ none ↦ some tried.0 | some e ↦ later ]
