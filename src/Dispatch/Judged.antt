-- ===== src/Dispatch/Judged.antt =====
-- What stands before the interception and the copying of bytes in cmd/proxy/outbound.go and inbound.go.
use lhotse_agent.Prelude.{
  arith, ◌≡◌, refl, inl, inr, true, ◌&&◌, Option, none, some, Str, Bool-cases, codes,
}
use lhotse_agent.ClientHello.{Sniff}
use lhotse_agent.DomainPolicy.{direction_inbound, direction_outbound}
use lhotse_agent.Enforcement.{enforce_domain_policy, no_error, sniffed_domain}
use lhotse_agent.Enforcement.Sniffed.{Allowed, enforce_domain_policy-Allowed}
use lhotse_agent.RuntimeConfig.{normalize_host}
use lhotse_agent.Interception.{
  Session, Intercepted, served, unserved, is_http_request_prefix, mitm_tls_proc,
}
use lhotse_agent.Dispatch.{
  falls_back, intercepted, Server, should_mitm, inbound_prefix, Handling, ends, http_request,
  intercepts, refuses, passes_through, judged, or_else, outbound_raw, outbound_round, inbound_round,
}

-- Interception was asked for, and the policy allows the normalized server name.
abbrev pub Asked : Server → Sniff → Str → Str → Type 0
Asked o sniff dst name =
    (name ≡ sniff.server_name)
    × (no_error sniff.error ≡ true)
    × (sniff.is_tls ≡ true)
    × (should_mitm o name dst ≡ true)
    × Allowed o.net o.policy direction_outbound (normalize_host o.net name) dst

-- What stands before each handling of a connection for which an interception ends with `i`.
abbrev pub Clears : Server → Intercepted → Str → Sniff → Handling → Type 0
Clears o i direction sniff (intercepts dst name p behind) =
    Asked o sniff dst name × (direction ≡ direction_outbound) × (i ≡ served p behind)
Clears o i direction sniff (falls_back dst name e) =
    Asked o sniff dst name × (direction ≡ direction_outbound) × (i ≡ unserved e)
Clears o i direction sniff (passes_through dst) =
    Allowed o.net o.policy direction (sniffed_domain sniff) dst
Clears o i direction sniff ends = Unit {0}
Clears o i direction sniff (http_request dst) = Unit {0}
Clears o i direction sniff (refuses written) = Unit {0}

judged-Clears :
    (o : Server) (i : Intercepted) (direction domain dst : Str) (sniff : Sniff) (h : Handling)
    → (Allowed o.net o.policy direction domain dst → Clears o i direction sniff h)
    → Clears o i direction sniff
        (judged (enforce_domain_policy o.itoa o.net o.policy direction true domain dst) h)
unfolding judged
judged-Clears o i direction domain dst sniff h f =
    elim (Bool-cases
      (enforce_domain_policy o.itoa o.net o.policy direction true domain dst).connection_done) [
        | inl over ↦ rw over _
        | inr fine ↦
            rw fine
              (f (enforce_domain_policy-Allowed o.itoa o.net o.policy direction domain dst fine))
      ]

intercepted-Clears :
    (o : Server) (i j : Intercepted) (sniff : Sniff) (dst : Str)
    → i ≡ j
    → Asked o sniff dst sniff.server_name
    → Clears o i direction_outbound sniff (intercepted dst sniff.server_name j)
unfolding intercepted
intercepted-Clears o i (served p behind) sniff dst e asked = (asked, refl, e)
intercepted-Clears o i (unserved f) sniff dst e asked = (asked, refl, e)

module _ {A L : Type 0} (o : Server) (s : Session A L) where
  outbound_raw-Clears :
      (sniff : Sniff) (dst : Str)
      → Clears o
          (mitm_tls_proc o.net s sniff.server_name).1
          direction_outbound
          sniff
          (outbound_raw o s sniff dst)
  unfolding outbound_raw
  outbound_raw-Clears sniff dst =
      let i = (mitm_tls_proc o.net s sniff.server_name).1 in
      elim (Bool-cases
        ((no_error sniff.error && sniff.is_tls) && should_mitm o sniff.server_name dst)) [
          | inl asked ↦ rw asked (
              judged-Clears o i direction_outbound (normalize_host o.net sniff.server_name) dst
                sniff (intercepted dst sniff.server_name i)
                (λ allowed.
                  intercepted-Clears o i i sniff dst refl
                    (refl, ground arith, ground arith, ground arith, allowed)))
          | inr other ↦ rw other (
              judged-Clears o i direction_outbound (sniffed_domain sniff) dst sniff
                (passes_through dst) (λ allowed. allowed))
        ]

  -- Whatever the first bytes are: a round of the outbound server intercepts TLS only where a
  -- ClientHello was read, interception is asked for and the policy, if there is one, allows its
  -- normalized server name with the destination, and with the protocol and the name that the
  -- interception ended with; under the same conditions, and where the interception failed, it copies
  -- bytes as a fallback; and a round of either server copies bytes without an attempt to intercept
  -- only where the policy allows the sniffed domain with the destination. The inbound server never
  -- intercepts.
  pub round-Clears :
      (peeked : Option Str) (sniff : Sniff) (dst : Str)
      → Clears o
          (mitm_tls_proc o.net s sniff.server_name).1
          direction_outbound
          sniff
          (outbound_round o s peeked sniff dst)
        × Clears o
            (mitm_tls_proc o.net s sniff.server_name).1
            direction_inbound
            sniff
            (inbound_round o peeked sniff dst)
  unfolding outbound_round inbound_round
  round-Clears none sniff dst = (_, _)
  round-Clears (some header) sniff dst = (
    elim (Bool-cases (is_http_request_prefix header)) [
      | inl http ↦ rw http _
      | inr raw ↦ rw raw (outbound_raw-Clears sniff (or_else dst (codes "192.168.0.105:28081")))
    ],
    elim (Bool-cases (inbound_prefix header)) [
      | inl http ↦ rw http _
      | inr raw ↦
          let to = or_else dst (codes "192.168.0.105:28081") in
          rw raw (
            judged-Clears o (mitm_tls_proc o.net s sniff.server_name).1 direction_inbound
              (sniffed_domain sniff) to sniff (passes_through to) (λ allowed. allowed))
    ],
  )
