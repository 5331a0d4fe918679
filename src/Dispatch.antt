-- ===== src/Dispatch.antt =====
-- cmd/proxy/outbound.go and inbound.go: what the servers make of the first bytes of a connection.
-- `peeked` is what reader.Peek(5) gives, `sniff` what PeekClientHelloServerName gives, and the
-- session what an interception of the connection meets.
pub mod Prefixes
pub mod Judged
pub mod Examples
use lhotse_agent.Prelude.{
  ℕ, Bool, true, false, not, ◌&&◌, ◌||◌, Option, none, some, if◌then◌else◌, Str, codes, is_empty,
  has_prefix,
}
use lhotse_agent.Net.{Net}
use lhotse_agent.ClientHello.{Sniff}
use lhotse_agent.DomainPolicy.{direction_inbound, direction_outbound}
use lhotse_agent.DomainPolicy.Manager.{Manager}
use lhotse_agent.Enforcement.{Enforced, enforce_domain_policy, no_error, sniffed_domain}
use lhotse_agent.Interception.{
  MitmProtocol, is_http_request_prefix, Session, MitmError, Intercepted, served, unserved,
  mitm_tls_proc,
}
use lhotse_agent.RuntimeConfig
use lhotse_agent.RuntimeConfig.{normalize_host, mitm_enabled_for_host}

-- The condition of the inbound server.
pub inbound_prefix : Str → Bool
inbound_prefix header =
    has_prefix header (codes "GET")
    || has_prefix header (codes "POST")
    || has_prefix header (codes "HEAD")
    || has_prefix header (codes "CONNECT")
    || has_prefix header (codes "OPTIONS")
    || has_prefix header (codes "PUT")
    || has_prefix header (codes "DELETE")

-- The outbound server: whether its configuration turns interception on, whether it has a
-- certificate store, and its two managers.
pub record Server : Type 0 where
  pub net : Net
  pub itoa : ℕ → Str
  pub mitm_enabled : Bool
  pub has_store : Bool
  pub runtime : Option RuntimeConfig.Manager
  pub policy : Option Manager

or_host : Str → Str → Str
or_host host other = if is_empty host then other else host

-- shouldMITM; extractHost is normalizeHost.
pub should_mitm : Server → Str → Str → Bool
unfolding or_host
should_mitm o server_name dst = elim o.runtime [
  | none ↦ false
  | some m ↦
      if not o.mitm_enabled || not o.has_store
      then false
      else mitm_enabled_for_host o.net m
          (or_host (normalize_host o.net server_name) (normalize_host o.net dst))
]

-- What becomes of the connection: its end, a request, the interception of its TLS with the protocol
-- and the server name behind it, the copying of its bytes after an interception that failed, a
-- refusal with what is written, or the copying of its bytes.
pub data Handling : Type 0 where
  ends : Handling
  http_request : (dst : Str) → Handling
  intercepts : (dst server_name : Str) → MitmProtocol → (behind : Str) → Handling
  falls_back : (dst server_name : Str) → MitmError → Handling
  refuses : Option Str → Handling
  passes_through : (dst : Str) → Handling

pub or_else : Str → Str → Str
or_else dst default = if is_empty dst then default else dst

judged : Enforced → Handling → Handling
judged e h = if e.connection_done then refuses e.written else h

-- mitmTLSProc, with the fallback to proxyTLSPassthrough.
intercepted : Str → Str → Intercepted → Handling
intercepted dst server_name (served p behind) = intercepts dst server_name p behind
intercepted dst server_name (unserved e) = falls_back dst server_name e

outbound_raw : {A L : Type 0} → Server → Session A L → Sniff → Str → Handling
unfolding judged should_mitm intercepted
outbound_raw o s sniff dst =
    if (no_error sniff.error && sniff.is_tls) && should_mitm o sniff.server_name dst
    then judged
        (enforce_domain_policy o.itoa o.net o.policy direction_outbound true
          (normalize_host o.net sniff.server_name) dst)
        (intercepted dst sniff.server_name (mitm_tls_proc o.net s sniff.server_name).1)
    else judged
        (enforce_domain_policy o.itoa o.net o.policy direction_outbound true (sniffed_domain sniff)
          dst)
        (passes_through dst)

-- One round of the loop of OutboundServer.proc.
pub outbound_round : {A L : Type 0} → Server → Session A L → Option Str → Sniff → Str → Handling
unfolding outbound_raw or_else
outbound_round o s none sniff dst = ends
outbound_round o s (some header) sniff dst =
    if is_http_request_prefix header
    then http_request (or_else dst (codes "192.168.0.105:28080"))
    else outbound_raw o s sniff (or_else dst (codes "192.168.0.105:28081"))

-- One round of the loop of InProxyServer.proc.
pub inbound_round : Server → Option Str → Sniff → Str → Handling
unfolding inbound_prefix judged or_else
inbound_round o none sniff dst = ends
inbound_round o (some header) sniff dst =
    if inbound_prefix header
    then http_request (or_else dst (codes "192.168.0.105:28080"))
    else (let to = or_else dst (codes "192.168.0.105:28081") in
        judged
          (enforce_domain_policy o.itoa o.net o.policy direction_inbound true (sniffed_domain sniff)
            to)
          (passes_through to))
