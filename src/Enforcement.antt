-- ===== src/Enforcement.antt =====
-- cmd/proxy/domain_policy.go and cmd/proxy/inbound_target.go: refusing a connection by the domain
-- policy, where the domain of raw traffic is the server name of its TLS ClientHello. `itoa` is
-- strconv.Itoa.
pub mod Sniffed
pub mod Examples
use lhotse_agent.Prelude.{
  ℕ, Bool, true, false, ◌&&◌, List, [], ◌∷◌, ◌++◌, Option, none, some, length, if◌then◌else◌, Str,
  codes, is_empty,
}
use lhotse_agent.Net.{Net}
use lhotse_agent.ClientHello.{Peeked, PeekError, Sniff, peek_client_hello_server_name}
use lhotse_agent.DomainPolicy.{Decision}
use lhotse_agent.DomainPolicy.Manager.{Manager, manager_evaluate}

-- A carriage return and a line feed.
abbrev crlf : Str
crlf = 13 ∷ 10 ∷ []

-- writeDomainPolicyForbidden: what it writes.
pub forbidden : (ℕ → Str) → Str → Str
forbidden itoa reason =
    let shown = if is_empty reason then codes "domain_policy_denied" else reason in
    let body = codes "Forbidden: " ++ (shown ++ 10 ∷ []) in
    codes "HTTP/1.1 403 Forbidden"
    ++ (crlf
        ++ (codes "Server: lhotse-agent"
            ++ (crlf
                ++ (codes "Content-Type: text/plain;charset=UTF-8"
                    ++ (crlf
                        ++ (codes "Content-Length: "
                            ++ (itoa (length body)
                                ++ (crlf
                                    ++ (codes "Connection: close"
                                        ++ (crlf ++ (crlf ++ body)))))))))))

-- What an enforcement does: the bytes written downstream, and whether it returns
-- errProxyConnectionDone, which ends the connection.
pub record Enforced : Type 0 where
  pub written : Option Str
  pub connection_done : Bool

-- enforceDomainPolicy; `manager` is `none` where the configuration or its policy is nil, and
-- `downstream` says whether there is a connection to answer on.
unfoldable pub enforce_domain_policy :
    (ℕ → Str) → Net → Option Manager → Str → Bool → Str → Str → Enforced
enforce_domain_policy itoa net none direction downstream domain target = record {
  written = none;
  connection_done = false;
}
enforce_domain_policy itoa net (some m) direction downstream domain target =
    let decision = manager_evaluate net m direction domain target in
    if decision.allowed then record { written = none; connection_done = false } else record {
      written = if downstream then some (forbidden itoa decision.reason) else none;
      connection_done = true;
    }

-- The domain of raw traffic.
pub no_error : Option PeekError → Bool
no_error none = true
no_error (some e) = false

pub sniffed_domain : Sniff → Str
unfolding no_error
sniffed_domain s = if no_error s.error && s.is_tls then s.server_name else []

pub enforce_raw_domain_policy :
    (ℕ → Str) → Net → Option Manager → Str → Bool → (ℕ → Peeked) → Str → Enforced
unfolding sniffed_domain
enforce_raw_domain_policy itoa net manager direction downstream peek target =
    enforce_domain_policy itoa net manager direction downstream
      (sniffed_domain (peek_client_hello_server_name peek)) target

-- inboundDialTarget
pub inbound_dial_target : Net → Str → Str
inbound_dial_target net original = elim (net.split_host_port original) [
  | none ↦ original
  | some (host, port) ↦ net.join_host_port (codes "127.0.0.1") port
]
