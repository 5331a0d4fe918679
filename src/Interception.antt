-- ===== src/Interception.antt =====
-- cmd/proxy/outbound.go: mitmTLSProc, the interception of a TLS connection. A `Session` holds what
-- the client, the destination, crypto/tls and net/http answer during it; the certificates are those
-- of the store of pkg/tls/mitm/ca.go.
pub mod Protocol
pub mod Shown
pub mod Examples
use lhotse_agent.Prelude.{
  ℕ, Bool, not, ◌&&◌, ◌||◌, [], ◌∷◌, Option, none, some, length, take, leb, min, if◌then◌else◌, Str,
  codes, str_eq, is_empty, has_prefix,
}
use lhotse_agent.Net.{Net}
use lhotse_agent.TtlCache.{Result, ok, err}
use lhotse_agent.CertStore
use lhotse_agent.CertStore.{Crypto, CertStore, get_certificate}
use lhotse_agent.RuntimeConfig.{normalize_host}

-- isHTTPRequestPrefix
unfoldable pub is_http_request_prefix : Str → Bool
is_http_request_prefix header =
    has_prefix header (codes "GET")
    || has_prefix header (codes "POST")
    || has_prefix header (codes "HEAD")
    || has_prefix header (codes "CONNECT")
    || has_prefix header (codes "OPTIONS")
    || has_prefix header (codes "PUT")
    || has_prefix header (codes "DELETE")
    || has_prefix header (codes "PATCH")

pub data MitmProtocol : Type 0 where
  http1 http2 generic_tls : MitmProtocol

-- The errors of the peek: a timeout, a full buffer or an end of the input, or another one.
pub data PeekFailure : Type 0 where
  timed_out partial broken : PeekFailure

abbrev pub http2_client_preface : Str
http2_client_preface = codes "PRI * HTTP/2.0\r\n\r\nSM\r\n\r\n"

by_bytes : Str → MitmProtocol
unfolding is_http_request_prefix
by_bytes [] = generic_tls
by_bytes (b ∷ s) =
    if leb (length http2_client_preface) (length (b ∷ s))
      && str_eq (take (length http2_client_preface) (b ∷ s)) http2_client_preface
    then http2
    else if is_http_request_prefix (take (min (length (b ∷ s)) 5) (b ∷ s))
    then http1
    else generic_tls

by_peek : Str → Option PeekFailure → Option MitmProtocol
unfolding by_bytes
by_peek s none = some (by_bytes s)
by_peek s (some partial) = some (by_bytes s)
by_peek s (some timed_out) = some generic_tls
by_peek s (some broken) = none

-- detectMITMProtocol: `peek` and `failure` are what Peek of the preface's length gives; `none` is
-- an error.
pub detect_mitm_protocol : Str → Str → Option PeekFailure → Option MitmProtocol
unfolding by_peek
detect_mitm_protocol negotiated peek failure =
    if str_eq negotiated (codes "h2")
    then some http2
    else if str_eq negotiated (codes "http/1.1")
    then some http1
    else by_peek peek failure

-- How http.Server.Serve ends: without an error, as its listener or its connection is closed, or
-- otherwise.
pub data ServeEnd : Type 0 where
  no_serve_error listener_closed connection_closed other_error : ServeEnd

-- `pre_read` is what reader.Peek(reader.Buffered()) gives, and whether with an error;
-- `plain_pre_read` is that of the decrypted bytes. The handshake reads the server name of the
-- client, and with a certificate for it either fails or negotiates a protocol.
pub record Session (A L : Type 0) : Type 0 where
  pub crypto : Crypto A L
  pub now : ℕ
  pub store : CertStore A L
  pub pre_read : Str × Bool
  pub hello_name : Str
  pub handshake : L → Option Str
  pub peek : Str
  pub peek_failure : Option PeekFailure
  pub plain_pre_read : Str × Bool
  pub serve_end : ServeEnd
  pub dials : Bool
  pub upstream_handshake : Str → Bool
  pub copies : Bool

pub data MitmError : Type 0 where
  no_peek_buffer handshake_failed undetected no_pre_read serving_failed : MitmError
  dial_failed upstream_handshake_failed copying_failed : MitmError
  no_certificate : CertStore.Error → MitmError

-- The protocol that was served, and the server name that the handler or the connection to the
-- destination has.
pub data Intercepted : Type 0 where
  served : MitmProtocol → Str → Intercepted
  unserved : MitmError → Intercepted

capture_fails : Str × Bool → Bool
capture_fails (read, failed) = failed && is_empty read

-- proxyMITMTLSConnection
proxy_mitm_tls_connection : {A L : Type 0} → Session A L → Str → Intercepted
proxy_mitm_tls_connection s name =
    if not s.dials
    then unserved dial_failed
    else if not (s.upstream_handshake name)
    then unserved upstream_handshake_failed
    else if s.copies
    then served generic_tls name
    else unserved copying_failed

end_of_serve : Str → ServeEnd → Intercepted
end_of_serve name no_serve_error = served http1 name
end_of_serve name listener_closed = served http1 name
end_of_serve name connection_closed = served http1 name
end_of_serve name other_error = unserved serving_failed

-- The switch over the protocols.
serve_protocol : {A L : Type 0} → Session A L → Str → Option MitmProtocol → Intercepted
unfolding capture_fails proxy_mitm_tls_connection end_of_serve
serve_protocol s name none = unserved undetected
serve_protocol s name (some http2) =
    if capture_fails s.plain_pre_read then unserved no_pre_read else served http2 name
serve_protocol s name (some http1) =
    if capture_fails s.plain_pre_read then unserved no_pre_read else end_of_serve name s.serve_end
serve_protocol s name (some generic_tls) = proxy_mitm_tls_connection s name

shaken : {A L : Type 0} → Session A L → Str → Option Str → Intercepted
unfolding serve_protocol detect_mitm_protocol
shaken s name none = unserved handshake_failed
shaken s name (some negotiated) =
    serve_protocol s name (detect_mitm_protocol negotiated s.peek s.peek_failure)

-- The handshake with what GetCertificate gives.
shake :
    {A L : Type 0}
    → Session A L
    → Str
    → CertStore A L × Result L CertStore.Error
    → CertStore A L × Intercepted
unfolding shaken
shake s name (cs, err e) = (cs, unserved handshake_failed)
shake s name (cs, ok l) = (cs, shaken s name (s.handshake l))

-- GetCertificate of the TLS configuration: without a server name of the client, the certificate
-- that was prepared, if there is one.
shown :
    {A L : Type 0}
    → Net
    → Session A L
    → CertStore A L
    → Option L
    → CertStore A L × Result L CertStore.Error
shown net s cs none = get_certificate s.crypto s.now s.hello_name cs
shown net s cs (some l) =
    if is_empty (normalize_host net s.hello_name)
    then (cs, ok l)
    else get_certificate s.crypto s.now s.hello_name cs

pub or_name : Str → Str → Str
or_name name other = if is_empty name then other else name

with_prepared :
    {A L : Type 0}
    → Net
    → Session A L
    → Str
    → CertStore A L × Result L CertStore.Error
    → CertStore A L × Intercepted
unfolding shake shown or_name
with_prepared net s fallback (cs, err e) = (cs, unserved (no_certificate e))
with_prepared net s fallback (cs, ok l) =
    shake s (or_name (normalize_host net s.hello_name) fallback) (shown net s cs (some l))

-- mitmTLSProc: the store, and what became of the connection.
pub mitm_tls_proc : {A L : Type 0} → Net → Session A L → Str → CertStore A L × Intercepted
unfolding with_prepared shake shown or_name capture_fails
mitm_tls_proc net s fallback_host =
    let name = normalize_host net fallback_host in
    if capture_fails s.pre_read
    then (s.store, unserved no_peek_buffer)
    else if is_empty name
    then shake s (or_name (normalize_host net s.hello_name) name) (shown net s s.store none)
    else with_prepared net s name (get_certificate s.crypto s.now name s.store)
