-- ===== src/Mitm.antt =====
-- cmd/proxy/outbound.go: what serves an intercepted connection, behind its handshake. `inject` is
-- applyCredentialInjection for a host and the request's headers.
pub mod Accepting
pub mod Serving
pub mod Examples
use lhotse_agent.Prelude.{
  ℕ, suc, Bool, true, false, not, ◌&&◌, List, [], ◌∷◌, Option, none, some, if◌then◌else◌, Str,
  codes, str_eq, is_empty, lookup, insert, trim_space,
}
use lhotse_agent.Net.{Net}
use lhotse_agent.Remote.{Fallible, good, bad}
use lhotse_agent.RuntimeConfig.{normalize_host}
use lhotse_agent.Injection.{Injected, InjectionError}

-- What the handler takes of net/http and httputil: Header.Get and Header.Set; what ReverseProxy makes
-- of a request's headers before Rewrite, where it removes those that are meant for one hop or name
-- forwarders; SetXForwarded for a Host of the request; and the name that a transport without a
-- ServerName checks a certificate for, from the host of the URL.
pub record Forwarding : Type 0 where
  pub get : Str → List (Str × Str) → Str
  pub set : Str → Str → List (Str × Str) → List (Str × Str)
  pub outgoing : List (Str × Str) → List (Str × Str)
  pub set_x_forwarded : Str → List (Str × Str) → List (Str × Str)
  pub tls_host : Str → Str

-- The parts of a mitmHandler that are fixed.
pub record Handler : Type 0 where
  pub net : Net
  pub lib : Forwarding
  pub dst_host : Str
  pub server_name : Str

-- A transport: its number in the order of creation, and the ServerName of its TLS configuration.
pub record Transport : Type 0 where
  pub number : ℕ
  pub tls_server_name : Str

-- mitmTransportCache, with the number of transports that it has made.
pub record Transports : Type 0 where
  pub made : ℕ
  pub by_name : List (Str × Transport)

pub new_transports : Transports
new_transports = record { made = 0; by_name = [] }

-- Transport: the cache and the transport.
pub transport : Str → Transports → Transports × Transport
transport name c = elim (lookup name c.by_name) [
  | some t ↦ (c, t)
  | none ↦
      let t : Transport = record { number = c.made; tls_server_name = name } in
      (record { made = suc c.made; by_name = insert name t c.by_name }, t)
]

-- A request as Rewrite leaves it and RoundTrip sends it: its URL, its Host, its headers, the transport,
-- and the name that the certificate of the destination is checked for.
pub record Forward : Type 0 where
  pub scheme : Str
  pub url_host : Str
  pub host : Str
  pub headers : List (Str × Str)
  pub via : Transport
  pub checked_name : Str

pub data Served : Type 0 where
  misdirected : Served
  bad_gateway : InjectionError → Served
  forwards : Forward → Served

-- targetHost of ServeHTTP.
pub target_host : Handler → Str → Str
target_host h host =
    let named = normalize_host h.net host in if is_empty named then h.server_name else named

-- The headers that an injection sets, set on those of the request.
set_all : Forwarding → List (Str × Str) → List (Str × Str) → List (Str × Str)
set_all lib [] headers = headers
set_all lib ((name, value) ∷ more) headers = set_all lib more (lib.set name value headers)

certificate_name : Forwarding → Str → Str → Str
certificate_name lib url_host name = if is_empty name then lib.tls_host url_host else name

-- Rewrite and RoundTrip.
round_trip : Handler → Str → List (Str × Str) → Transport → Forward
unfolding certificate_name
round_trip h host headers t = record {
  scheme = codes "https";
  url_host = h.dst_host;
  host = host;
  headers = h.lib.set_x_forwarded host (h.lib.outgoing headers);
  via = t;
  checked_name = certificate_name h.lib h.dst_host t.tls_server_name;
}

serve_injected :
    Handler
    → Transports
    → Str
    → Str
    → List (Str × Str)
    → Option InjectionError
    → Transports × Served
unfolding round_trip transport
serve_injected h c host target headers (some e) = (c, bad_gateway e)
serve_injected h c host target headers none =
    let t = transport target c in (t.0, forwards (round_trip h host headers t.1))

-- ServeHTTP, for a request with a Host and headers: the transports, and what becomes of it.
pub serve_http :
    Handler → Transports → Str → List (Str × Str) → (Str → Injected) → Transports × Served
unfolding serve_injected target_host set_all
serve_http h c host headers inject =
    let target = target_host h host in
    if not (is_empty h.server_name) && not (is_empty target) && not (str_eq target h.server_name)
    then (c, misdirected)
    else serve_injected h c host target (set_all h.lib (inject target).set_headers headers)
        (inject target).error

-- singleConnListener: `used`, and whether `done` is closed.
pub record Listener : Type 0 where
  pub used : Bool
  pub done : Bool

unfoldable pub new_listener : Listener
new_listener = record { used = false; done = false }

-- What the server does with the listener, and what comes of it: Accept gives the connection or
-- net.ErrClosed, and the listener or the connection is closed.
pub data Event : Type 0 where
  accepts refuses closes : Event

-- A used listener that is not closed makes Accept wait: there is no step for it.
pub data Step : Listener → Event → Listener → Type 0 where
  accept :
      (done : Bool)
      → Step (record { used = false; done = done }) accepts (record { used = true; done = done })
  accept_closed :
      Step (record { used = true; done = true }) refuses (record { used = true; done = true })
  close : (l : Listener) → Step l closes (record l { done = true })

pub data Run : Listener → List Event → Listener → Type 0 where
  rest : (l : Listener) → Run l [] l
  followed :
      {l m n : Listener} {e : Event} {es : List Event} → Step l e m → Run m es n → Run l (e ∷ es) n

-- loadMITMUpstreamRootCAs. `read_file` is os.ReadFile, `env` the value of SSL_CERT_FILE, `system` is
-- x509.SystemCertPool and `append` AppendCertsFromPEM, which gives nothing if it finds no certificate.
pub data RootsError : Type 0 where
  unreadable empty_file no_system_pool no_certificates : RootsError

pub data Roots (A : Type 0) : Type 0 where
  roots : Option A → Roots A
  no_roots : RootsError → Roots A

pub record RootsWorld (A : Type 0) : Type 0 where
  pub env : Str
  pub read_file : Str → Fallible Str
  pub system : Fallible (Option A)
  pub new_pool : A
  pub append : A → Str → Option A

or_new : {A : Type 0} → A → Option A → A
or_new fresh none = fresh
or_new fresh (some a) = a

with_system : {A : Type 0} → RootsWorld A → Str → Fallible (Option A) → Roots A
unfolding or_new
with_system w pem (bad e) = no_roots no_system_pool
with_system w pem (good pool) = elim (w.append (or_new w.new_pool pool) pem) [
  | none ↦ no_roots no_certificates
  | some a ↦ roots (some a)
]

read_roots : {A : Type 0} → RootsWorld A → Fallible Str → Roots A
unfolding with_system
read_roots w (bad e) = no_roots unreadable
read_roots w (good pem) =
    if is_empty (trim_space pem) then no_roots empty_file else with_system w pem w.system

-- The argument is the file of the configuration, or none if there is no configuration.
pub load_mitm_upstream_root_cas : {A : Type 0} → RootsWorld A → Option Str → Roots A
unfolding read_roots
load_mitm_upstream_root_cas w none = roots none
load_mitm_upstream_root_cas w (some file) =
    let configured = trim_space file in
    let path = if is_empty configured then trim_space w.env else configured in
    if is_empty path then roots none else read_roots w (w.read_file path)
