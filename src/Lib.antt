-- ===== src/Lib.antt =====
-- A model of lhotse-agent, a sidecar proxy that captures the traffic of a workload, applies a domain
-- policy to it and adds credentials to requests, with the theorems about its core.
--
-- Parts and files (paths from the repository's root):
-- - ClientHello: pkg/protocol/tls/client_hello.go. The proxy peeks at the first TLS record of a
--   connection for the server name. Bytes are numbers; an index or slice expression that Go would
--   refuse at run time is the outcome `panic`, an exhausted loop is `stuck`.
-- - Pool: pkg/pool/pool.go. Connections to upstream hosts wait in a channel; each method is a step.
-- - DomainPolicy, DomainPolicy/Manager: cmd/proxy/domainpolicy/policy.go and manager.go. The
--   manager fetches a document, compiles it to a policy, caches it on disk and evaluates connections.
-- - RuntimeConfig, RuntimeConfig/Refresh: cmd/proxy/runtimeconfig/manager.go. Its manager fetches and caches the document that
--   tells for which hosts TLS is intercepted and where a request names its user.
-- - TtlCache, Credential, Identity: pkg/credential and pkg/identity. Two clients of the vault, each with
--   a cache whose entries expire; their common part is TtlCache.
-- - Injection: cmd/proxy/credentials.go. It asks Identity for the user whom the headers of a request
--   name, by the sources of RuntimeConfig, and Credential for the header to add. normalizeHost has the
--   body of the one in runtimeconfig, and is the same definition.
-- - HttpRequest: pkg/protocol/http/request.go. Reading the head of a request.
-- - Enforcement: cmd/proxy/domain_policy.go and inbound_target.go. It joins ClientHello and
--   DomainPolicy: raw traffic is judged by the server name of its ClientHello.
-- - Balancer: cmd/config, the round robin, weighted round robin and random load balancers.
-- - HttpResponse and HttpToken: pkg/protocol/http/response.go, header.go and internal/ascii/print.go.
--   Reading the head of a response, and the search for a token in the value of a header.
-- - HttpBody and HttpProxy: cmd/proxy/http.go. HttpBody relays the body of a message; HttpProxy is one
--   exchange, from the head of the request to the end of the response, over what both sides send.
-- - Routing, Routing/Maps, Routing/Maps/Loading: cmd/proxy/data/config.go and cmd/config/config.go. The
--   criteria of a route, the tables with the choice of an endpoint, and the loading of the tables.
-- - HttpProc: HttpProc and HttpProc2 of cmd/proxy/http.go. It joins HttpRequest, Enforcement, Routing,
--   Injection and HttpProxy: one request of a connection, with the tables and caches it changes.
-- - Dispatch: cmd/proxy/outbound.go and inbound.go, what a connection is taken for by its first bytes.
-- - Interception: cmd/proxy/outbound.go, mitmTLSProc with its certificates and protocols. Dispatch calls
--   it, and falls back to copying where it fails.
-- - Mitm: cmd/proxy/outbound.go, the handler of intercepted requests, its transports and its listener.
-- - CertStore: pkg/tls/mitm/ca.go and parts of cmd/proxy/server.go, the certificates for interception.
-- - Udp: cmd/proxy/udp.go. The tables of sessions and of reply sockets, and their sockets.
-- - Net and Remote hold what these parts call: package net, the HTTP client and the file system,
--   as parameters. Prelude holds the shared helpers: bytes, strings, association lists, integers.
--
-- Function names are the source's in snake_case: ParseClientHelloServerName is
-- parse_client_hello_server_name. A method takes its receiver's state and returns the new one.
--
-- Fuel: the loops of the parser take one more step than the bytes that they read; each round
-- consumes at least three bytes, so the fuel never runs out, which is proved. So do the loops over
-- chunks and trailer lines, each round of which consumes a line. All other loops are structural.
--
-- Strings are their bytes. ToLower and TrimSpace are modelled on ASCII; letters and spaces outside
-- it are left alone.
--
-- Not modelled: concurrency between two locks of one method, socket I/O and deadlines, TLS
-- handshakes and HTTP servers beyond what they answer, logging, command-line flags and the HTTP
-- status handlers, which are I/O; and the iptables tool, the string set and the logging library,
-- which are copies of another project's.

pub mod Balancer
pub mod CertStore
pub mod ClientHello
pub mod Credential
pub mod Dispatch
pub mod DomainPolicy
pub mod Enforcement
pub mod HttpBody
pub mod HttpProc
pub mod HttpProxy
pub mod HttpRequest
pub mod HttpResponse
pub mod HttpToken
pub mod Identity
pub mod Injection
pub mod Interception
pub mod Mitm
pub mod Net
pub mod Pool
pub mod Prelude
pub mod Remote
pub mod Routing
pub mod RuntimeConfig
pub mod TtlCache
pub mod Udp
