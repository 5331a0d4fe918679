-- ===== src/Mitm/Serving.antt =====
-- Where an intercepted request is sent on to in cmd/proxy/outbound.go.
use lhotse_agent.Prelude.{
  Bool, true, [], ◌∷◌, ◌∙◌, lookup-All, insert-All, All, arith, ◌≡◌, refl, subst, inl, inr, false,
  not, ◌&&◌, List, Option, none, some, Str, codes, str_eq, str_eq_sound, is_empty, lookup,
  Bool-cases, Option-cases,
}
use lhotse_agent.RuntimeConfig.{normalize_host}
use lhotse_agent.Injection.{Injected, InjectionError}
use lhotse_agent.Mitm.{
  Forwarding, set_all, certificate_name, round_trip, Handler, Forward, forwards, target_host,
  serve_injected, serve_http, Transport, Transports, transport,
}

-- Every transport of the cache has the name that it is kept under.
abbrev pub IsNamed : Str × Transport → Type 0
IsNamed e = e.1.tls_server_name ≡ e.0

abbrev pub AllNamed : List (Str × Transport) → Type 0
AllNamed = All IsNamed

-- From a cache whose transports have the names that they are kept under, the transport of a server
-- name has that name in its TLS configuration, and the cache stays so.
pub transport-AllNamed :
    (name : Str) (c : Transports)
    → AllNamed c.by_name
    → ((transport name c).1.tls_server_name ≡ name) × AllNamed (transport name c).0.by_name
unfolding transport
transport-AllNamed name c a = elim (Option-cases (lookup name c.by_name)) [
  | inl missing ↦
      rw (missing, transport)
        (
          refl,
          insert-All IsNamed name (record { number = c.made; tls_server_name = name }) c.by_name
              refl a,
        )
  | inr (t, found) ↦ rw (found, transport) (lookup-All IsNamed name c.by_name t a found, a)
]

-- What net/http and httputil document: Set gives the value that Get finds; ReverseProxy keeps a header
-- that is neither for one hop nor names forwarders, and SetXForwarded one that names none.
pub record Documented (lib : Forwarding) : Type 0 where
  pub removes : Str → List (Str × Str) → Bool
  pub names_forwarder : Str → Bool
  pub get-set :
      (name value : Str) (hs : List (Str × Str)) → lib.get name (lib.set name value hs) ≡ value
  pub get-outgoing :
      (name : Str) (hs : List (Str × Str))
      → removes name hs ≡ false
      → lib.get name (lib.outgoing hs) ≡ lib.get name hs
  pub get-set_x_forwarded :
      (name host : Str) (hs : List (Str × Str))
      → names_forwarder name ≡ false
      → lib.get name (lib.set_x_forwarded host hs) ≡ lib.get name hs

-- A request that is sent on.
pub record SentOn (h : Handler) (d : Documented h.lib) (host : Str) (headers : List (Str × Str))
    (inject : Str → Injected) (f : Forward) : Type 0 where
  pub to_destination : f.url_host ≡ h.dst_host
  pub over_tls : f.scheme ≡ codes "https"
  pub same_host : f.host ≡ host
  pub host_named : is_empty h.server_name ≡ false → f.checked_name ≡ h.server_name
  pub checked : is_empty (target_host h host) ≡ false → f.checked_name ≡ target_host h host
  pub unnamed : is_empty (target_host h host) ≡ true → f.checked_name ≡ h.lib.tls_host h.dst_host
  pub injected : (inject (target_host h host)).error ≡ none
  pub credential_sent :
      (name value : Str)
      → (inject (target_host h host)).set_headers ≡ (name, value) ∷ []
      → d.removes name (h.lib.set name value headers) ≡ false
      → d.names_forwarder name ≡ false
      → h.lib.get name f.headers ≡ value
  pub nothing_set :
      (name : Str)
      → (inject (target_host h host)).set_headers ≡ []
      → d.removes name headers ≡ false
      → d.names_forwarder name ≡ false
      → h.lib.get name f.headers ≡ h.lib.get name headers

target_named :
    (h : Handler) (host : Str)
    → is_empty h.server_name ≡ false
    → is_empty (target_host h host) ≡ false
unfolding target_host
target_named h host named = elim (Bool-cases (is_empty (normalize_host h.net host))) [
  | inl unnamed ↦ rw (unnamed, target_host) named
  | inr filled ↦ rw (filled, target_host) filled
]

module _ (h : Handler) (d : Documented h.lib) (host : Str) (headers : List (Str × Str))
    (inject : Str → Injected) where
  -- A header behind Rewrite.
  sent_header :
      (name value : Str) (hs : List (Str × Str))
      → d.removes name hs ≡ false
      → d.names_forwarder name ≡ false
      → h.lib.get name hs ≡ value
      → h.lib.get name (h.lib.set_x_forwarded host (h.lib.outgoing hs)) ≡ value
  sent_header name value hs kept plain v =
      d.get-set_x_forwarded name host (h.lib.outgoing hs) plain ∙ d.get-outgoing name hs kept ∙ v

  round_trip-SentOn :
      (t : Transport)
      → t.tls_server_name ≡ target_host h host
      → (is_empty h.server_name ≡ false → target_host h host ≡ h.server_name)
      → (inject (target_host h host)).error ≡ none
      → SentOn h d host headers inject
          (round_trip h host (set_all h.lib (inject (target_host h host)).set_headers headers) t)
  unfolding round_trip certificate_name set_all
  round_trip-SentOn t named same i = record {
    to_destination = refl;
    over_tls = refl;
    same_host = refl;
    host_named = λ n. checks (target_named h host n) ∙ same n;
    checked = checks;
    unnamed = λ e. rw (named, e) refl;
    injected = i;
    credential_sent = λ name value only kept plain. rw only (
        sent_header name value (h.lib.set name value headers) kept plain
          (d.get-set name value headers));
    nothing_set = λ name only kept plain.
        rw only (sent_header name (h.lib.get name headers) headers kept plain refl);
  }
    where
      checks :
          is_empty (target_host h host) ≡ false
          → certificate_name h.lib h.dst_host t.tls_server_name ≡ target_host h host
      checks e = rw (named, e) refl

  serve_injected-SentOn :
      (c : Transports) (e : Option InjectionError) (f : Forward)
      → AllNamed c.by_name
      → (inject (target_host h host)).error ≡ e
      → (is_empty h.server_name ≡ false → target_host h host ≡ h.server_name)
      → (serve_injected h c host
          (target_host h host)
          (set_all h.lib (inject (target_host h host)).set_headers headers)
          e).1
        ≡ forwards f
      → SentOn h d host headers inject f
  unfolding serve_injected
  serve_injected-SentOn c (some e) f a i n s = absurd (let clash = s in cc)
  serve_injected-SentOn c none f a i n s =
      subst (SentOn h d host headers inject) (forwards_same _ f s) (
        round_trip-SentOn (transport (target_host h host) c).1
          (transport-AllNamed (target_host h host) c a).0 n i)
    where
      forwards_same : (p q : Forward) → forwards p ≡ forwards q → p ≡ q
      forwards_same p q g = cc

  -- With transports that have the names they are kept under, an intercepted request that is sent on
  -- goes over TLS to the original destination, with the Host that it had. The certificate of the
  -- destination is checked for the normalized Host, or for the client's server name where the Host is
  -- empty, or, where both are, for the name that the transport takes from the destination; where the
  -- client gave a server name it is that name. The injection for that host did not fail; a credential
  -- that it set reaches the destination, and where it set none a header of the client does, unless
  -- the header is for one hop or names forwarders.
  pub serve_http-SentOn :
      (c : Transports) (f : Forward)
      → AllNamed c.by_name
      → (serve_http h c host headers inject).1 ≡ forwards f
      → SentOn h d host headers inject f
  unfolding serve_http
  serve_http-SentOn c f a s =
      let target = target_host h host in
      elim (Bool-cases (
        not (is_empty h.server_name)
        && not (is_empty target)
        && not (str_eq target h.server_name))) [
          | inl mismatch ↦ absurd (let clash = rw mismatch at s in cc)
          | inr match ↦
              serve_injected-SentOn c (inject target).error f a refl
                (λ named.
                  str_eq_sound target h.server_name
                    (let filled = target_named h host named in ground arith))
                (let go = rw match at s in go)
        ]

-- Serving a request keeps the transports under their names.
pub serve_http-AllNamed :
    (h : Handler) (c : Transports) (host : Str) (headers : List (Str × Str))
    (inject : Str → Injected)
    → AllNamed c.by_name
    → AllNamed (serve_http h c host headers inject).0.by_name
unfolding serve_http serve_injected
serve_http-AllNamed h c host headers inject a =
    let kept = (transport-AllNamed (target_host h host) c a).1 in ground (arith, a, kept)
