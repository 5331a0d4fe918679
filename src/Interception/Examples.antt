-- ===== src/Interception/Examples.antt =====
-- The theorem about an interception at a concrete input.
use lhotse_agent.Prelude.{
  ◌≡◌, refl, false, [], none, some, Str, codes, trim_space, str_eq, to_lower, trim_suffix,
}
use lhotse_agent.RuntimeConfig.{normalize_host}
use lhotse_agent.Enforcement.Examples.{names_only}
use lhotse_agent.CertStore.Examples.{crypto, fresh_store, fresh_gives}
use lhotse_agent.Interception.{
  Session, http1, served, listener_closed, mitm_tls_proc, shown, shake, shaken, serve_protocol,
  detect_mitm_protocol, end_of_serve, capture_fails, or_name,
}
use lhotse_agent.Interception.Shown.{Serves, mitm_tls_proc-Serves}

-- A client that gives a name and agrees on HTTP/1.1, where no name was sniffed.
abbrev pub session : Session Str Str
session = record {
  crypto = crypto;
  now = 5;
  store = fresh_store;
  pre_read = (codes "12345", false);
  hello_name = codes "a.io";
  handshake = λ l. some (codes "http/1.1");
  peek = [];
  peek_failure = none;
  plain_pre_read = ([], false);
  serve_end = listener_closed;
  dials = false;
  upstream_handshake = λ name. false;
  copies = false;
}

serves : (mitm_tls_proc names_only session []).1 ≡ served http1 (codes "a.io")
unfolding mitm_tls_proc shown shake shaken serve_protocol detect_mitm_protocol end_of_serve to_lower
    trim_suffix capture_fails or_name normalize_host trim_space str_eq
serves = rw fresh_gives refl

mitm_tls_proc-Serves_example : Serves names_only session [] http1 (codes "a.io")
mitm_tls_proc-Serves_example =
    mitm_tls_proc-Serves names_only session [] http1 (codes "a.io") _ serves
