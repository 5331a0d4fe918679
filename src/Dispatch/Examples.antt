-- ===== src/Dispatch/Examples.antt =====
-- The theorems about the first bytes of a connection at concrete inputs.
use lhotse_agent.Prelude.{◌≡◌, refl, ◌||◌, true, [], none, some, codes, has_prefix}
use lhotse_agent.ClientHello.{Sniff}
use lhotse_agent.DomainPolicy.{direction_inbound, direction_outbound}
use lhotse_agent.Enforcement.Examples.{names_only, manager}
use lhotse_agent.Interception.{is_http_request_prefix, mitm_tls_proc}
use lhotse_agent.Interception.Examples.{session}
use lhotse_agent.Dispatch.{Server, inbound_prefix, outbound_round, inbound_round}
use lhotse_agent.Dispatch.Prefixes.{prefixes_of_five}
use lhotse_agent.Dispatch.Judged.{Clears, round-Clears}

prefixes_of_five_example :
    (is_http_request_prefix (codes "CONNE") ≡ (
      has_prefix (codes "CONNE") (codes "GET")
      || has_prefix (codes "CONNE") (codes "POST")
      || has_prefix (codes "CONNE") (codes "HEAD")
      || has_prefix (codes "CONNE") (codes "PUT")
      || has_prefix (codes "CONNE") (codes "PATCH")))
    × (inbound_prefix (codes "CONNE") ≡ (
        has_prefix (codes "CONNE") (codes "GET")
        || has_prefix (codes "CONNE") (codes "POST")
        || has_prefix (codes "CONNE") (codes "HEAD")
        || has_prefix (codes "CONNE") (codes "PUT")))
prefixes_of_five_example = prefixes_of_five (codes "CONNE") refl

abbrev server : Server
server = record {
  net = names_only;
  itoa = λ n. [];
  mitm_enabled = true;
  has_store = true;
  runtime = none;
  policy = some manager;
}

abbrev sniff : Sniff
sniff = record { server_name = codes "a.io"; is_tls = true; error = none }

round-Clears_example :
    Clears server
      (mitm_tls_proc names_only session (codes "a.io")).1
      direction_outbound
      sniff
      (outbound_round server session (some (codes "12345")) sniff (codes "1:1"))
    × Clears server
        (mitm_tls_proc names_only session (codes "a.io")).1
        direction_inbound
        sniff
        (inbound_round server (some (codes "12345")) sniff (codes "1:1"))
round-Clears_example = round-Clears server session (some (codes "12345")) sniff (codes "1:1")
