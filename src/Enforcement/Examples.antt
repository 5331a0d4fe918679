-- ===== src/Enforcement/Examples.antt =====
-- The theorems about the enforcement of the domain policy at concrete inputs.
use lhotse_agent.Prelude.{ℕ, ◌≡◌, refl, true, false, [], ◌∷◌, ◌++◌, none, some, codes, Str, arith}
use lhotse_agent.Prelude.Int.{pos}
use lhotse_agent.Net.{Net}
use lhotse_agent.ClientHello.Wire.{
  handshake, hello_body, extension_block, server_name_extension, name_list,
}
use lhotse_agent.ClientHello.Examples.{example, example-IsWellFormed, reader}
use lhotse_agent.DomainPolicy.Manager.{Manager, manager_evaluate}
use lhotse_agent.Enforcement.{enforce_raw_domain_policy}
use lhotse_agent.Enforcement.Sniffed.{refusal, passage, enforce_raw-encode_record}

abbrev pub names_only : Net
names_only = record {
  split_host_port = λ s. none;
  join_host_port = λ h p. h ++ (codes ":" ++ p);
  parse_ip = λ s. none;
  parse_cidr = λ s. none;
  ip_equal = λ a b. false;
  contains = λ n a. false;
}

abbrev one_digit : ℕ → Str
one_digit n = 48 ∷ []

-- A manager that refuses what its allow list does not name.
abbrev pub manager : Manager
manager = record {
  options = record {
    url = codes "http://policy";
    cache_file = [];
    refresh_interval = pos 0;
    fetch_timeout = pos 0;
    scope = codes "outbound";
    app_name = codes "app";
    instance_ip = codes "10.0.0.1";
  };
  policy = some (
      (
        codes "outbound",
        record {
          mode = codes "default_deny";
          allow = record { domains = []; wildcard_domains = []; ips = []; nets = [] };
          block = record { domains = []; wildcard_domains = []; ips = []; nets = [] };
        },
      )
      ∷ []);
  source = [];
  last_refresh = none;
  last_error = none;
  stopped = false;
}

enforce_raw-encode_record_example :
    ((manager_evaluate names_only manager (codes "outbound") (codes "a.io") []).allowed ≡ false
      → enforce_raw_domain_policy one_digit names_only
          (some manager)
          (codes "outbound")
          true
          reader
          []
        ≡ refusal one_digit true
            (manager_evaluate names_only manager (codes "outbound") (codes "a.io") []).reason)
    × ((manager_evaluate names_only manager (codes "outbound") (codes "a.io") []).allowed ≡ true
        → enforce_raw_domain_policy one_digit names_only
            (some manager)
            (codes "outbound")
            true
            reader
            []
          ≡ passage)
unfolding reader handshake hello_body extension_block server_name_extension name_list
enforce_raw-encode_record_example =
    enforce_raw-encode_record one_digit names_only manager (codes "outbound") [] true reader example
      [] example-IsWellFormed (omega arith) (λ n _ _. refl)
