-- ===== src/Injection/Examples.antt =====
-- The theorems about the injection of credentials at concrete inputs.
use lhotse_agent.Prelude.{
  List, ◌≡◌, [], ◌∷◌, ◌++◌, here, none, some, false, codes, lookup, insert, str_eq,
}
use lhotse_agent.Prelude.Int.{pos}
use lhotse_agent.Net.{Net}
use lhotse_agent.Remote.{good}
use lhotse_agent.TtlCache.{ok}
use lhotse_agent.TtlCache
use lhotse_agent.RuntimeConfig.{UserSource}
use lhotse_agent.Credential
use lhotse_agent.Identity
use lhotse_agent.Injection.{Request, Agent, user_loop, resolve_user_id, apply_credential_injection}
use lhotse_agent.Injection.Users.{CredentialOf, injection-CredentialOf}

abbrev identity : Identity.World
identity = record {
  post = λ p t. good (record {
    status = 200;
    payload = good (record { user_id = codes "alice"; ttl_seconds = pos 60 });
  });
  digest = λ t. t;
  checked_at = 1;
  stored_at = 2;
}

abbrev request : Request
request = record {
  get_header = λ name. codes "Bearer t";
  identity = λ k. identity;
  identity_uri = codes "http://vault";
}

abbrev sources : List UserSource
sources =
    record {
      kind = codes "oauth2_token";
      header = codes "Authorization";
      prefix = codes "Bearer";
      provider = codes "p";
    }
    ∷ []

abbrev names_only : Net
names_only = record {
  split_host_port = λ s. none;
  join_host_port = λ h p. h ++ (codes ":" ++ p);
  parse_ip = λ s. none;
  parse_cidr = λ s. none;
  ip_equal = λ a b. false;
  contains = λ n a. false;
}

abbrev secret : Credential.Credential
secret = record {
  header_name = codes "Authorization";
  header_prefix = codes "Bearer ";
  value = codes "s";
}

abbrev agent : Agent
agent = record {
  net = names_only;
  vault = record {
    post = λ a h u. good (record { status = 200; payload = good (some secret) });
    checked_at = 1;
    stored_at = 2;
  };
  vault_uri = codes "http://vault";
  agent_id = codes "agent";
}

injection-CredentialOf_example :
    CredentialOf agent
      (codes "api.example")
      request
      (some [])
      []
      []
      (codes "Authorization")
      (codes "Bearer s")
    × ((apply_credential_injection (some agent) (codes "api.example") request (some []) [] []).error
        ≡ none)
unfolding apply_credential_injection resolve_user_id user_loop Credential.resolve TtlCache.resolve
    Credential.call Credential.fetch Credential.fmt_key Credential.to_answer lookup insert str_eq
injection-CredentialOf_example =
    injection-CredentialOf agent (codes "api.example") (codes "Authorization") (codes "Bearer s")
      request (some []) [] [] (here [])
