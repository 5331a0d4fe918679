-- ===== src/CertStore/Examples.antt =====
-- The theorem about the certificate store at a concrete input.
use lhotse_agent.Prelude.{◌≡◌, refl, some, none, [], ◌∷◌, ◌++◌, Str, codes, trim_space, lookup}
use lhotse_agent.Remote.{good}
use lhotse_agent.TtlCache.{ok}
use lhotse_agent.CertStore.{
  Crypto, CertStore, get_certificate, get_uncached, cached, keep, generate, signed, leaf_template,
}
use lhotse_agent.CertStore.Signed.{Op, fetches}

-- A leaf is the authority followed by the domain.
abbrev pub crypto : Crypto Str Str
crypto = record {
  sign = λ ca template. good (ca ++ template.common_name);
  parse_ip = λ s. none;
  not_after = λ l. 0;
  key_pair = λ c k. good c;
  encode_pem = λ c. c;
}

abbrev fetched : Op crypto
fetched =
    fetches
      (λ url. good (record { status = 200; payload = good (codes "ca" ∷ [], codes "key" ∷ []) }))

-- A store with one authority that has given out nothing yet.
abbrev pub fresh_store : CertStore Str Str
fresh_store = record {
  primary = some (codes "ca");
  secondary = none;
  leaf_cache = [];
  vault_uri = [];
}

pub fresh_gives : (get_certificate crypto 5 (codes "a.io") fresh_store).1 ≡ ok (codes "caa.io")
unfolding get_certificate get_uncached cached keep generate signed leaf_template trim_space lookup
fresh_gives = refl
