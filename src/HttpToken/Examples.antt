-- ===== src/HttpToken/Examples.antt =====
-- The search for a token at concrete inputs.
use lhotse_agent.Prelude.{◌≡◌, refl, ◌↔◌, true, none, codes, lower_byte}
use lhotse_agent.HttpToken.{has_token}
use lhotse_agent.HttpToken.Search.{Stands, token, has_token_iff}

-- "keep-alive, Upgrade" has the token "upgrade".
has_token_iff_example :
    (has_token (codes "keep-alive, Upgrade") (codes "upgrade") ≡ true)
    ↔ Stands none (codes "keep-alive, Upgrade") (codes "upgrade")
unfolding lower_byte
has_token_iff_example =
    has_token_iff (codes "keep-alive, Upgrade") (codes "upgrade") (token 117 (codes "pgrade") refl)
