-- ===== src/Dispatch/Prefixes.antt =====
-- Which methods the servers of cmd/proxy/outbound.go and inbound.go know by five bytes.
use lhotse_agent.Prelude.{
  ◌<◌, ◌≡◌, refl, Bool, true, false, ◌||◌, [], ◌∷◌, length, arith, Str, codes, has_prefix,
}
use lhotse_agent.Interception.{is_http_request_prefix}
use lhotse_agent.Dispatch.{inbound_prefix}

-- A longer text is no prefix.
has_prefix_longer : (s p : Str) → length s < length p → has_prefix s p ≡ false
unfolding has_prefix
has_prefix_longer s [] h = absurd (omega (arith, h))
has_prefix_longer [] (b ∷ p) h = refl
has_prefix_longer (a ∷ s) (b ∷ p) h = ground (arith, has_prefix_longer s p)

or_false : (b : Bool) → b || false ≡ b
or_false true = refl
or_false false = refl

-- On the five bytes that both servers look at, the outbound one knows a request by GET, POST, HEAD,
-- PUT or PATCH alone, and the inbound one by GET, POST, HEAD or PUT alone.
pub prefixes_of_five :
    (s : Str)
    → length s ≡ 5
    → (is_http_request_prefix s ≡ (
        has_prefix s (codes "GET")
        || has_prefix s (codes "POST")
        || has_prefix s (codes "HEAD")
        || has_prefix s (codes "PUT")
        || has_prefix s (codes "PATCH")))
      × (inbound_prefix s ≡ (
          has_prefix s (codes "GET")
          || has_prefix s (codes "POST")
          || has_prefix s (codes "HEAD")
          || has_prefix s (codes "PUT")))
unfolding is_http_request_prefix inbound_prefix
prefixes_of_five s five =
    let connect = has_prefix_longer s (codes "CONNECT") (omega (arith, five)) in
    let options = has_prefix_longer s (codes "OPTIONS") (omega (arith, five)) in
    let del = has_prefix_longer s (codes "DELETE") (omega (arith, five)) in
    (
      rw (connect, options, del, or_false) (ground arith),
      rw (connect, options, del, or_false) (ground arith),
    )
