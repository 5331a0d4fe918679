-- ===== src/Interception/Protocol.antt =====
-- How detectMITMProtocol of cmd/proxy/outbound.go tells the protocol of an intercepted connection.
use lhotse_agent.Prelude.{
  if◌then◌else◌, ℕ, suc, zero, ◌≡◌, refl, sym, ap, ◌∙◌, ◌↔◌, inl, inr, Bool, true, false, [], ◌∷◌,
  none, some, length, arith, Str, codes, str_eq, str_eq_sound, take, leb, Bool-cases,
}
use lhotse_agent.Interception.{
  MitmProtocol, http1, http2, generic_tls, by_bytes, by_peek, http2_client_preface,
  detect_mitm_protocol,
}

take_all : (n : ℕ) (s : Str) → length s ≡ n → take n s ≡ s
take_all zero [] h = refl
take_all zero (c ∷ s) h = absurd (omega (arith, h))
take_all (suc n) [] h = refl
take_all (suc n) (c ∷ s) h = ap (◌∷◌ c) (take_all n s (omega (arith, h)))

not_http2 : (b : Bool) → (if b then http1 else generic_tls) ≡ http2 → ⊥
not_http2 true h = cc
not_http2 false h = cc

by_bytes-http2 :
    (s : Str)
    → length s ≡ length http2_client_preface
    → (by_bytes s ≡ http2) ↔ (s ≡ http2_client_preface)
unfolding by_bytes str_eq
by_bytes-http2 [] h = absurd (omega (arith, h))
by_bytes-http2 (b ∷ s) h = (sound, complete)
  where
    whole : take (length http2_client_preface) (b ∷ s) ≡ b ∷ s
    whole = take_all (length http2_client_preface) (b ∷ s) h

    long : leb (length http2_client_preface) (length (b ∷ s)) ≡ true
    long = ground (arith, h)

    sound : by_bytes (b ∷ s) ≡ http2 → b ∷ s ≡ http2_client_preface
    sound e =
        elim (Bool-cases
          (str_eq (take (length http2_client_preface) (b ∷ s)) http2_client_preface)) [
            | inl same ↦
                sym whole
                ∙ str_eq_sound (take (length http2_client_preface) (b ∷ s)) http2_client_preface
                    same
            | inr other ↦ absurd (not_http2 _ (let rest = rw (long, other) at e in rest))
          ]

    complete : b ∷ s ≡ http2_client_preface → by_bytes (b ∷ s) ≡ http2
    complete e = ap by_bytes e

-- A connection for which no protocol was negotiated and whose first bytes, as many as the HTTP/2
-- preface has, could be read is taken for HTTP/2 exactly when they are the preface.
pub detect_mitm_protocol-http2 :
    (negotiated s : Str)
    → str_eq negotiated (codes "h2") ≡ false
    → str_eq negotiated (codes "http/1.1") ≡ false
    → length s ≡ length http2_client_preface
    → (detect_mitm_protocol negotiated s none ≡ some http2) ↔ (s ≡ http2_client_preface)
unfolding detect_mitm_protocol by_peek
detect_mitm_protocol-http2 negotiated s a b h =
    rw (a, b)
      (
        (λ e. (by_bytes-http2 s h).0 (some_same (by_bytes s) http2 e)),
        (λ e. ap some ((by_bytes-http2 s h).1 e)),
      )
  where
    some_same : (p q : MitmProtocol) → some p ≡ some q → p ≡ q
    some_same p q g = cc
