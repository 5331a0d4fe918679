-- ===== src/Injection/Tokens.antt =====
-- What trimTokenPrefix of cmd/proxy/credentials.go accepts.
use lhotse_agent.Prelude.{
  take-drop, inl, inr, ℕ, suc, zero, ◌≡◌, refl, sym, ap, ◌∙◌, true, false, [], ◌∷◌, ◌++◌, length,
  take, drop, Str, is_empty, trim_space, to_lower, lower_byte, has_prefix, has_prefix_sound,
  take-length_append, Bool-cases,
}
use lhotse_agent.TtlCache.{ok}
use lhotse_agent.Injection.{trim_token_prefix}

to_lower-take : (n : ℕ) (s : Str) → to_lower (take n s) ≡ take n (to_lower s)
unfolding to_lower
to_lower-take zero s = refl
to_lower-take (suc n) [] = refl
to_lower-take (suc n) (c ∷ s) = ap (◌∷◌ (lower_byte c)) (to_lower-take n s)

length-to_lower : (s : Str) → length (to_lower s) ≡ length s
unfolding to_lower
length-to_lower [] = refl
length-to_lower (c ∷ s) = ap suc (length-to_lower s)

-- A value that begins with a prefix, but for the case of letters, has a piece that equals it.
lead_of :
    (value prefix : Str)
    → has_prefix (to_lower value) (to_lower prefix) ≡ true
    → to_lower (take (length prefix) value) ≡ to_lower prefix
lead_of value prefix h =
    let (r, e) = has_prefix_sound (to_lower value) (to_lower prefix) h in
    to_lower-take (length prefix) value
    ∙ ap (λ (n : ℕ). take n (to_lower value)) (sym (length-to_lower prefix))
    ∙ ap (take (length (to_lower prefix))) e
    ∙ take-length_append (to_lower prefix) r

-- The value is a piece that equals the prefix but for the case of letters, and the token with spaces
-- around it.
pub record Splits (raw prefix token : Str) : Type 0 where
  pub lead : Str
  pub rest : Str
  pub parts : trim_space raw ≡ lead ++ rest
  pub matches : to_lower lead ≡ to_lower (trim_space prefix)
  pub trimmed : token ≡ trim_space rest
  pub not_empty : is_empty token ≡ false

-- With a prefix given, a header's value gives a token only where it begins with the trimmed prefix,
-- in any case of letters, and the token is what follows without the spaces around it, never empty.
pub trim_token_prefix-Splits :
    (raw prefix token : Str)
    → is_empty prefix ≡ false
    → trim_token_prefix raw prefix ≡ ok token
    → Splits raw prefix token
unfolding trim_token_prefix
trim_token_prefix-Splits raw prefix token given h =
    elim (Bool-cases (has_prefix (to_lower (trim_space raw)) (to_lower (trim_space prefix)))) [
      | inr other ↦ absurd (let clash = rw (given, other) at h in cc)
      | inl begins ↦
          let rest = drop (length (trim_space prefix)) (trim_space raw) in
          elim (Bool-cases (is_empty (trim_space rest))) [
            | inl empty ↦ absurd (let clash = rw (given, begins, empty) at h in cc)
            | inr full ↦
                let same : trim_space rest ≡ token = cc (rw (given, begins, full) at h) in
                record {
                  lead = take (length (trim_space prefix)) (trim_space raw);
                  rest = rest;
                  parts = take-drop (length (trim_space prefix)) (trim_space raw);
                  matches = lead_of (trim_space raw) (trim_space prefix) begins;
                  trimmed = sym same;
                  not_empty = ap is_empty (sym same) ∙ full;
                }
          ]
    ]
