-- ===== src/Prelude/Affix.antt =====
-- strings.HasPrefix and strings.HasSuffix against concatenation.
use mathlib.Core.Path.{◌≡◌, refl, sym, ap, ◌∙◌}
use mathlib.Core.Bool.{true}
use mathlib.Core.List.{[], ◌∷◌, ◌++◌, reverse, reverse-append, reverse-reverse}
use native.Mathlib.Omega.{arith}
use lhotse_agent.Prelude.Text.{Str, has_prefix, has_suffix}

pub has_prefix_sound : (s p : Str) → has_prefix s p ≡ true → (r : Str) × (s ≡ p ++ r)
unfolding has_prefix
has_prefix_sound s [] h = (s, refl)
has_prefix_sound [] (p ∷ ps) h = cc
has_prefix_sound (c ∷ s) (p ∷ ps) h =
    let (r, e) = has_prefix_sound s ps (ground arith) in let same : c ≡ p = ground arith in (r, cc)

pub has_prefix-append : (p r : Str) → has_prefix (p ++ r) p ≡ true
unfolding has_prefix
has_prefix-append [] r = refl
has_prefix-append (c ∷ p) r = ground (arith, has_prefix-append p r)

pub has_suffix_sound : (s p : Str) → has_suffix s p ≡ true → (r : Str) × (s ≡ r ++ p)
unfolding has_suffix
has_suffix_sound s p h =
    let (r, e) = has_prefix_sound (reverse s) (reverse p) h in
    (
      reverse r,
      sym (reverse-reverse s)
          ∙ ap reverse e
          ∙ reverse-append (reverse p) r
          ∙ ap (◌++◌ (reverse r)) (reverse-reverse p),
    )

pub has_suffix-append : (r p : Str) → has_suffix (r ++ p) p ≡ true
unfolding has_suffix
has_suffix-append r p = rw (reverse-append r p) (has_prefix-append (reverse p) (reverse r))
