-- ===== src/Routing/Fits.antt =====
-- When a value passes checkMatch of cmd/proxy/data/config.go.
use lhotse_agent.Prelude.{
  ◌≡◌, refl, ◌↔◌, ◌⊎◌, inl, inr, Bool, true, false, ◌&&◌, ◌++◌, arith, Str, str_eq_sound,
  str_eq_refl, is_empty, has_prefix_sound, has_prefix-append, Bool-cases,
}
use lhotse_agent.Routing.{
  Outside, StringMatch, match_empty, folded, value_fits, check_match, passes,
}

-- The value is what the first part of the criterion that is set asks for.
pub data Fits (o : Outside) (m : StringMatch) (ignore_case : Bool) (v : Str) : Type 0 where
  by_exact : is_empty m.exact ≡ false → v ≡ folded ignore_case m.exact → Fits o m ignore_case v
  by_prefix :
      is_empty m.exact ≡ true
      → is_empty m.prefix ≡ false
      → (rest : Str) → v ≡ folded ignore_case m.prefix ++ rest
      → Fits o m ignore_case v
  by_regex :
      is_empty m.exact ≡ true
      → is_empty m.prefix ≡ true
      → is_empty m.regex ≡ false
      → o.match_regex m.regex v ≡ true
      → Fits o m ignore_case v

abbrev pub Meets : Outside → StringMatch → Bool → Str → Type 0
Meets o m ignore_case v = (match_empty m ≡ true) ⊎ Fits o m ignore_case (folded ignore_case v)

pub value_fits-Fits :
    (o : Outside) (m : StringMatch) (ig : Bool) (v : Str)
    → value_fits o m v ig ≡ true
    → Fits o m ig v
unfolding value_fits
value_fits-Fits o m ig v h = elim (Bool-cases (is_empty m.exact)) [
  | inr e ↦ by_exact e (str_eq_sound v (folded ig m.exact) (let same = rw e at h in same))
  | inl e ↦ elim (Bool-cases (is_empty m.prefix)) [
    | inr p ↦
        let cut = has_prefix_sound v (folded ig m.prefix) (let same = rw (e, p) at h in same) in
        by_prefix e p cut.0 cut.1
    | inl p ↦ elim (Bool-cases (is_empty m.regex)) [
      | inr x ↦ by_regex e p x (let same = rw (e, p, x) at h in same)
      | inl x ↦ absurd (let clash = rw (e, p, x) at h in cc)
    ]
  ]
]

pub Fits-value_fits :
    (o : Outside) (m : StringMatch) (ig : Bool) (v : Str)
    → Fits o m ig v
    → value_fits o m v ig ≡ true
unfolding value_fits
Fits-value_fits o m ig v (by_exact e same) = rw (e, same) (str_eq_refl (folded ig m.exact))
Fits-value_fits o m ig v (by_prefix e p rest same) =
    rw (e, p, same) (has_prefix-append (folded ig m.prefix) rest)
Fits-value_fits o m ig v (by_regex e p x same) = rw (e, p, x) same

Fits-match_empty :
    (o : Outside) (m : StringMatch) (ig : Bool) (v : Str) → Fits o m ig v → match_empty m ≡ false
unfolding match_empty
Fits-match_empty o m ig v (by_exact e same) = rw e (ground arith)
Fits-match_empty o m ig v (by_prefix e p rest same) = rw p (ground arith)
Fits-match_empty o m ig v (by_regex e p x same) = rw x (ground arith)

-- checkMatch says that a criterion is needed and matched exactly when the value fits.
pub matched_iff :
    (o : Outside) (m : StringMatch) (ig : Bool) (v : Str)
    → ((check_match o m v ig).1 && (check_match o m v ig).0 ≡ true) ↔ Fits o m ig (folded ig v)
unfolding check_match
matched_iff o m ig v = (sound, complete)
  where
    sound : (check_match o m v ig).1 && (check_match o m v ig).0 ≡ true → Fits o m ig (folded ig v)
    sound h = elim (Bool-cases (match_empty m)) [
      | inl unset ↦ absurd (let clash = rw unset at h in cc)
      | inr set ↦ value_fits-Fits o m ig (folded ig v) (let fits = rw set at h in fits)
    ]

    complete :
        Fits o m ig (folded ig v) → (check_match o m v ig).1 && (check_match o m v ig).0 ≡ true
    complete f =
        rw (Fits-match_empty o m ig (folded ig v) f) (Fits-value_fits o m ig (folded ig v) f)

pub passes_iff :
    (o : Outside) (m : StringMatch) (ig : Bool) (v : Str)
    → (passes (check_match o m v ig) ≡ true) ↔ Meets o m ig v
unfolding check_match passes
passes_iff o m ig v = (sound, complete)
  where
    sound : passes (check_match o m v ig) ≡ true → Meets o m ig v
    sound h = elim (Bool-cases (match_empty m)) [
      | inl unset ↦ inl unset
      | inr set ↦ elim (Bool-cases (value_fits o m (folded ig v) ig)) [
        | inl fits ↦ inr (value_fits-Fits o m ig (folded ig v) fits)
        | inr other ↦ absurd (let clash = rw (set, other) at h in cc)
      ]
    ]

    complete : Meets o m ig v → passes (check_match o m v ig) ≡ true
    complete (inl unset) = rw unset refl
    complete (inr f) =
        rw (Fits-match_empty o m ig (folded ig v) f, Fits-value_fits o m ig (folded ig v) f) refl
