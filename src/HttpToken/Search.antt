-- ===== src/HttpToken/Search.antt =====
-- hasToken of pkg/protocol/http/header.go against an independent description.
use lhotse_agent.Prelude.{
  append-nil, ◌||◌, take-drop, ℕ, suc, ◌≡◌, refl, sym, ap, subst, ◌↔◌, inl, inr, true, false, [],
  ◌∷◌, ◌++◌, Option, none, some, arith, length, length-append, take, drop, take-length_append,
  drop-length_append, ltb, ltb-false, Str, str_eq, str_eq_sound, is_empty, lower_byte, Bool-cases,
}
use lhotse_agent.HttpToken.{
  equal_fold, with_bit5, first_byte_fits, starts_at, ends_at, token_here, token_loop, has_token,
}

-- The byte before a position: that of the text before it, or else `prev`.
abbrev pub last_of : Option ℕ → Str → Option ℕ
last_of prev [] = prev
last_of prev (c ∷ s) = last_of (some c) s

-- The token stands in the text, but for the case of letters, between boundaries.
pub record Stands (prev : Option ℕ) (s token : Str) : Type 0 where
  pub before : Str
  pub word : Str
  pub after : Str
  pub parts : s ≡ before ++ (word ++ after)
  pub same : equal_fold word token ≡ true
  pub starts : starts_at (last_of prev before) ≡ true
  pub ends : ends_at after ≡ true

-- A token is not empty and has no capital letters.
pub data IsToken : Str → Type 0 where
  token : (t : ℕ) (ts : Str) → lower_byte t ≡ t → IsToken (t ∷ ts)

equal_fold-length : (s t : Str) → equal_fold s t ≡ true → length s ≡ length t
unfolding equal_fold
equal_fold-length [] [] h = refl
equal_fold-length [] (y ∷ t) h = absurd (let clash = h in cc)
equal_fold-length (x ∷ s) [] h = absurd (let clash = h in cc)
equal_fold-length (x ∷ s) (y ∷ t) h = ap suc (equal_fold-length s t (ground arith))

equal_fold_refl : (s : Str) → equal_fold s s ≡ true
unfolding equal_fold
equal_fold_refl [] = refl
equal_fold_refl (x ∷ s) = ground (arith, equal_fold_refl s)

-- The test of the first byte rejects no match.
first_byte_fits_word :
    (word after tok : Str)
    → IsToken tok
    → equal_fold word tok ≡ true
    → first_byte_fits (word ++ after) tok ≡ true
unfolding equal_fold first_byte_fits with_bit5 lower_byte
first_byte_fits_word [] after (t ∷ ts) (token _ _ low) h = absurd (let clash = h in cc)
first_byte_fits_word (b ∷ word) after (t ∷ ts) (token _ _ low) h = ground arith
first_byte_fits_word [] after [] x4 h = elim x4 [ ]
first_byte_fits_word (b ∷ word) after [] x5 h = elim x5 [ ]

token_here-Stands :
    (prev : Option ℕ) (s tok : Str) → token_here prev s tok ≡ true → Stands prev s tok
unfolding token_here
token_here-Stands prev s tok h = record {
  before = [];
  word = take (length tok) s;
  after = drop (length tok) s;
  parts = take-drop (length tok) s;
  same = ground arith;
  starts = ground arith;
  ends = ground arith;
}

later-Stands :
    (prev : Option ℕ) (b : ℕ) (s tok : Str) → Stands (some b) s tok → Stands prev (b ∷ s) tok
later-Stands prev b s tok h = record {
  before = b ∷ h.before;
  word = h.word;
  after = h.after;
  parts = ap (◌∷◌ b) h.parts;
  same = h.same;
  starts = h.starts;
  ends = h.ends;
}

token_loop-Stands :
    (prev : Option ℕ) (s tok : Str) → token_loop prev s tok ≡ true → Stands prev s tok
unfolding token_loop
token_loop-Stands prev [] tok h = absurd (let clash = h in cc)
token_loop-Stands prev (b ∷ s) tok h = elim (Bool-cases (ltb (length (b ∷ s)) (length tok))) [
  | inl short ↦ absurd (let clash = rw short at h in cc)
  | inr fits ↦ elim (Bool-cases (token_here prev (b ∷ s) tok)) [
    | inl found ↦ token_here-Stands prev (b ∷ s) tok found
    | inr missed ↦
        later-Stands prev b s tok
          (token_loop-Stands (some b) s tok (let more = rw (fits, missed) at h in more))
  ]
]

-- Where a token stands at a position, the tests there find it.
found_here :
    (prev : Option ℕ) (word after tok : Str)
    → IsToken tok
    → equal_fold word tok ≡ true
    → starts_at prev ≡ true
    → ends_at after ≡ true
    → token_here prev (word ++ after) tok ≡ true
unfolding token_here
found_here prev word after tok good same starts ends =
    let size : length tok ≡ length word = sym (equal_fold-length word tok same) in
    let fits = first_byte_fits_word word after tok good same in
    rw
      (size, drop-length_append word after, take-length_append word after, fits, starts, ends, same)
      refl

long_enough :
    (before word after tok : Str)
    → equal_fold word tok ≡ true
    → ltb (length (before ++ (word ++ after))) (length tok) ≡ false
long_enough before word after tok same =
    ltb-false (length (before ++ (word ++ after))) (length tok) (
      omega (
        arith,
        equal_fold-length word tok same,
        length-append before (word ++ after),
        length-append word after,
      ))

token_loop_found :
    (prev : Option ℕ) (before word after tok : Str)
    → IsToken tok
    → equal_fold word tok ≡ true
    → starts_at (last_of prev before) ≡ true
    → ends_at after ≡ true
    → token_loop prev (before ++ (word ++ after)) tok ≡ true
unfolding token_loop
token_loop_found prev [] [] after tok (token t ts low) same starts ends =
    absurd (let clash = equal_fold-length [] (t ∷ ts) same in omega (arith, clash))
token_loop_found prev [] (b ∷ word) after tok good same starts ends =
    let fits = long_enough [] (b ∷ word) after tok same in
    let found = found_here prev (b ∷ word) after tok good same starts ends in rw (fits, found) refl
token_loop_found prev (c ∷ before) word after tok good same starts ends =
    let fits = long_enough (c ∷ before) word after tok same in
    let more = token_loop_found (some c) before word after tok good same starts ends in
    elim (Bool-cases (token_here prev (c ∷ (before ++ (word ++ after))) tok)) [
      | inl found ↦ rw (fits, found) refl
      | inr missed ↦ rw (fits, missed, more) refl
    ]

is_empty_token : (tok : Str) → IsToken tok → is_empty tok ≡ false
is_empty_token (t ∷ ts) (token _ _ low) = refl
is_empty_token [] x1 = elim x1 [ ]

-- For a token that is not empty and begins with no capital letter, hasToken answers true exactly
-- when the value has the token, but for the case of letters, with a boundary byte or an end of the
-- value on either side.
pub has_token_iff : (v tok : Str) → IsToken tok → (has_token v tok ≡ true) ↔ Stands none v tok
unfolding has_token
has_token_iff v tok good = (sound, complete)
  where
    sound : has_token v tok ≡ true → Stands none v tok
    sound h = elim (Bool-cases (ltb (length v) (length tok) || is_empty tok)) [
      | inl short ↦ absurd (let clash = rw short at h in cc)
      | inr fits ↦ elim (Bool-cases (str_eq v tok)) [
        | inl whole ↦ record {
          before = [];
          word = v;
          after = [];
          parts = sym (append-nil v);
          same =
              subst (λ (w : Str). equal_fold v w ≡ true) (str_eq_sound v tok whole)
                (equal_fold_refl v);
          starts = refl;
          ends = refl;
        }
        | inr other ↦ token_loop-Stands none v tok (let found = rw (fits, other) at h in found)
      ]
    ]

    complete : Stands none v tok → has_token v tok ≡ true
    complete s =
        let found : token_loop none v tok ≡ true =
          subst (λ (w : Str). token_loop none w tok ≡ true) (sym s.parts)
            (token_loop_found none s.before s.word s.after tok good s.same s.starts s.ends) in
        let fits : ltb (length v) (length tok) ≡ false =
          subst (λ (w : Str). ltb (length w) (length tok) ≡ false) (sym s.parts)
            (long_enough s.before s.word s.after tok s.same) in
        let some_bytes : is_empty tok ≡ false = is_empty_token tok good in
        elim (Bool-cases (str_eq v tok)) [
          | inl whole ↦ rw (fits, some_bytes, whole) refl
          | inr other ↦ rw (fits, some_bytes, other, found) refl
        ]
