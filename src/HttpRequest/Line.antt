-- ===== src/HttpRequest/Line.antt =====
-- The request line, and what an accepted request of pkg/protocol/http/request.go looks like.
use lhotse_agent.Prelude.{
  zero, sym, take-length_append, ◌∙◌, ◌↔◌, ◌-◌, suc, refl, drop, ℕ, ◌+◌, ◌≡◌, ap, subst, inl, inr,
  [], ◌∷◌, ◌++◌, some, arith, length, ◌==◌, Str, Bool-cases, Option-cases, In, here, there,
  In-empty, In-cons,
}
use lhotse_agent.HttpRequest.{parse_request_line, index_byte}

abbrev pub Lacks : ℕ → Str → Type 0
Lacks b s = In b s → ⊥

-- An index that is found splits the string at the first such byte.
pub record Split (b : ℕ) (s : Str) (i : ℕ) : Type 0 where
  pub before : Str
  pub after : Str
  pub joined : s ≡ before ++ (b ∷ after)
  pub place : i ≡ length before
  pub clean : Lacks b before

pub index_byte-Split : (b : ℕ) (s : Str) (i : ℕ) → index_byte b s ≡ some i → Split b s i
unfolding index_byte
index_byte-Split b [] i h = absurd (let clash = h in cc)
index_byte-Split b (c ∷ s) i h = elim (Bool-cases (c == b)) [
  | inl same ↦ record {
    before = [];
    after = s;
    joined = (let e : c ≡ b = ground arith in ap (λ (x : ℕ). x ∷ s) e);
    place = (let e : some 0 ≡ some i = rw same at h in cc);
    clean = In-empty;
  }
  | inr other ↦ elim (Option-cases (index_byte b s)) [
    | inl missing ↦ absurd (let clash = rw (other, missing) at h in cc)
    | inr (j, found) ↦
        let rest = index_byte-Split b s j found in
        let is_i : j + 1 ≡ i = cc (rw (other, found) at h) in
        record {
          before = c ∷ rest.before;
          after = rest.after;
          joined = ap (◌∷◌ c) rest.joined;
          place = omega (arith, rest.place, is_i);
          clean = λ k. elim (In-cons k) [
            | inl e ↦ absurd (let no = other in ground arith)
            | inr more ↦ rest.clean more
          ];
        }
  ]
]

pub index_byte-append :
    (b : ℕ) (s t : Str) → Lacks b s → index_byte b (s ++ (b ∷ t)) ≡ some (length s)
unfolding index_byte
index_byte-append b [] t n = ground arith
index_byte-append b (c ∷ s) t n = elim (Bool-cases (c == b)) [
  | inl same ↦
      absurd (n (let e : c ≡ b = ground arith in subst (λ (x : ℕ). In x (c ∷ s)) e (here s)))
  | inr other ↦ rw (other, index_byte-append b s t (λ i. n (there c i))) (ap some (omega arith))
]

-- A method, a target and a version as one line.
abbrev pub line_of : Str → Str → Str → Str
line_of method uri proto = method ++ (32 ∷ (uri ++ (32 ∷ proto)))

drop_behind : (b : ℕ) (s t : Str) → drop (length s + 1) (s ++ (b ∷ t)) ≡ t
drop_behind b [] t = refl
drop_behind b (c ∷ s) t =
    let e : suc (length s) + 1 ≡ suc (length s + 1) = omega arith in
    ap (λ (k : ℕ). drop k (c ∷ (s ++ (b ∷ t)))) e ∙ drop_behind b s t

drop_nil : (n : ℕ) → drop {A = ℕ} n [] ≡ []
drop_nil zero = refl
drop_nil (suc n) = refl

drop-drop : (m n : ℕ) (s : Str) → drop (m + n) s ≡ drop m (drop n s)
drop-drop m zero s = ap (λ (k : ℕ). drop k s) (omega arith)
drop-drop m (suc n) [] = drop_nil (m + suc n) ∙ sym (drop_nil m)
drop-drop m (suc n) (c ∷ s) =
    let e : m + suc n ≡ suc (m + n) = omega arith in
    ap (λ (k : ℕ). drop k (c ∷ s)) e ∙ drop-drop m n s

parse-line_of :
    (method uri proto : Str)
    → Lacks 32 method
    → Lacks 32 uri
    → parse_request_line (line_of method uri proto) ≡ some (method, uri, proto)
unfolding parse_request_line
parse-line_of method uri proto nm nu =
    let behind = drop_behind 32 method (uri ++ (32 ∷ proto)) in
    let width : length uri + (length method + 1) - (length method + 1) ≡ length uri = omega arith in
    let next : length uri + (length method + 1) + 1 ≡ (length uri + 1) + (length method + 1) =
      omega arith in
    let tail : drop (length uri + (length method + 1) + 1) (line_of method uri proto) ≡ proto =
      ap (λ (k : ℕ). drop k (line_of method uri proto)) next
      ∙ drop-drop (length uri + 1) (length method + 1) (line_of method uri proto)
      ∙ ap (drop (length uri + 1)) behind
      ∙ drop_behind 32 uri proto in
    rw
      (
        parse_request_line,
        index_byte-append 32 method (uri ++ (32 ∷ proto)) nm,
        behind,
        index_byte-append 32 uri proto nu,
        width,
        take-length_append method (32 ∷ (uri ++ (32 ∷ proto))),
        behind,
        take-length_append uri (32 ∷ proto),
        tail,
      )
      refl

-- A line is taken apart into a method, a target and a version exactly when it is these three with
-- one space between them and neither the method nor the target has a space.
pub parse_request_line_iff :
    (line method uri proto : Str)
    → (parse_request_line line ≡ some (method, uri, proto))
      ↔ ((line ≡ line_of method uri proto) × Lacks 32 method × Lacks 32 uri)
unfolding parse_request_line
parse_request_line_iff line method uri proto = (sound, complete)
  where
    complete :
        (line ≡ line_of method uri proto) × Lacks 32 method × Lacks 32 uri
        → parse_request_line line ≡ some (method, uri, proto)
    complete (e, nm, nu) = ap parse_request_line e ∙ parse-line_of method uri proto nm nu

    sound :
        parse_request_line line ≡ some (method, uri, proto)
        → (line ≡ line_of method uri proto) × Lacks 32 method × Lacks 32 uri
    sound h = elim (Option-cases (index_byte 32 line)) [
      | inl missing ↦ absurd (let clash = rw (parse_request_line, missing) at h in cc)
      | inr (s1, found) ↦ elim (Option-cases (index_byte 32 (drop (s1 + 1) line))) [
        | inl missing ↦ absurd (let clash = rw (parse_request_line, found, missing) at h in cc)
        | inr (i, found2) ↦
            let one = index_byte-Split 32 line s1 found in
            let rest : drop (s1 + 1) line ≡ one.after =
              ap (λ (k : ℕ). drop (k + 1) line) one.place
              ∙ ap (drop (length one.before + 1)) one.joined
              ∙ drop_behind 32 one.before one.after in
            let two = index_byte-Split 32 (drop (s1 + 1) line) i found2 in
            let whole : line ≡ line_of one.before two.before two.after =
              one.joined ∙ ap (λ (t : Str). one.before ++ (32 ∷ t)) (sym rest ∙ two.joined) in
            let parsed =
              ap parse_request_line whole
              ∙ parse-line_of one.before two.before two.after one.clean two.clean in
            let same : (method, uri, proto) ≡ (one.before, two.before, two.after) =
              some_inj (sym h ∙ parsed) in
            subst
              (λ (x : Str × Str × Str). (line ≡ line_of x.0 x.1 x.2) × Lacks 32 x.0 × Lacks 32 x.1)
              (sym same) (whole, one.clean, two.clean)
      ]
    ]
      where
        some_inj : {x y : Str × Str × Str} → some x ≡ some y → x ≡ y
        some_inj e = cc
