-- ===== src/HttpBody/Relay.antt =====
-- The relay of a chunked body in cmd/proxy/http.go neither alters nor invents bytes, and ends.
use lhotse_agent.Prelude.{
  take-drop, ℕ, zero, suc, ◌≤◌, ◌<◌, ◌≡◌, refl, sym, ap, ◌∙◌, subst, inl, inr, [], ◌∷◌, ◌++◌,
  append_assoc, Option, none, some, arith, length, length-append, drop, ltb, ◌==◌, Str, str_eq,
  Bool-cases, Option-cases,
}
use lhotse_agent.Prelude.Int.{ℤ, pos, negsuc}
use lhotse_agent.HttpBody.{
  CopyError, end_of_input, out_of_fuel, unexpected_end, Copied, finished, stopped, wrote, continue,
  then_copy, read_line, copy_n, copy_fixed_length, crlf, is_zero, trailer_loop, parse_chunk_size,
  chunk_data, chunk_loop, proxy_chunked_body,
}

-- A copy of `s`: what it wrote is a beginning of `s`, the rest of which is left if it did not fail;
-- and it did not run out of fuel.
pub record Relays (s : Str) (c : Copied) : Type 0 where
  pub lost : Str
  pub parts : s ≡ c.out ++ lost
  pub left : c.error ≡ none → lost ≡ c.rest
  pub ended : c.error ≡ some out_of_fuel → ⊥

pub finished-Relays : (s : Str) → Relays s (finished s)
finished-Relays s = record { lost = s; parts = refl; left = λ e. refl; ended = λ e. cc }

wrote-Relays : (line s : Str) (c : Copied) → Relays s c → Relays (line ++ s) (wrote line c)
wrote-Relays line s c r = record {
  lost = r.lost;
  parts = ap (◌++◌ line) r.parts ∙ sym (append_assoc line c.out r.lost);
  left = r.left;
  ended = r.ended;
}

copy_n-Relays : (e : CopyError) (n : ℕ) (s : Str) → (e ≡ out_of_fuel → ⊥) → Relays s (copy_n e n s)
unfolding copy_n
copy_n-Relays e n s h = record {
  lost = drop n s;
  parts = take-drop n s;
  left = λ f. refl;
  ended = λ f. elim (Bool-cases (ltb (length s) n)) [
    | inl short ↦ h (let same = rw short at f in cc)
    | inr fits ↦ absurd (let clash = rw fits at f in cc)
  ];
}

pub copy_fixed_length-Relays : (n : ℤ) (s : Str) → Relays s (copy_fixed_length n s)
unfolding copy_fixed_length
copy_fixed_length-Relays (pos n) s = copy_n-Relays unexpected_end n s (λ e. cc)
copy_fixed_length-Relays (negsuc n) s = finished-Relays s

-- What a copy leaves is no longer than what it got.
rest_shorter : (s : Str) (c : Copied) → Relays s c → c.error ≡ none → length c.rest ≤ length s
rest_shorter s c r e =
    let whole : s ≡ c.out ++ c.rest = r.parts ∙ ap (◌++◌ c.out) (r.left e) in
    omega (arith, ap length whole, length-append c.out c.rest)

then_copy-Relays :
    (s : Str) (c : Copied) (next : Str → Copied)
    → Relays s c
    → (c.error ≡ none → Relays c.rest (next c.rest))
    → Relays s (then_copy c next)
unfolding then_copy continue
then_copy-Relays s c next r h = continued c.error refl
  where
    continued : (o : Option CopyError) → c.error ≡ o → Relays s (continue c next o)
    continued (some e) failed = r
    continued none fine =
        subst (λ (t : Str). Relays t (wrote c.out (next c.rest)))
          (sym (r.parts ∙ ap (◌++◌ c.out) (r.left fine)))
          (wrote-Relays c.out c.rest (next c.rest) (h fine))

read_line_parts :
    (s line rest : Str)
    → read_line s ≡ some (line, rest)
    → (s ≡ line ++ rest) × (length rest < length s)
unfolding read_line
read_line_parts [] line rest h = absurd (let clash = h in cc)
read_line_parts (c ∷ s) line rest h = elim (Bool-cases (c == 10)) [
  | inl newline ↦
      let same : (c ∷ [], s) ≡ (line, rest) = some_inj (rw newline at h) in
      subst (λ (p : Str × Str). (c ∷ s ≡ p.0 ++ p.1) × (length p.1 < suc (length s))) same
        (refl, omega arith)
  | inr other ↦ elim (Option-cases (read_line s)) [
    | inl missing ↦ absurd (let clash = rw (other, missing) at h in cc)
    | inr (p, found) ↦
        let same : (c ∷ p.0, p.1) ≡ (line, rest) = some_inj (rw (other, found) at h) in
        let (joined, shorter) = read_line_parts s p.0 p.1 found in
        subst (λ (q : Str × Str). (c ∷ s ≡ q.0 ++ q.1) × (length q.1 < suc (length s))) same
          (ap (◌∷◌ c) joined, omega (arith, shorter))
  ]
]
  where
    some_inj : {x y : Str × Str} → some x ≡ some y → x ≡ y
    some_inj e = cc

stopped-Relays : (s : Str) (e : CopyError) → (e ≡ out_of_fuel → ⊥) → Relays s (stopped e)
stopped-Relays s e h = record {
  lost = s;
  parts = refl;
  left = λ f. absurd (let clash = f in cc);
  ended = λ f. h (let same = f in cc);
}

-- A line of `s` and a copy of what follows it.
line-Relays :
    (s line rest : Str) (c : Copied)
    → read_line s ≡ some (line, rest)
    → Relays rest c
    → Relays s (wrote line c)
line-Relays s line rest c found r =
    subst (λ (t : Str). Relays t (wrote line c)) (sym (read_line_parts s line rest found).0)
      (wrote-Relays line rest c r)

trailer_loop-Relays : (fuel : ℕ) (s : Str) → length s < fuel → Relays s (trailer_loop fuel s)
unfolding trailer_loop
trailer_loop-Relays zero s h = absurd (omega (arith, h))
trailer_loop-Relays (suc fuel) s h = elim (Option-cases (read_line s)) [
  | inl missing ↦ rw (missing, trailer_loop) (stopped-Relays s end_of_input (λ e. cc))
  | inr ((line, rest), found) ↦
      rw (found, trailer_loop)
        (line-Relays s line rest _ found (elim (Bool-cases (str_eq line crlf)) [
          | inl last ↦ rw last (finished-Relays rest)
          | inr more ↦ rw more (
              trailer_loop-Relays fuel rest
                (omega (arith, h, (read_line_parts s line rest found).1)))
        ]))
]

module _ (parse_hex : Str → Option ℤ) where
  chunk_data-Relays :
      (next : Str → Copied) (size : ℤ) (s : Str)
      → ((t : Str) → length t ≤ length s → Relays t (next t))
      → Relays s (chunk_data parse_hex next size s)
  unfolding chunk_data
  chunk_data-Relays next size s h = elim (Bool-cases (is_zero size)) [
    | inl last ↦ rw last (trailer_loop-Relays (suc (length s)) s (omega arith))
    | inr more ↦
        let first = copy_fixed_length-Relays size s in
        rw more (
          then_copy-Relays s (copy_fixed_length size s) _ first (λ fine.
            let t = (copy_fixed_length size s).rest in
            let second = copy_n-Relays end_of_input 2 t (λ e. cc) in
            then_copy-Relays t (copy_n end_of_input 2 t) next second (λ fine'.
              h (copy_n end_of_input 2 t).rest (
                omega (
                  arith,
                  rest_shorter s (copy_fixed_length size s) first fine,
                  rest_shorter t (copy_n end_of_input 2 t) second fine',
                )))))
  ]

  chunk_loop-Relays :
      (fuel : ℕ) (s : Str) → length s < fuel → Relays s (chunk_loop parse_hex fuel s)
  unfolding chunk_loop
  chunk_loop-Relays zero s h = absurd (omega (arith, h))
  chunk_loop-Relays (suc fuel) s h = elim (Option-cases (read_line s)) [
    | inl missing ↦ rw (missing, chunk_loop) (stopped-Relays s end_of_input (λ e. cc))
    | inr ((line, rest), found) ↦
        let shorter = (read_line_parts s line rest found).1 in
        rw (found, chunk_loop)
          (line-Relays s line rest _ found (elim (Option-cases (parse_chunk_size parse_hex line)) [
            | inl bad ↦
                rw bad (record { lost = rest; parts = refl; left = λ e. refl; ended = λ e. cc })
            | inr (size, sized) ↦ rw sized (
                chunk_data-Relays (chunk_loop parse_hex fuel) size rest
                  (λ t small. chunk_loop-Relays fuel t (omega (arith, h, shorter, small))))
          ]))
  ]

  -- The relay of a chunked body ends on every input; what it has written is a beginning of what its
  -- source delivers, on an error too, and if it succeeds the source is left at the first byte that
  -- was not written.
  pub proxy_chunked_body-Relays : (s : Str) → Relays s (proxy_chunked_body parse_hex s)
  unfolding proxy_chunked_body
  proxy_chunked_body-Relays s = chunk_loop-Relays (suc (length s)) s (omega arith)
