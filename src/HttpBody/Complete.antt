-- ===== src/HttpBody/Complete.antt =====
-- A well-formed chunked body passes through cmd/proxy/http.go whole.
use lhotse_agent.Prelude.{
  In-empty, In-cons, ℕ, zero, suc, ◌<◌, ◌≡◌, refl, sym, ap, ◌∙◌, subst, inl, inr, false, List, [],
  ◌∷◌, ◌++◌, append_assoc, Option, none, some, arith, length, length-append, take-length_append,
  drop-length_append, All, ltb-false, ◌==◌, Str, str_eq, Bool-cases, In, here, there,
}
use lhotse_agent.Prelude.Int.{ℤ, pos}
use lhotse_agent.HttpBody.{
  CopyError, end_of_input, unexpected_end, Copied, continue, then_copy, read_line, copy_n,
  copy_fixed_length, crlf, is_zero, trailer_loop, parse_chunk_size, chunk_data, chunk_loop,
  proxy_chunked_body,
}

-- A line ends in a newline and has no other.
pub record IsLine (line : Str) : Type 0 where
  pub text : Str
  pub ends : line ≡ text ++ 10 ∷ []
  pub clean : In 10 text → ⊥

-- The source is left at `rest`, and `out` was written.
abbrev pub copied : Str → Str → Copied
copied out rest = record { rest = rest; out = out; error = none }

read_line-text :
    (text t : Str) → (In 10 text → ⊥) → read_line (text ++ (10 ∷ t)) ≡ some (text ++ 10 ∷ [], t)
unfolding read_line
read_line-text [] t h = refl
read_line-text (c ∷ text) t h = elim (Bool-cases (c == 10)) [
  | inl same ↦
      absurd (h (let e : c ≡ 10 = ground arith in subst (λ (x : ℕ). In x (c ∷ text)) e (here text)))
  | inr other ↦ rw (other, read_line-text text t (λ i. h (there c i))) refl
]

read_line-line : (line t : Str) → IsLine line → read_line (line ++ t) ≡ some (line, t)
read_line-line line t l =
    subst (λ (s : Str). read_line (s ++ t) ≡ some (s, t)) (sym l.ends)
      (ap read_line (append_assoc l.text (10 ∷ []) t) ∙ read_line-text l.text t l.clean)

line_length : (line : Str) → IsLine line → 0 < length line
line_length line l = omega (arith, ap length l.ends, length-append l.text (10 ∷ []))

copy_n-exact : (e : CopyError) (s t : Str) → copy_n e (length s) (s ++ t) ≡ copied s t
unfolding copy_n
copy_n-exact e s t =
    rw
      (
        take-length_append s t,
        drop-length_append s t,
        ltb-false (length (s ++ t)) (length s) (omega (arith, length-append s t)),
      )
      refl

pub copy_fixed_length-exact : (s t : Str) → copy_fixed_length (pos (length s)) (s ++ t) ≡ copied s t
unfolding copy_fixed_length
copy_fixed_length-exact s t = copy_n-exact unexpected_end s t

-- The trailer's lines, and the empty line that ends the body.
abbrev pub encode_trailer : List Str → Str
encode_trailer [] = crlf
encode_trailer (line ∷ lines) = line ++ encode_trailer lines

abbrev pub IsTrailer : List Str → Type 0
IsTrailer = All (λ (line : Str). IsLine line × (str_eq line crlf ≡ false))

crlf-IsLine : IsLine crlf
crlf-IsLine = record { text = 13 ∷ []; ends = refl; clean = λ i. not_return i }
  where
    not_return : In {A = ℕ} 10 (13 ∷ []) → ⊥
    not_return i = elim (In-cons i) [ inl e ↦ absurd (omega (arith, e)) | inr more ↦ In-empty more ]

trailer_length : (ts : List Str) → IsTrailer ts → length ts < length (encode_trailer ts)
trailer_length [] h = omega arith
trailer_length (t ∷ ts) ((l, n), h) =
    omega (arith, line_length t l, trailer_length ts h, length-append t (encode_trailer ts))

trailer_loop-copied :
    (fuel : ℕ) (ts : List Str) (rest : Str)
    → length ts < fuel
    → IsTrailer ts
    → trailer_loop fuel (encode_trailer ts ++ rest) ≡ copied (encode_trailer ts) rest
unfolding trailer_loop str_eq
trailer_loop-copied zero ts rest h w = absurd (omega (arith, h))
trailer_loop-copied (suc fuel) [] rest h w =
    rw (read_line-line crlf rest crlf-IsLine, trailer_loop) refl
trailer_loop-copied (suc fuel) (t ∷ ts) rest h ((l, n), w) =
    rw
      (
        append_assoc t (encode_trailer ts) rest,
        read_line-line t (encode_trailer ts ++ rest) l,
        trailer_loop,
        n,
        trailer_loop-copied fuel ts rest (omega (arith, h)) w,
      )
      refl

pub record Chunk : Type 0 where
  pub line : Str
  pub payload : Str

-- A chunked body: its chunks, the line of the last one, and the trailer.
abbrev pub encode_body : List Chunk → Str → List Str → Str
encode_body [] last ts = last ++ encode_trailer ts
encode_body (c ∷ cs) last ts = c.line ++ (c.payload ++ (crlf ++ encode_body cs last ts))

module _ (parse_hex : Str → Option ℤ) where
  -- A chunk that is not the last: its line gives the length of its data, which is not empty.
  pub record IsChunk (c : Chunk) : Type 0 where
    pub is_line : IsLine c.line
    pub sized : parse_chunk_size parse_hex c.line ≡ some (pos (length c.payload))
    pub not_empty : 0 < length c.payload

  body_length :
      (cs : List Chunk) (last : Str) (ts : List Str)
      → All IsChunk cs
      → IsLine last
      → length cs < length (encode_body cs last ts)
  body_length [] last ts w l =
      omega (arith, line_length last l, length-append last (encode_trailer ts))
  body_length (c ∷ cs) last ts (k, w) l = omega (
    arith,
    body_length cs last ts w l,
    length-append c.line (c.payload ++ (crlf ++ encode_body cs last ts)),
    length-append c.payload (crlf ++ encode_body cs last ts),
  )

  chunk_data-copied :
      (next : Str → Copied) (payload t out rest : Str)
      → 0 < length payload
      → next t ≡ copied out rest
      → chunk_data parse_hex next (pos (length payload)) (payload ++ (crlf ++ t))
        ≡ copied (payload ++ (crlf ++ out)) rest
  unfolding chunk_data is_zero then_copy continue copy_fixed_length
  chunk_data-copied next payload t out rest full h =
      let more : (length payload == 0) ≡ false = ground arith in
      rw
        (more, copy_n-exact unexpected_end payload (crlf ++ t), copy_n-exact end_of_input crlf t, h)
        refl

  last_data-copied :
      (next : Str → Copied) (ts : List Str) (rest : Str)
      → IsTrailer ts
      → chunk_data parse_hex next (pos 0) (encode_trailer ts ++ rest)
        ≡ copied (encode_trailer ts) rest
  unfolding chunk_data is_zero
  last_data-copied next ts rest w =
      trailer_loop-copied (suc (length (encode_trailer ts ++ rest))) ts rest
        (omega (arith, trailer_length ts w, length-append (encode_trailer ts) rest)) w

  chunk_loop-copied :
      (fuel : ℕ) (cs : List Chunk) (last : Str) (ts : List Str) (rest : Str)
      → length cs < fuel
      → All IsChunk cs
      → IsLine last
      → parse_chunk_size parse_hex last ≡ some (pos 0)
      → IsTrailer ts
      → chunk_loop parse_hex fuel (encode_body cs last ts ++ rest)
        ≡ copied (encode_body cs last ts) rest
  unfolding chunk_loop
  chunk_loop-copied zero cs last ts rest h w l z k = absurd (omega (arith, h))
  chunk_loop-copied (suc fuel) [] last ts rest h w l z k =
      rw
        (
          append_assoc last (encode_trailer ts) rest,
          read_line-line last (encode_trailer ts ++ rest) l,
          chunk_loop,
          z,
          last_data-copied (chunk_loop parse_hex fuel) ts rest k,
        )
        refl
  chunk_loop-copied (suc fuel) (c ∷ cs) last ts rest h (k, w) l z t =
      let tail = encode_body cs last ts in
      let moved : encode_body (c ∷ cs) last ts ++ rest
          ≡ c.line ++ (c.payload ++ (crlf ++ (tail ++ rest))) =
        append_assoc c.line (c.payload ++ (crlf ++ tail)) rest
        ∙ ap (◌++◌ c.line) (append_assoc c.payload (crlf ++ tail) rest) in
      rw
        (
          moved,
          read_line-line c.line (c.payload ++ (crlf ++ (tail ++ rest))) k.is_line,
          chunk_loop,
          k.sized,
          chunk_data-copied (chunk_loop parse_hex fuel) c.payload (tail ++ rest) tail rest
              k.not_empty (chunk_loop-copied fuel cs last ts rest (omega (arith, h)) w l z t),
        )
        refl

  -- A chunked body whose chunk lines give the lengths of their data, whose last chunk has size 0, and
  -- whose trailer ends in an empty line is written as it stands, extensions and trailer included, and
  -- what follows it is left in the source.
  pub proxy_chunked_body-copied :
      (cs : List Chunk) (last : Str) (ts : List Str) (rest : Str)
      → All IsChunk cs
      → IsLine last
      → parse_chunk_size parse_hex last ≡ some (pos 0)
      → IsTrailer ts
      → proxy_chunked_body parse_hex (encode_body cs last ts ++ rest)
        ≡ copied (encode_body cs last ts) rest
  unfolding proxy_chunked_body
  proxy_chunked_body-copied cs last ts rest w l z t =
      chunk_loop-copied (suc (length (encode_body cs last ts ++ rest))) cs last ts rest
        (omega (arith, body_length cs last ts w l, length-append (encode_body cs last ts) rest)) w l
        z t
