-- ===== src/HttpBody/Examples.antt =====
-- The relay of a chunked body at concrete inputs.
use lhotse_agent.Prelude.{
  trim_space, In-empty, inr, inl, In-cons, In, ◌≡◌, refl, ℕ, ◌-◌, [], ◌∷◌, ◌++◌, Option, none, some,
  arith, Str, codes,
}
use lhotse_agent.Prelude.Int.{ℤ, pos}
use lhotse_agent.HttpBody.{proxy_chunked_body, parse_chunk_size, before_semicolon}
use lhotse_agent.HttpRequest.{index_byte}
use lhotse_agent.HttpBody.Complete.{
  Chunk, IsChunk, IsLine, copied, encode_body, proxy_chunked_body-copied,
}

-- One digit.
abbrev one_digit : Str → Option ℤ
one_digit [] = none
one_digit (c ∷ []) = some (pos (c - 48))
one_digit (c ∷ d ∷ s) = none

abbrev chunk : Chunk
chunk = record { line = codes "3\n"; payload = codes "abc" }

no_newline : (c : ℕ) → (c ≡ 10 → ⊥) → In {A = ℕ} 10 (c ∷ []) → ⊥
no_newline c h i = elim (In-cons i) [ inl e ↦ h e | inr more ↦ In-empty more ]

digit-IsLine : (c : ℕ) → (c ≡ 10 → ⊥) → IsLine (c ∷ codes "\n")
digit-IsLine c h = record { text = c ∷ []; ends = refl; clean = no_newline c h }

chunk-IsChunk : IsChunk one_digit chunk
unfolding parse_chunk_size before_semicolon trim_space index_byte
chunk-IsChunk = record {
  is_line = digit-IsLine 51 (λ e. omega (arith, e));
  sized = refl;
  not_empty = omega arith;
}

-- "3\nabc\r\n0\n\r\n" and what follows it.
proxy_chunked_body-copied_example :
    proxy_chunked_body one_digit (encode_body (chunk ∷ []) (codes "0\n") [] ++ codes "GET")
    ≡ copied (encode_body (chunk ∷ []) (codes "0\n") []) (codes "GET")
unfolding parse_chunk_size before_semicolon trim_space index_byte
proxy_chunked_body-copied_example =
    proxy_chunked_body-copied one_digit (chunk ∷ []) (codes "0\n") [] (codes "GET")
      (chunk-IsChunk, _) (digit-IsLine 48 (λ e. omega (arith, e))) refl _
