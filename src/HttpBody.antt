-- ===== src/HttpBody.antt =====
-- cmd/proxy/http.go: relaying the body of a message. The source of a copy is the bytes that it will
-- still deliver before its end; writes to the destination succeed. `parse_hex` is
-- strconv.ParseInt(text, 16, 64).
pub mod Relay
pub mod Complete
pub mod Examples
use lhotse_agent.Prelude.{
  ℕ, zero, suc, ◌+◌, Bool, true, false, not, ◌&&◌, ◌||◌, List, [], ◌∷◌, ◌++◌, Option, none, some,
  length, take, drop, ltb, leb, ◌==◌, if◌then◌else◌, Str, codes, str_eq, trim_space, to_lower,
}
use lhotse_agent.Prelude.Int.{ℤ, pos, negsuc, ltb_ℤ}
use lhotse_agent.HttpRequest.{index_byte}

-- `out_of_fuel` is no result of the source.
pub data CopyError : Type 0 where
  end_of_input unexpected_end bad_chunk_size out_of_fuel : CopyError

-- What a copy leaves: the rest of its source, what it wrote, and its error.
pub record Copied : Type 0 where
  pub rest : Str
  pub out : Str
  pub error : Option CopyError

abbrev pub finished : Str → Copied
finished s = record { rest = s; out = []; error = none }

abbrev pub stopped : CopyError → Copied
stopped e = record { rest = []; out = []; error = some e }

abbrev pub wrote : Str → Copied → Copied
wrote line c = record c { out = line ++ c.out }

-- A copy and, unless it fails, another one of what it leaves.
continue : Copied → (Str → Copied) → Option CopyError → Copied
continue c next none = wrote c.out (next c.rest)
continue c next (some e) = c

pub then_copy : Copied → (Str → Copied) → Copied
unfolding continue
then_copy c next = continue c next c.error

-- ReadString('\n'): the line with its end, and what follows; `none` where the source ends first.
pub read_line : Str → Option (Str × Str)
read_line [] = none
read_line (c ∷ s) =
    let more = read_line s in
    if c == 10
    then some (c ∷ [], s)
    else elim more [ none ↦ none | some (line, rest) ↦ some (c ∷ line, rest) ]

-- io.CopyN; `e` is the error where the source is too short.
pub copy_n : CopyError → ℕ → Str → Copied
copy_n e n s = record {
  rest = drop n s;
  out = take n s;
  error = if ltb (length s) n then some e else none;
}

-- copyFixedLength; io.CopyN of a negative length copies nothing and reports no error.
pub copy_fixed_length : ℤ → Str → Copied
copy_fixed_length (pos n) s = copy_n unexpected_end n s
copy_fixed_length (negsuc n) s = finished s

abbrev pub crlf : Str
crlf = 13 ∷ 10 ∷ []

-- The size's text: the line without the spaces around it and without an extension.
before_semicolon : Str → Str
before_semicolon s = elim (index_byte 59 s) [ none ↦ s | some i ↦ take i s ]

is_zero : ℤ → Bool
is_zero (pos n) = n == 0
is_zero (negsuc n) = false

-- The loop over the trailer's lines, to an empty one.
pub trailer_loop : ℕ → Str → Copied
trailer_loop zero s = stopped out_of_fuel
trailer_loop (suc fuel) s = elim (read_line s) [
  | none ↦ stopped end_of_input
  | some (line, rest) ↦
      let more = trailer_loop fuel rest in
      wrote line (if str_eq line crlf then finished rest else more)
]

module _ (parse_hex : Str → Option ℤ) where
  pub parse_chunk_size : Str → Option ℤ
  unfolding before_semicolon
  parse_chunk_size line = parse_hex (before_semicolon (trim_space line))

  -- The chunk behind its line, the end of its data, and the chunks that follow.
  pub chunk_data : (Str → Copied) → ℤ → Str → Copied
  unfolding is_zero
  chunk_data next size s =
      if is_zero size
      then trailer_loop (suc (length s)) s
      else then_copy (copy_fixed_length size s) (λ t. then_copy (copy_n end_of_input 2 t) next)

  pub chunk_loop : ℕ → Str → Copied
  chunk_loop zero s = stopped out_of_fuel
  chunk_loop (suc fuel) s = elim (read_line s) [
    | none ↦ stopped end_of_input
    | some (line, rest) ↦ wrote line (elim (parse_chunk_size line) [
      | none ↦ record { rest = rest; out = []; error = some bad_chunk_size }
      | some size ↦ chunk_data (chunk_loop fuel) size rest
    ])
  ]

  -- proxyChunkedBody
  pub proxy_chunked_body : Str → Copied
  proxy_chunked_body s = chunk_loop (suc (length s)) s
