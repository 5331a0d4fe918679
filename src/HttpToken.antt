-- ===== src/HttpToken.antt =====
-- hasToken of pkg/protocol/http/header.go, and the ASCII functions of
-- pkg/protocol/http/internal/ascii/print.go.
pub mod Search
pub mod Examples
use lhotse_agent.Prelude.{
  ℕ, ◌+◌, ◌/◌, ◌%◌, Bool, true, false, not, ◌&&◌, ◌||◌, List, [], ◌∷◌, Option, none, some, length,
  take, drop, ltb, leb, ◌==◌, if◌then◌else◌, Str, str_eq, is_empty, lower_byte, to_lower,
}

-- EqualFold; lower of the source is `lower_byte`.
unfoldable pub equal_fold : Str → Str → Bool
equal_fold [] [] = true
equal_fold [] (y ∷ t) = false
equal_fold (x ∷ s) [] = false
equal_fold (x ∷ s) (y ∷ t) = lower_byte x == lower_byte y && equal_fold s t

-- IsPrint, and Is
pub is_print : Str → Bool
is_print [] = true
is_print (c ∷ s) = not (ltb c 32 || ltb 126 c) && is_print s

pub is_ascii : Str → Bool
is_ascii [] = true
is_ascii (c ∷ s) = not (ltb 127 c) && is_ascii s

-- ToLower of package ascii, with its flag.
pub ascii_to_lower : Str → Str × Bool
unfolding is_print
ascii_to_lower s = if not (is_print s) then ([], false) else (to_lower s, true)

pub is_token_boundary : ℕ → Bool
is_token_boundary b = b == 32 || b == 44 || b == 9

-- b|0x20
with_bit5 : ℕ → ℕ
with_bit5 b = if (b / 32) % 2 == 1 then b else b + 32

first_byte_fits : Str → Str → Bool
unfolding with_bit5
first_byte_fits (b ∷ s) (t ∷ token) = b == t || with_bit5 b == t
first_byte_fits s token = false

pub starts_at : Option ℕ → Bool
unfolding is_token_boundary
starts_at none = true
starts_at (some b) = is_token_boundary b

pub ends_at : Str → Bool
unfolding is_token_boundary
ends_at [] = true
ends_at (b ∷ s) = is_token_boundary b

-- The tests of hasToken at one position: `s` is the text from there on, `prev` the byte before it.
token_here : Option ℕ → Str → Str → Bool
unfolding first_byte_fits starts_at ends_at
token_here prev s token =
    first_byte_fits s token
    && starts_at prev
    && ends_at (drop (length token) s)
    && equal_fold (take (length token) s) token

token_loop : Option ℕ → Str → Str → Bool
unfolding token_here
token_loop prev [] token = false
token_loop prev (b ∷ s) token =
    let more = token_loop (some b) s token in
    if ltb (length (b ∷ s)) (length token)
    then false
    else if token_here prev (b ∷ s) token
    then true
    else more

unfoldable pub has_token : Str → Str → Bool
unfolding token_loop
has_token v token =
    if ltb (length v) (length token) || is_empty token
    then false
    else if str_eq v token
    then true
    else token_loop none v token
