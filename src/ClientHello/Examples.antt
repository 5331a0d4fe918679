-- ===== src/ClientHello/Examples.antt =====
-- Runs of the ClientHello parser, and its theorems at a concrete hello.
use lhotse_agent.Prelude.{
  zero, suc, ℕ, ◌≡◌, refl, true, none, List, [], ◌∷◌, arith, length, take, codes,
}
use lhotse_agent.ClientHello.{
  ok, peeked, Peeked, parse_client_hello_server_name, peek_client_hello_server_name,
}
use lhotse_agent.ClientHello.Runs.{Settles, parse_client_hello_server_name-Settles}
use lhotse_agent.ClientHello.Wire.{
  Hello, IsWellFormed, encode_record, name_list, server_name_extension, extension_block, hello_body,
  handshake,
}
use lhotse_agent.ClientHello.RoundTrip.{parse-encode_record}
use lhotse_agent.ClientHello.Peek.{PeeksExactly, peek-encode_record}

abbrev zeros : ℕ → List ℕ
zeros zero = []
zeros (suc n) = 0 ∷ zeros n

abbrev pub example : Hello
example = record {
  opening = zeros 34;
  session_id = 7 ∷ 7 ∷ [];
  cipher_suites = 0x13 ∷ 1 ∷ [];
  compression_methods = 0 ∷ [];
  before = record { kind = 10; payload = 0 ∷ 29 ∷ [] } ∷ [];
  earlier = record { name_kind = 1; name = 120 ∷ [] } ∷ [];
  host_name = codes "a.io";
  later = [];
  after = 0 ∷ 16 ∷ 0 ∷ 0 ∷ [];
}

pub example-IsWellFormed : IsWellFormed example
unfolding name_list server_name_extension extension_block hello_body handshake
example-IsWellFormed = omega arith

parse-encode_record_example :
    parse_client_hello_server_name (encode_record example (9 ∷ [])) ≡ ok (codes "a.io")
parse-encode_record_example = parse-encode_record example (9 ∷ []) example-IsWellFormed

Settles_example : Settles (λ s. Unit {0}) (parse_client_hello_server_name (22 ∷ 3 ∷ 1 ∷ 0 ∷ 9 ∷ []))
Settles_example = parse_client_hello_server_name-Settles (22 ∷ 3 ∷ 1 ∷ 0 ∷ 9 ∷ [])

unfoldable pub reader : ℕ → Peeked
reader n = peeked (take n (encode_record example []))

peek-encode_record_example :
    peek_client_hello_server_name reader
    ≡ record { server_name = codes "a.io"; is_tls = true; error = none }
unfolding reader handshake hello_body extension_block server_name_extension name_list
peek-encode_record_example =
    peek-encode_record reader example [] example-IsWellFormed (omega arith) (λ n _ _. refl)

length-zeros : (n : ℕ) → length (zeros n) ≡ n
length-zeros zero = refl
length-zeros (suc n) = omega (arith, length-zeros n)

exactly : PeeksExactly (λ n. peeked (zeros n))
exactly n bytes e = ground (arith, length-zeros n)
