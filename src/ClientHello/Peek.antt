-- ===== src/ClientHello/Peek.antt =====
-- PeekClientHelloServerName of pkg/protocol/tls/client_hello.go over a buffered reader.
use lhotse_agent.Prelude.{
  sym, length-append, ◌∙◌, ℕ, ◌+◌, ◌*◌, ◌/◌, ◌%◌, ◌≤◌, ◌<◌, ◌≡◌, refl, true, List, [], ◌∷◌, ◌++◌,
  none, some, arith, length, take, take-length_append, append-nil, ltb-false, leb-false,
}
use lhotse_agent.ClientHello.{
  Peeked, peeked, short, failed, sniff_of, sniff_record, sniff_header, no_tls,
  peek_client_hello_server_name, peek_fault, max_tls_record_len, Result,
}
use lhotse_agent.ClientHello.Runs.{Settles, settled, cut, parse_client_hello_server_name-Settles}
use lhotse_agent.ClientHello.Wire.{Hello, IsWellFormed, encode_record, handshake, encode16}
use lhotse_agent.ClientHello.RoundTrip.{parse-encode_record}

-- What bufio.Reader documents: a successful Peek(n) returns exactly n bytes.
abbrev pub PeeksExactly : (ℕ → Peeked) → Type 0
PeeksExactly peek = (n : ℕ) (bytes : List ℕ) → peek n ≡ peeked bytes → length bytes ≡ n

-- A reader whose next bytes are `stream` and whose buffer holds a header and a largest record.
abbrev pub Holds : List ℕ → (ℕ → Peeked) → Type 0
Holds stream peek =
    (n : ℕ) → n ≤ 5 + max_tls_record_len → n ≤ length stream → peek n ≡ peeked (take n stream)

sniff_of-no_fault :
    (r : Result (List ℕ)) → Settles (λ s. Unit {0}) r → (sniff_of r).error ≡ some peek_fault → ⊥
unfolding sniff_of
sniff_of-no_fault _ (settled s t) e = cc
sniff_of-no_fault _ cut e = cc

sniff_record-no_fault : (p : Peeked) → (sniff_record p).error ≡ some peek_fault → ⊥
unfolding sniff_record
sniff_record-no_fault (peeked bytes) e =
    sniff_of-no_fault _ (parse_client_hello_server_name-Settles bytes) e
sniff_record-no_fault short e = cc
sniff_record-no_fault failed e = cc

sniff_header-no_fault :
    (peek : ℕ → Peeked) (header : List ℕ)
    → length header ≡ 5
    → (sniff_header peek header).error ≡ some peek_fault
    → ⊥
unfolding sniff_header no_tls
sniff_header-no_fault peek (a ∷ b ∷ c ∷ hi ∷ lo ∷ rest) h e =
    ground (arith, sniff_record-no_fault (peek (5 + (hi * 256 + lo))))
sniff_header-no_fault peek _ h e = absurd (omega arith)

-- Whatever the reader returns, as long as a successful Peek(n) returns n bytes, sniffing a
-- connection ends without an index or slice fault and without exhausting a loop.
pub peek_client_hello-no_fault :
    (peek : ℕ → Peeked)
    → PeeksExactly peek
    → (peek_client_hello_server_name peek).error ≡ some peek_fault
    → ⊥
unfolding peek_client_hello_server_name
peek_client_hello-no_fault peek exact = split (peek 5) refl
  where
    split :
        (p : Peeked) → peek 5 ≡ p → (peek_client_hello_server_name peek).error ≡ some peek_fault → ⊥
    split (peeked header) e f =
        sniff_header-no_fault peek header (exact 5 header e)
          (rw (e, peek_client_hello_server_name) at f)
    split short e f = cc (rw (e, peek_client_hello_server_name) at f)
    split failed e f = cc (rw (e, peek_client_hello_server_name) at f)

take_record :
    (h : Hello) (rest : List ℕ)
    → take (5 + length (handshake h)) (encode_record h rest) ≡ encode_record h []
unfolding encode_record
take_record h rest =
    let body : List ℕ = handshake h in
    let record_bytes : List ℕ = 22 ∷ 3 ∷ 1 ∷ (encode16 (length body) ++ body) in
    let size : 5 + length body ≡ length record_bytes = omega arith in
    rw size (take-length_append record_bytes rest ∙ sym (append-nil record_bytes))

handshake_pos : (h : Hello) → 0 < length (handshake h)
unfolding handshake
handshake_pos h = omega arith

length-encode_record :
    (h : Hello) (rest : List ℕ)
    → length (encode_record h rest) ≡ 5 + length (handshake h) + length rest
unfolding encode_record
length-encode_record h rest = omega (arith, length-append (handshake h) rest)

-- On a connection that opens with a well-formed hello whose handshake message fits one record of
-- the largest accepted size, sniffing reports TLS and the host name, with no error.
pub peek-encode_record :
    (peek : ℕ → Peeked) (h : Hello) (rest : List ℕ)
    → IsWellFormed h
    → length (handshake h) ≤ max_tls_record_len
    → Holds (encode_record h rest) peek
    → peek_client_hello_server_name peek
      ≡ record { server_name = h.host_name; is_tls = true; error = none }
unfolding peek_client_hello_server_name sniff_header encode_record sniff_record sniff_of
peek-encode_record peek h rest w small holds =
    let body : List ℕ = handshake h in
    let size : length body / 256 * 256 + length body % 256 ≡ length body = omega arith in
    let total = length-encode_record h rest in
    rw (holds 5 (omega arith) (omega arith), peek_client_hello_server_name)
      (rw (
        size,
        leb-false (length body) 0 (handshake_pos h),
        ltb-false max_tls_record_len (length body) small,
        holds (5 + length body) (omega arith) (omega arith),
        take_record h rest,
        parse-encode_record h [] w,
      ))
