-- ===== src/ClientHello/RoundTrip.antt =====
-- The parser of pkg/protocol/tls/client_hello.go reads back the server name of an encoded hello.
use lhotse_agent.Prelude.{
  suc, ap, ◌∙◌, ◌<◌, sym, append_assoc, ==_false, leb-false, ℕ, suc, ◌+◌, ◌*◌, ◌/◌, ◌%◌, ◌≡◌, refl,
  List, [], ◌∷◌, ◌++◌, arith, length, length-append, ltb-false,
}
use lhotse_agent.ClientHello.{
  parse_client_hello_server_name, parse_handshake, parse_hello, parse_extensions, skip16, skip8,
  extension_loop, ok, index, slice, uint16,
}
use lhotse_agent.ClientHello.Wire.{
  encode24, encode_record, handshake, extension_block, hello_body, IsWellFormed, block8, Hello,
  server_name_extension, Fits16, encode16, block16,
}
use lhotse_agent.ClientHello.Loops.{slice_mid, extension_loop_host, extensions-le}

index_mid :
    (pre : List ℕ) (x : ℕ) (rest : List ℕ) (at : ℕ)
    → at ≡ length pre
    → index (pre ++ x ∷ rest) at ≡ ok x
unfolding index
index_mid [] x rest at e = rw e
index_mid (p ∷ pre) x rest at e = rw e (index_mid pre x rest (length pre) refl)

-- Behind a block that is counted by one byte, and by two.
skip8_block :
    (hello pre body rest : List ℕ) (at : ℕ)
    → hello ≡ pre ++ block8 body rest
    → at ≡ length pre
    → skip8 hello at ≡ ok (at + 1 + length body)
unfolding skip8
skip8_block hello pre body rest at eh e =
    let bytes : List ℕ = pre ++ block8 body rest in
    let total : length bytes ≡ length pre + (1 + (length body + length rest)) =
      omega (arith, length-append pre (block8 body rest), length-append body rest) in
    rw (
      eh,
      leb-false (length bytes) at (omega arith),
      index_mid pre (length body) (body ++ rest) at e,
      ltb-false (length bytes) (at + 1 + length body) (omega arith),
    )

skip16_block :
    (hello pre body rest : List ℕ) (at : ℕ)
    → hello ≡ pre ++ block16 body rest
    → at ≡ length pre
    → Fits16 body
    → skip16 hello at ≡ ok (at + 2 + length body)
unfolding skip16 uint16
skip16_block hello pre body rest at eh e h =
    let bytes : List ℕ = pre ++ block16 body rest in
    let size : length body / 256 * 256 + length body % 256 ≡ length body = omega arith in
    let total : length bytes ≡ length pre + (2 + (length body + length rest)) =
      omega (arith, length-append pre (block16 body rest), length-append body rest) in
    rw (
      eh,
      ltb-false (length bytes) (at + 2) (omega arith),
      slice_mid pre (encode16 (length body)) (body ++ rest) at (at + 2) e refl,
      size,
      ltb-false (length bytes) (at + 2 + length body) (omega arith),
    )

slice-block16 :
    (pre body : List ℕ) (lo hi : ℕ)
    → lo ≡ length pre + 2
    → hi ≡ lo + length body
    → slice (pre ++ block16 body []) lo hi ≡ ok body
slice-block16 pre body lo hi el eh = rw (← append_assoc pre (encode16 (length body)) (body ++ [])) (
    slice_mid (pre ++ encode16 (length body)) body [] lo hi
      (omega (arith, length-append pre (encode16 (length body)))) eh)

parse_extensions_block :
    (hello pre body : List ℕ) (at : ℕ)
    → hello ≡ pre ++ block16 body []
    → at ≡ length pre
    → Fits16 body
    → parse_extensions hello at ≡ extension_loop (suc (length body)) body
unfolding parse_extensions uint16
parse_extensions_block hello pre body at eh e h =
    let bytes : List ℕ = pre ++ block16 body [] in
    let size : length body / 256 * 256 + length body % 256 ≡ length body = omega arith in
    let total : length bytes ≡ length pre + (2 + length body) =
      omega (arith, length-append pre (block16 body []), length-append body []) in
    rw (
      eh,
      ==_false at (length bytes) (λ same. omega arith),
      ltb-false (length bytes) (at + 2) (omega arith),
      slice_mid pre (encode16 (length body)) (body ++ []) at (at + 2) e refl,
      size,
      ltb-false (length bytes) (at + 2 + length body) (omega arith),
      slice-block16 pre body (at + 2) (at + 2 + length body) (omega arith) refl,
    )

parse_hello_host : (h : Hello) → IsWellFormed h → parse_hello (hello_body h) ≡ ok h.host_name
unfolding parse_hello hello_body extension_block
parse_hello_host h w =
    let hello : List ℕ = hello_body h in
    let sid : List ℕ = length h.session_id ∷ h.session_id in
    let ciphers : List ℕ = encode16 (length h.cipher_suites) ++ h.cipher_suites in
    let methods : List ℕ = length h.compression_methods ∷ h.compression_methods in
    let tail3 : List ℕ = block16 (extension_block h) [] in
    let tail2 : List ℕ = methods ++ tail3 in
    let tail1 : List ℕ = ciphers ++ tail2 in
    let a : List ℕ = h.opening ++ sid in
    let b : List ℕ = a ++ ciphers in
    let c : List ℕ = b ++ methods in
    let ea : hello ≡ a ++ tail1 = sym (append_assoc h.opening sid tail1) in
    let eb : hello ≡ b ++ tail2 = ea ∙ sym (append_assoc a ciphers tail2) in
    let ec : hello ≡ c ++ tail3 = eb ∙ sym (append_assoc b methods tail3) in
    let la : length a ≡ 34 + 1 + length h.session_id =
      omega (arith, length-append h.opening sid, w.opening_size) in
    let lb : length b ≡ length a + 2 + length h.cipher_suites =
      omega (arith, length-append a ciphers) in
    let lc : length c ≡ length b + 1 + length h.compression_methods =
      omega (arith, length-append b methods) in
    rw
      (
        ltb-false (length hello) 34 (omega (arith, ap length ea, length-append a tail1)),
        skip8_block hello h.opening h.session_id tail1 34 refl (sym w.opening_size),
        skip16_block hello a h.cipher_suites tail2 (34 + 1 + length h.session_id) ea (sym la)
            w.ciphers_fit,
        skip8_block hello b h.compression_methods tail3
            (34 + 1 + length h.session_id + 2 + length h.cipher_suites) eb (omega arith),
        parse_extensions_block hello c (extension_block h)
            (34
              + 1
              + length h.session_id
              + 2
              + length h.cipher_suites
              + 1
              + length h.compression_methods)
            ec (omega arith) w.extensions_fit,
      )
      (extension_loop_host h.before h (suc (length (extension_block h))) w w.before_fit (
        omega (
          arith,
          extensions-le h.before (encode16 0 ++ block16 (server_name_extension h) h.after),
        )))

-- The body of the handshake message fits its three-byte length.
parse_handshake_host : (h : Hello) → IsWellFormed h → parse_handshake (handshake h) ≡ ok h.host_name
unfolding parse_handshake handshake index
parse_handshake_host h w =
    let hello : List ℕ = hello_body h in
    let fits : length hello < 65536 = omega (arith, w.handshake_fits, length-append hello []) in
    let size : length hello / 65536 * 65536 + length hello / 256 % 256 * 256 + length hello % 256
        ≡ length hello =
      omega arith in
    let total : length (hello ++ []) ≡ length hello = omega (arith, length-append hello []) in
    rw
      (
        ltb-false (length (handshake h)) 4 (omega arith),
        size,
        ltb-false (length (handshake h)) (4 + length hello) (omega arith),
        slice_mid (1 ∷ encode24 (length hello)) hello [] 4 (4 + length hello) refl refl,
      )
      (parse_hello_host h w)

-- For every well-formed ClientHello that carries a host name, whatever its other extensions and
-- the bytes that follow the record, ParseClientHelloServerName of the encoded record returns that
-- host name.
pub parse-encode_record :
    (h : Hello) (rest : List ℕ)
    → IsWellFormed h
    → parse_client_hello_server_name (encode_record h rest) ≡ ok h.host_name
unfolding parse_client_hello_server_name encode_record index uint16
parse-encode_record h rest w =
    let body : List ℕ = handshake h in
    let fits : length body < 65536 = w.handshake_fits in
    let size : length body / 256 * 256 + length body % 256 ≡ length body = omega arith in
    let total : length (body ++ rest) ≡ length body + length rest = length-append body rest in
    rw
      (
        ltb-false (length (encode_record h rest)) 5 (omega arith),
        slice_mid (22 ∷ 3 ∷ 1 ∷ []) (encode16 (length body)) (body ++ rest) 3 5 refl refl,
        size,
        ltb-false (length (encode_record h rest)) (5 + length body) (omega arith),
        slice_mid (22 ∷ 3 ∷ 1 ∷ encode16 (length body)) body rest 5 (5 + length body) refl refl,
      )
      (parse_handshake_host h w)
