-- ===== src/ClientHello/Wire.antt =====
-- The TLS wire format of a ClientHello (RFC 8446, RFC 6066), written independently of the parser:
-- what pkg/protocol/tls/client_hello.go is to read.
use lhotse_agent.Prelude.{ℕ, ◌/◌, ◌%◌, ◌<◌, ◌≡◌, ◌≢◌, List, [], ◌∷◌, ◌++◌, length, All}

pub record Extension : Type 0 where
  pub kind : ℕ
  pub payload : List ℕ

-- `name_kind` 0 is host_name.
pub record NameEntry : Type 0 where
  pub name_kind : ℕ
  pub name : List ℕ

-- A hello that carries a server name. `opening` is the version and the random bytes, `earlier` the
-- entries before the host name, `later` what follows it in the list, and `before` and `after` the
-- extensions around the server_name extension.
pub record Hello : Type 0 where
  pub opening : List ℕ
  pub session_id : List ℕ
  pub cipher_suites : List ℕ
  pub compression_methods : List ℕ
  pub before : List Extension
  pub earlier : List NameEntry
  pub host_name : List ℕ
  pub later : List ℕ
  pub after : List ℕ

abbrev pub encode16 : ℕ → List ℕ
encode16 n = (n / 256) ∷ (n % 256) ∷ []

abbrev pub encode24 : ℕ → List ℕ
encode24 n = (n / 65536) ∷ (n / 256 % 256) ∷ (n % 256) ∷ []

-- A block behind its length, and what follows.
abbrev pub block8 : List ℕ → List ℕ → List ℕ
block8 body rest = length body ∷ (body ++ rest)

abbrev pub block16 : List ℕ → List ℕ → List ℕ
block16 body rest = encode16 (length body) ++ (body ++ rest)

abbrev pub encode_names : List NameEntry → List ℕ → List ℕ
encode_names [] rest = rest
encode_names (e ∷ es) rest = e.name_kind ∷ block16 e.name (encode_names es rest)

abbrev pub encode_extensions : List Extension → List ℕ → List ℕ
encode_extensions [] rest = rest
encode_extensions (e ∷ es) rest = encode16 e.kind ++ block16 e.payload (encode_extensions es rest)

-- The server_name_list of the server_name extension.
unfoldable pub name_list : Hello → List ℕ
name_list h = encode_names h.earlier (0 ∷ block16 h.host_name h.later)

unfoldable pub server_name_extension : Hello → List ℕ
server_name_extension h = block16 (name_list h) []

unfoldable pub extension_block : Hello → List ℕ
extension_block h =
    encode_extensions h.before (encode16 0 ++ block16 (server_name_extension h) h.after)

unfoldable pub hello_body : Hello → List ℕ
hello_body h =
    h.opening
    ++ block8 h.session_id
        (block16 h.cipher_suites (block8 h.compression_methods (block16 (extension_block h) [])))

unfoldable pub handshake : Hello → List ℕ
handshake h = 1 ∷ (encode24 (length (hello_body h)) ++ (hello_body h ++ []))

-- The record, and the bytes that follow it on the connection.
unfoldable pub encode_record : Hello → List ℕ → List ℕ
encode_record h rest = 22 ∷ 3 ∷ 1 ∷ block16 (handshake h) rest

abbrev pub Fits16 : List ℕ → Type 0
Fits16 xs = length xs < 65536

abbrev pub EntryFits : NameEntry → Type 0
EntryFits e = (e.name_kind ≢ 0) × Fits16 e.name

abbrev pub ExtensionFits : Extension → Type 0
ExtensionFits e = (e.kind ≢ 0) × (e.kind < 65536) × Fits16 e.payload

-- Each length field can hold its length, and the host name is the first of its kind.
pub record IsWellFormed (h : Hello) : Type 0 where
  pub opening_size : length h.opening ≡ 34
  pub ciphers_fit : Fits16 h.cipher_suites
  pub before_fit : All ExtensionFits h.before
  pub earlier_fit : All EntryFits h.earlier
  pub host_fits : Fits16 h.host_name
  pub names_fit : Fits16 (name_list h)
  pub extension_fits : Fits16 (server_name_extension h)
  pub extensions_fit : Fits16 (extension_block h)
  pub handshake_fits : Fits16 (handshake h)
