-- ===== src/ClientHello.antt =====
-- pkg/protocol/tls/client_hello.go: the server name (SNI) of a TLS ClientHello. A byte slice is a
-- list of numbers; every index and slice expression is bounds-checked, and `panic` is the run-time
-- error of Go. `a<<16 | b<<8 | c` of bytes is written as the sum of its disjoint parts.
pub mod Runs
pub mod Wire
pub mod Loops
pub mod RoundTrip
pub mod Peek
pub mod Examples
use lhotse_agent.Prelude.{
  ℕ, zero, suc, ◌+◌, ◌-◌, ◌*◌, ◌≡◌, refl, Bool, true, false, not, ◌&&◌, ◌||◌, List, [], ◌∷◌, Option,
  none, some, arith, ltb, leb, ◌==◌, if◌then◌else◌, length, get_elem?, take, drop, Str,
}

-- `truncated` is errClientHelloTruncated, `read_error` any other error of the reader. `panic` and
-- `stuck` are no results of the source: an index out of range, and a loop out of fuel.
pub data Result {ℓ} (A : Type ℓ) : Type ℓ where
  ok : A → Result A
  truncated read_error panic stuck : Result A

infixl 5 ◌>>=◌
abbrev pub ◌>>=◌ {ℓ κ} : {A : Type ℓ} {B : Type κ} → Result A → (A → Result B) → Result B
ok a >>= f = f a
truncated >>= f = truncated
read_error >>= f = read_error
panic >>= f = panic
stuck >>= f = stuck

abbrev from_option {ℓ} : {A : Type ℓ} → Option A → Result A
from_option none = panic
from_option (some a) = ok a

-- xs[i]
index : List ℕ → ℕ → Result ℕ
index xs i = from_option (get_elem? xs i)

-- xs[lo:hi]
pub slice : List ℕ → ℕ → ℕ → Result (List ℕ)
slice xs lo hi = if leb lo hi && leb hi (length xs) then ok (take (hi - lo) (drop lo xs)) else panic

-- binary.BigEndian.Uint16
uint16 : List ℕ → Result ℕ
uint16 (hi ∷ lo ∷ _) = ok (hi * 256 + lo)
uint16 _ = panic

abbrev record_type_handshake : ℕ
record_type_handshake = 22

abbrev handshake_type_client_hello : ℕ
handshake_type_client_hello = 1

abbrev pub max_tls_record_len : ℕ
max_tls_record_len = 16384 + 2048

-- The loop over the names of the extension; the fuel bounds its rounds.
name_loop : ℕ → List ℕ → Result Str
name_loop zero names = stuck
name_loop (suc fuel) names =
    let next = (do
      name_type ← index names 0
      len_bytes ← slice names 1 3
      name_len ← uint16 len_bytes
      rest ← slice names 3 (length names)
      if ltb (length rest) name_len then truncated else do
        server_name ← slice rest 0 name_len
        after ← slice rest name_len (length rest)
        let more = name_loop fuel after
        if name_type == 0 then ok server_name else more) in
    if leb 3 (length names) then next else if ltb 0 (length names) then truncated else ok []

pub parse_server_name_extension : List ℕ → Result Str
parse_server_name_extension bytes = if ltb (length bytes) 2 then truncated else do
  len_bytes ← slice bytes 0 2
  list_len ← uint16 len_bytes
  if ltb (length bytes) (2 + list_len)
      then truncated
      else do names ← slice bytes 2 (2 + list_len); name_loop (suc (length names)) names

-- The loop over the extensions.
pub extension_loop : ℕ → List ℕ → Result Str
extension_loop zero extensions = stuck
extension_loop (suc fuel) extensions =
    let next = (do
      type_bytes ← slice extensions 0 2
      extension_type ← uint16 type_bytes
      len_bytes ← slice extensions 2 4
      extension_len ← uint16 len_bytes
      rest ← slice extensions 4 (length extensions)
      if ltb (length rest) extension_len then truncated else do
        extension_data ← slice rest 0 extension_len
        after ← slice rest extension_len (length rest)
        let more = extension_loop fuel after
        if extension_type == 0 then parse_server_name_extension extension_data else more) in
    if leb 4 (length extensions) then next else ok []

-- The offset behind a block of `hello` that one length byte counts.
skip8 : List ℕ → ℕ → Result ℕ
skip8 hello offset = if leb (length hello) offset then truncated else do
  block_len ← index hello offset
  if ltb (length hello) (offset + 1 + block_len) then truncated else ok (offset + 1 + block_len)

-- The offset behind a block that two length bytes count.
skip16 : List ℕ → ℕ → Result ℕ
skip16 hello offset = if ltb (length hello) (offset + 2) then truncated else do
  len_bytes ← slice hello offset (offset + 2)
  block_len ← uint16 len_bytes
  if ltb (length hello) (offset + 2 + block_len) then truncated else ok (offset + 2 + block_len)

-- From the extensions' length on.
parse_extensions : List ℕ → ℕ → Result Str
parse_extensions hello offset =
    if offset == length hello
    then ok []
    else if ltb (length hello) (offset + 2)
    then truncated
    else do
      len_bytes ← slice hello offset (offset + 2)
      extensions_len ← uint16 len_bytes
      if ltb (length hello) (offset + 2 + extensions_len) then truncated else do
        extensions ← slice hello (offset + 2) (offset + 2 + extensions_len)
        extension_loop (suc (length extensions)) extensions

-- The session id, the cipher suites and the compression methods, which stand behind the version
-- and the random bytes, and then the extensions.
parse_hello : List ℕ → Result Str
parse_hello hello = if ltb (length hello) 34 then truncated else do
  behind_session ← skip8 hello 34
  behind_ciphers ← skip16 hello behind_session
  behind_compression ← skip8 hello behind_ciphers
  parse_extensions hello behind_compression

parse_handshake : List ℕ → Result Str
parse_handshake body = if ltb (length body) 4 then ok [] else do
  handshake_type ← index body 0
  if not (handshake_type == handshake_type_client_hello) then ok [] else do
    b1 ← index body 1
    b2 ← index body 2
    b3 ← index body 3
    let hello_len = b1 * 65536 + b2 * 256 + b3
    if ltb (length body) (4 + hello_len)
        then truncated
        else do hello ← slice body 4 (4 + hello_len); parse_hello hello

pub parse_client_hello_server_name : List ℕ → Result Str
parse_client_hello_server_name bytes = if ltb (length bytes) 5 then truncated else do
  record_type ← index bytes 0
  if not (record_type == record_type_handshake) then ok [] else do
    len_bytes ← slice bytes 3 5
    record_len ← uint16 len_bytes
    if ltb (length bytes) (5 + record_len)
        then truncated
        else do body ← slice bytes 5 (5 + record_len); parse_handshake body

-- What bufio.Reader's Peek(n) gives: the next n bytes, or one of the two kinds of error that the
-- source tells apart, bufio.ErrBufferFull or io.EOF (`short`), and any other (`failed`).
pub data Peeked : Type 0 where
  peeked : List ℕ → Peeked
  short failed : Peeked

-- PeekClientHelloServerName: the name, whether the stream is TLS, and whether an error came back.
pub data PeekError : Type 0 where
  peek_truncated peek_read_error peek_fault : PeekError

pub record Sniff : Type 0 where
  pub server_name : Str
  pub is_tls : Bool
  pub error : Option PeekError

sniff_of : Result Str → Sniff
sniff_of (ok name) = record { server_name = name; is_tls = true; error = none }
sniff_of truncated = record { server_name = []; is_tls = true; error = some peek_truncated }
sniff_of read_error = record { server_name = []; is_tls = true; error = some peek_read_error }
sniff_of panic = record { server_name = []; is_tls = true; error = some peek_fault }
sniff_of stuck = record { server_name = []; is_tls = true; error = some peek_fault }

sniff_record : Peeked → Sniff
unfolding sniff_of
sniff_record (peeked bytes) = sniff_of (parse_client_hello_server_name bytes)
sniff_record short = record { server_name = []; is_tls = true; error = some peek_truncated }
sniff_record failed = record { server_name = []; is_tls = true; error = some peek_read_error }

no_tls : Sniff
no_tls = record { server_name = []; is_tls = false; error = none }

sniff_header : (ℕ → Peeked) → List ℕ → Sniff
unfolding sniff_record no_tls
sniff_header peek (kind ∷ major ∷ minor ∷ hi ∷ lo ∷ rest) =
    let record_len = hi * 256 + lo in
    if not (kind == record_type_handshake)
      || not (major == 3)
      || leb record_len 0
      || ltb max_tls_record_len record_len
    then no_tls
    else sniff_record (peek (5 + record_len))
sniff_header peek _ = record { server_name = []; is_tls = false; error = some peek_fault }

pub peek_client_hello_server_name : (ℕ → Peeked) → Sniff
unfolding sniff_header
peek_client_hello_server_name peek = elim (peek 5) [
  | peeked header ↦ sniff_header peek header
  | short ↦ record { server_name = []; is_tls = false; error = some peek_read_error }
  | failed ↦ record { server_name = []; is_tls = false; error = some peek_read_error }
]
