-- ===== src/HttpResponse.antt =====
-- pkg/protocol/http/response.go: reading the head of a response. The fields Request, which is the
-- argument, and Trailer, which is never set, are left out.
pub mod Read
pub mod Examples
use lhotse_agent.Prelude.{
  str_eq, ℕ, ◌+◌, Bool, true, false, not, ◌&&◌, ◌||◌, List, [], ◌∷◌, ◌++◌, Option, none, some,
  length, take, drop, ltb, leb, ◌==◌, if◌then◌else◌, Str, codes, is_empty, lookup, reverse,
}
use lhotse_agent.Prelude.Int.{ℤ, pos, negsuc}
use lhotse_agent.Remote.{Fallible, good, bad}
use lhotse_agent.HttpRequest.{
  Header, Lib, index_byte, parse_http_version, get, values, should_close, fix_pragma_cache_control,
  fill_content_length,
}
use lhotse_agent.HttpToken.{equal_fold, has_token}

pub record Response : Type 0 where
  pub status : Str
  pub status_code : ℕ
  pub proto : Str
  pub proto_major : ℕ
  pub proto_minor : ℕ
  pub header : Header
  pub content_length : ℤ
  pub transfer_encoding : List Str
  pub chunked : Bool
  pub close : Bool
  pub upgraded : Bool
  pub upgrade_type : Str

-- `read_failed` carries what the reader reports, with EOF as unexpected EOF.
pub data Error : Type 0 where
  read_failed malformed_response malformed_status malformed_version : Str → Error

pub data Result : Type 0 where
  ok : Response → Result
  err : Error → Result

-- io.EOF becomes io.ErrUnexpectedEOF.
unexpected : Str → Str
unexpected e = if str_eq e (codes "EOF") then codes "unexpected EOF" else e

-- strings.TrimLeft(s, " ")
pub trim_left_blank : Str → Str
trim_left_blank [] = []
trim_left_blank (c ∷ s) = let rest = trim_left_blank s in if c == 32 then rest else c ∷ s

-- textproto.TrimString
is_ascii_space : ℕ → Bool
is_ascii_space c = c == 32 || c == 9 || c == 10 || c == 13

trim_left_ascii : Str → Str
unfolding is_ascii_space
trim_left_ascii [] = []
trim_left_ascii (c ∷ s) = let rest = trim_left_ascii s in if is_ascii_space c then rest else c ∷ s

pub trim_string : Str → Str
unfolding trim_left_ascii
trim_string s = reverse (trim_left_ascii (reverse (trim_left_ascii s)))

-- The status up to its first space.
pub code_text : Str → Str
code_text status = elim (index_byte 32 status) [ none ↦ status | some i ↦ take i status ]

pub at_least : ℕ × ℕ → ℕ → ℕ → Bool
at_least version m n = ltb m version.0 || (version.0 == m && leb n version.1)

-- parseTransferEncoding; its error is not looked at.
one_chunked : List Str → Bool
unfolding trim_string
one_chunked [] = false
one_chunked (v ∷ []) = equal_fold (trim_string v) (codes "chunked")
one_chunked (v ∷ w ∷ vs) = false

pub parse_transfer_encoding : ℕ × ℕ → Header → Bool
unfolding one_chunked at_least
parse_transfer_encoding version h =
    at_least version 1 1 && one_chunked (values h (codes "Transfer-Encoding"))

-- fillRespUpgrade
pub is_upgrade : ℕ → Header → Bool
unfolding trim_string
is_upgrade code h =
    code == 101
    && not (is_empty (trim_string (get h (codes "Upgrade"))))
    && has_token (get h (codes "Connection")) (codes "upgrade")

pub build : Lib → Str → Str → ℕ → ℕ × ℕ → Header → Response
unfolding parse_transfer_encoding is_upgrade trim_string
build l proto status code version h0 =
    let h = fix_pragma_cache_control h0 in
    record {
      status = status;
      status_code = code;
      proto = proto;
      proto_major = version.0;
      proto_minor = version.1;
      header = h;
      content_length = fill_content_length l h;
      transfer_encoding = values h (codes "Transfer-Encoding");
      chunked = parse_transfer_encoding version h;
      close = (should_close l version.0 version.1 h false).0;
      upgraded = is_upgrade code h;
      upgrade_type = trim_string (get h (codes "Upgrade"));
    }

read_header : Lib → Str → Str → ℕ → ℕ × ℕ → Fallible Header → Result
unfolding build unexpected
read_header l proto status code version (bad e) = err (read_failed (unexpected e))
read_header l proto status code version (good h) = ok (build l proto status code version h)

read_version : Lib → Str → Str → ℕ → Fallible Header → Option (ℕ × ℕ) → Result
unfolding read_header
read_version l proto status code head none = err (malformed_version proto)
read_version l proto status code head (some version) = read_header l proto status code version head

read_code : Lib → Str → Str → Fallible Header → ℤ × Bool → Result
unfolding read_version code_text
read_code l proto status head (pos code, true) =
    read_version l proto status code head (parse_http_version l proto)
read_code l proto status head (pos code, false) = err (malformed_status (code_text status))
read_code l proto status head (negsuc n, fine) = err (malformed_status (code_text status))

read_status : Lib → Str → Str → Fallible Header → Result
unfolding read_code code_text
read_status l proto status head =
    if not (length (code_text status) == 3)
    then err (malformed_status (code_text status))
    else read_code l proto status head (l.atoi (code_text status))

read_line : Lib → Str → Fallible Header → Option ℕ → Result
unfolding read_status trim_left_blank
read_line l line head none = err (malformed_response line)
read_line l line head (some i) =
    read_status l (take i line) (trim_left_blank (drop (i + 1) line)) head

-- ReadResponse: `line` and `head` are what ReadLine and ReadMIMEHeader of the reader return.
pub read_response : Lib → Fallible Str → Fallible Header → Result
unfolding read_line unexpected
read_response l (bad e) head = err (read_failed (unexpected e))
read_response l (good line) head = read_line l line head (index_byte 32 line)

pub format_status_line : Response → Str
format_status_line r = r.proto ++ (32 ∷ r.status)
