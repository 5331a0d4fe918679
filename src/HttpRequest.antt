-- ===== src/HttpRequest.antt =====
-- pkg/protocol/http/request.go: reading the head of a request. `Lib` holds what the source calls of
-- net/url, strconv, httpguts and package net. A header maps canonical keys to lists of values; the
-- fields RemoteAddr and LocalAddr, which ReadRequest does not set, are left out.
pub mod Line
pub mod Accepted
pub mod Examples
use lhotse_agent.Prelude.{
  ℕ, ◌+◌, ◌-◌, ◌%◌, ◌^◌, Bool, true, false, not, ◌&&◌, ◌||◌, List, [], ◌∷◌, ◌++◌, Option, none,
  some, length, take, drop, ltb, leb, ◌==◌, if◌then◌else◌, Str, codes, str_eq, is_empty, has_prefix,
  trim_prefix, lookup, insert, delete,
}
use lhotse_agent.Prelude.Int.{ℤ, pos, negsuc}
use lhotse_agent.Net.{Net}
use lhotse_agent.Remote.{Fallible, good, bad}

abbrev pub Header : Type 0
Header = List (Str × List Str)

pub record Url : Type 0 where
  pub scheme : Str
  pub host : Str
  pub port : Str

-- `atoi` is the number that Atoi returns and whether it returns no error.
pub record Lib : Type 0 where
  pub net : Net
  pub parse_request_uri : Str → Fallible Url
  pub atoi : Str → ℤ × Bool
  pub contains_token : List Str → Str → Bool
  pub is_token_rune : ℕ → Bool

pub record Request : Type 0 where
  pub method : Str
  pub proto : Str
  pub proto_major : ℕ
  pub proto_minor : ℕ
  pub url : Url
  pub port : ℤ
  pub authority : Str
  pub header : Header
  pub content_length : ℤ
  pub transfer_encoding : List Str
  pub host : Str
  pub request_uri : Str
  pub close : Bool

pub data Error : Type 0 where
  read_failed malformed_request invalid_method malformed_version : Str → Error
  invalid_uri : Str → Error
  too_many_hosts : Error

pub data Result : Type 0 where
  ok : Request → Result
  err : Error → Result

-- strings.Index for a string of one byte.
unfoldable pub index_byte : ℕ → Str → Option ℕ
index_byte b [] = none
index_byte b (c ∷ s) =
    let rest = index_byte b s in
    if c == b then some 0 else elim rest [ none ↦ none | some i ↦ some (i + 1) ]

pub parse_request_line : Str → Option (Str × Str × Str)
parse_request_line line = elim (index_byte 32 line) [
  | none ↦ none
  | some s1 ↦ elim (index_byte 32 (drop (s1 + 1) line)) [
    | none ↦ none
    | some i ↦
        let s2 = i + (s1 + 1) in
        some (take s1 line, take (s2 - (s1 + 1)) (drop (s1 + 1) line), drop (s2 + 1) line)
  ]
]

all_token : Lib → Str → Bool
all_token l [] = true
all_token l (c ∷ s) = l.is_token_rune c && all_token l s

pub valid_method : Lib → Str → Bool
unfolding all_token
valid_method l method = not (is_empty method) && all_token l method

abbrev pub big : ℕ
big = 1000000

-- A number of a version: not negative and at most Big.
version_number : ℤ × Bool → Option ℕ
version_number (pos n, true) = if ltb big n then none else some n
version_number (pos n, false) = none
version_number (negsuc n, fine) = none

-- A version other than the two common ones.
other_version : Lib → Str → Option (ℕ × ℕ)
unfolding version_number
other_version l vers = elim (index_byte 46 vers) [
  | none ↦ none
  | some dot ↦ elim (version_number (l.atoi (drop 5 (take dot vers)))) [
    | none ↦ none
    | some major ↦ elim (version_number (l.atoi (drop (dot + 1) vers))) [
      | none ↦ none
      | some minor ↦ some (major, minor)
    ]
  ]
]

unfoldable pub parse_http_version : Lib → Str → Option (ℕ × ℕ)
unfolding other_version
parse_http_version l vers =
    if str_eq vers (codes "HTTP/1.1")
    then some (1, 1)
    else if str_eq vers (codes "HTTP/1.0")
    then some (1, 0)
    else if not (has_prefix vers (codes "HTTP/"))
    then none
    else other_version l vers

-- h[key] and Header.get
unfoldable pub values : Header → Str → List Str
values h key = elim (lookup key h) [ none ↦ [] | some vs ↦ vs ]

unfoldable pub first : List Str → Str
first [] = []
first (v ∷ vs) = v

unfoldable pub get : Header → Str → Str
unfolding first values
get h key = first (values h key)

-- shouldClose: the answer, and the header, from which it may remove Connection.
pub should_close : Lib → ℕ → ℕ → Header → Bool → Bool × Header
unfolding values
should_close l major minor h remove =
    let conv = values h (codes "Connection") in
    let has_close = l.contains_token conv (codes "close") in
    if ltb major 1
    then (true, h)
    else if (major == 1) && (minor == 0)
    then (has_close || not (l.contains_token conv (codes "keep-alive")), h)
    else (has_close, if has_close && remove then delete (codes "Connection") h else h)

unfoldable pub fix_pragma_cache_control : Header → Header
unfolding values first
fix_pragma_cache_control h =
    let hp = values h (codes "Pragma") in
    if not (is_empty (first hp)) && str_eq (first hp) (codes "no-cache")
    then elim (lookup (codes "Cache-Control") h) [
      | some present ↦ h
      | none ↦ insert (codes "Cache-Control") (codes "no-cache" ∷ []) h
    ]
    else h

-- The conversion int32(n).
signed32 : ℕ → ℤ
signed32 m = if ltb m (2 ^ 31) then pos m else negsuc (2 ^ 32 - m - 1)

pub to_int32 : ℤ → ℤ
unfolding signed32
to_int32 (pos n) = signed32 (n % 2 ^ 32)
to_int32 (negsuc n) = signed32 (2 ^ 32 - 1 - n % 2 ^ 32)

-- The text behind the last colon.
behind_last_colon : Str → Str
behind_last_colon [] = []
behind_last_colon (c ∷ s) =
    let rest = behind_last_colon s in
    elim (index_byte 58 s) [ some i ↦ rest | none ↦ if c == 58 then s else c ∷ s ]

-- fillPort; its error is not looked at.
fill_port : Lib → Str → Url → Str → ℤ
unfolding behind_last_colon
fill_port l method url host =
    if not (is_empty url.port)
    then to_int32 (l.atoi url.port).0
    else if str_eq method (codes "CONNECT")
    then pos 443
    else if is_empty host
    then pos 0
    else elim (l.net.split_host_port host) [
      | some parts ↦ to_int32 (l.atoi (behind_last_colon host)).0
      | none ↦ pos 80
    ]

-- fillContentLength; its error is not looked at.
parsed_length : ℤ × Bool → ℤ
parsed_length (n, true) = n
parsed_length (n, false) = negsuc 0

pub fill_content_length : Lib → Header → ℤ
unfolding get parsed_length
fill_content_length l h =
    let text = get h (codes "Content-Length") in
    if is_empty text then negsuc 0 else parsed_length (l.atoi text)

or_else : Str → Str → Str
or_else s t = if is_empty s then t else s

-- ReadRequest behind the reading of the header.
pub build : Lib → Str → Str → Str → ℕ × ℕ → Url → Header → Request
unfolding get or_else fill_port fill_content_length fix_pragma_cache_control values
build l method uri proto version url h0 =
    let host = or_else url.host (get h0 (codes "Host")) in
    let closing = should_close l version.0 version.1 h0 false in
    let h = fix_pragma_cache_control closing.1 in
    record {
      method = method;
      proto = proto;
      proto_major = version.0;
      proto_minor = version.1;
      url = url;
      port = fill_port l method url host;
      authority = or_else url.host host;
      header = h;
      content_length = fill_content_length l h;
      transfer_encoding = values h (codes "Transfer-Encoding");
      host = host;
      request_uri = uri;
      close = closing.0;
    }

read_header : Lib → Str → Str → Str → ℕ × ℕ → Url → Fallible Header → Result
unfolding values
read_header l method uri proto version url (bad e) = err (read_failed e)
read_header l method uri proto version url (good h) =
    if ltb 1 (length (values h (codes "Host")))
    then err too_many_hosts
    else ok (build l method uri proto version url h)

-- The URL of a request; that of CONNECT, an authority alone, is parsed behind a scheme that is then
-- removed.
request_url : Lib → Str → Str → Fallible Url
request_url l method uri =
    if str_eq method (codes "CONNECT") && not (has_prefix uri (codes "/"))
    then elim (l.parse_request_uri (codes "http://" ++ uri)) [
      | good url ↦ good (record url { scheme = [] })
      | bad e ↦ bad e
    ]
    else l.parse_request_uri uri

read_url : Lib → Str → Str → Str → ℕ × ℕ → Fallible Header → Fallible Url → Result
unfolding read_header
read_url l method uri proto version head (bad e) = err (invalid_uri e)
read_url l method uri proto version head (good url) =
    read_header l method uri proto version url head

read_version : Lib → Str → Str → Str → Fallible Header → Option (ℕ × ℕ) → Result
unfolding request_url read_url
read_version l method uri proto head none = err (malformed_version proto)
read_version l method uri proto head (some version) =
    read_url l method uri proto version head (request_url l method uri)

read_line : Lib → Str → Fallible Header → Option (Str × Str × Str) → Result
unfolding read_version
read_line l line head none = err (malformed_request line)
read_line l line head (some (method, uri, proto)) =
    if not (valid_method l method)
    then err (invalid_method method)
    else read_version l method uri proto head (parse_http_version l proto)

-- ReadRequest: `line` and `head` are what ReadLine and ReadMIMEHeader of the reader return.
pub read_request : Lib → Fallible Str → Fallible Header → Result
unfolding read_line
read_request l (bad e) head = err (read_failed e)
read_request l (good line) head = read_line l line head (parse_request_line line)

pub format_request_line : Request → Str
format_request_line r = r.method ++ (32 ∷ (r.request_uri ++ (32 ∷ r.proto)))

-- TargetDomain
bracketed : Str → Option Str
bracketed host =
    if not (has_prefix host (codes "["))
    then none
    else elim (index_byte 93 (trim_prefix host (codes "["))) [
      | none ↦ none
      | some i ↦ some (take i (trim_prefix host (codes "[")))
    ]

split_domain : Lib → Str → Str
split_domain l host = elim (l.net.split_host_port host) [ none ↦ host | some (h, p) ↦ h ]

pub target_domain : Lib → Request → Str
unfolding or_else bracketed split_domain
target_domain l r =
    let host = or_else r.host r.authority in
    if is_empty host
    then []
    else elim (bracketed host) [ some domain ↦ domain | none ↦ split_domain l host ]
