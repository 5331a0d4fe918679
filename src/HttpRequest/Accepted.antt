-- ===== src/HttpRequest/Accepted.antt =====
-- What a request that ReadRequest of pkg/protocol/http/request.go accepts looks like.
use lhotse_agent.Prelude.{
  ◌+◌, take, drop, Bool, ℕ, ◌≤◌, ◌≡◌, refl, sym, subst, inl, inr, true, false, Option, none, some,
  arith, ltb, length, Str, codes, str_eq, has_prefix, Bool-cases, Option-cases,
}
use lhotse_agent.Prelude.Int.{ℤ, pos, negsuc}
use lhotse_agent.Remote.{Fallible, good, bad}
use lhotse_agent.HttpRequest.{
  Header, Url, Lib, Request, ok, index_byte, parse_request_line, valid_method, big, version_number,
  other_version, parse_http_version, values, build, read_header, request_url, read_url,
  read_version, read_line, read_request, format_request_line,
}
use lhotse_agent.HttpRequest.Line.{line_of, parse_request_line_iff}

-- The request is well formed with respect to the line and the header it was read from.
pub record Accepts (l : Lib) (line : Str) (head : Fallible Header) (r : Request) : Type 0 where
  pub same_line : format_request_line r ≡ line
  pub method_valid : valid_method l r.method ≡ true
  pub major_bound : r.proto_major ≤ big
  pub minor_bound : r.proto_minor ≤ big
  pub header : Header
  pub header_read : head ≡ good header
  pub one_host : length (values header (codes "Host")) ≤ 1

version_number_bound : (a : ℤ × Bool) (n : ℕ) → version_number a ≡ some n → n ≤ big
unfolding version_number
version_number_bound (pos m, true) n h = elim (Bool-cases (ltb big m)) [
  | inl large ↦ absurd (let clash = rw large at h in cc)
  | inr fits ↦ let same : m ≡ n = cc (rw fits at h) in ground (arith, same)
]
version_number_bound (pos m, false) n h = absurd (let clash = h in cc)
version_number_bound (negsuc m, fine) n h = absurd (let clash = h in cc)

other_version_bound :
    (l : Lib) (vers : Str) (v : ℕ × ℕ) → other_version l vers ≡ some v → (v.0 ≤ big) × (v.1 ≤ big)
unfolding other_version
other_version_bound l vers v h = elim (Option-cases (index_byte 46 vers)) [
  | inl no_dot ↦ absurd (let clash = rw (no_dot, other_version) at h in cc)
  | inr (dot, e) ↦ elim (Option-cases (version_number (l.atoi (drop 5 (take dot vers))))) [
    | inl bad_major ↦ absurd (let clash = rw (e, bad_major, other_version) at h in cc)
    | inr (major, f) ↦ elim (Option-cases (version_number (l.atoi (drop (dot + 1) vers)))) [
      | inl bad_minor ↦ absurd (let clash = rw (e, f, bad_minor, other_version) at h in cc)
      | inr (minor, g) ↦
          let same : (major, minor) ≡ v = cc (rw (e, f, g, other_version) at h) in
          subst (λ (x : ℕ × ℕ). (x.0 ≤ big) × (x.1 ≤ big)) same
            (
              version_number_bound (l.atoi (drop 5 (take dot vers))) major f,
              version_number_bound (l.atoi (drop (dot + 1) vers)) minor g,
            )
    ]
  ]
]

pub parse_http_version_bound :
    (l : Lib) (vers : Str) (v : ℕ × ℕ)
    → parse_http_version l vers ≡ some v
    → (v.0 ≤ big) × (v.1 ≤ big)
unfolding parse_http_version
parse_http_version_bound l vers v h = elim (Bool-cases (str_eq vers (codes "HTTP/1.1"))) [
  | inl e ↦
      let same : (1, 1) ≡ v = cc (rw e at h) in
      subst (λ (x : ℕ × ℕ). (x.0 ≤ big) × (x.1 ≤ big)) same (omega arith, omega arith)
  | inr a ↦ elim (Bool-cases (str_eq vers (codes "HTTP/1.0"))) [
    | inl e ↦
        let same : (1, 0) ≡ v = cc (rw (a, e) at h) in
        subst (λ (x : ℕ × ℕ). (x.0 ≤ big) × (x.1 ≤ big)) same (omega arith, omega arith)
    | inr b ↦ elim (Bool-cases (has_prefix vers (codes "HTTP/"))) [
      | inr other ↦ absurd (let clash = rw (a, b, other) at h in cc)
      | inl p ↦ other_version_bound l vers v (rw (a, b, p) at h)
    ]
  ]
]

module _ (l : Lib) (line method uri proto : Str) (head : Fallible Header) (r : Request) where
  read_header-Accepts :
      (version : ℕ × ℕ) (url : Url) (read : Fallible Header)
      → head ≡ read
      → line_of method uri proto ≡ line
      → valid_method l method ≡ true
      → (version.0 ≤ big) × (version.1 ≤ big)
      → read_header l method uri proto version url read ≡ ok r
      → Accepts l line head r
  unfolding read_header build format_request_line
  read_header-Accepts version url (bad e) eh el m b h = absurd (let clash = h in cc)
  read_header-Accepts version url (good hs) eh el m b h =
      elim (Bool-cases (ltb 1 (length (values hs (codes "Host"))))) [
        | inl many ↦ absurd (let clash = rw many at h in cc)
        | inr one ↦
            let same : build l method uri proto version url hs ≡ r = cc (rw one at h) in
            subst (Accepts l line head) same (record {
              same_line = el;
              method_valid = m;
              major_bound = b.0;
              minor_bound = b.1;
              header = hs;
              header_read = eh;
              one_host = ground arith;
            })
      ]

  read_url-Accepts :
      (version : ℕ × ℕ) (url : Fallible Url)
      → line_of method uri proto ≡ line
      → valid_method l method ≡ true
      → (version.0 ≤ big) × (version.1 ≤ big)
      → read_url l method uri proto version head url ≡ ok r
      → Accepts l line head r
  unfolding read_url
  read_url-Accepts version (bad e) el m b h = absurd (let clash = h in cc)
  read_url-Accepts version (good url) el m b h = read_header-Accepts version url head refl el m b h

  read_version-Accepts :
      (version : Option (ℕ × ℕ))
      → parse_http_version l proto ≡ version
      → line_of method uri proto ≡ line
      → valid_method l method ≡ true
      → read_version l method uri proto head version ≡ ok r
      → Accepts l line head r
  unfolding read_version
  read_version-Accepts none ev el m h = absurd (let clash = h in cc)
  read_version-Accepts (some v) ev el m h =
      read_url-Accepts v (request_url l method uri) el m (parse_http_version_bound l proto v ev) h

read_line-Accepts :
    (l : Lib) (line : Str) (head : Fallible Header) (r : Request) (parts : Option (Str × Str × Str))
    → parse_request_line line ≡ parts
    → read_line l line head parts ≡ ok r
    → Accepts l line head r
unfolding read_line
read_line-Accepts l line head r none e h = absurd (let clash = h in cc)
read_line-Accepts l line head r (some (method, uri, proto)) e h =
    elim (Bool-cases (valid_method l method)) [
      | inr odd ↦ absurd (let clash = rw odd at h in cc)
      | inl fine ↦
          read_version-Accepts l line method uri proto head r (parse_http_version l proto) refl
            (sym ((parse_request_line_iff line method uri proto).0 e).0) fine (rw fine at h)
    ]

-- A request that ReadRequest accepts has a valid method and a version whose numbers are at most
-- 1000000, its header was read and names at most one Host, and FormatRequestLine gives back exactly
-- the line that was read.
pub read_request-Accepts :
    (l : Lib) (line : Str) (head : Fallible Header) (r : Request)
    → read_request l (good line) head ≡ ok r
    → Accepts l line head r
unfolding read_request
read_request-Accepts l line head r h =
    read_line-Accepts l line head r (parse_request_line line) refl h
