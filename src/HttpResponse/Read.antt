-- ===== src/HttpResponse/Read.antt =====
-- What a response that ReadResponse of pkg/protocol/http/response.go accepts looks like.
use lhotse_agent.Prelude.{
  append_assoc, zero, length-append, ℕ, suc, ◌+◌, ◌≤◌, ◌≡◌, refl, sym, ap, ◌∙◌, subst, inl, inr,
  Bool, true, false, [], ◌∷◌, ◌++◌, Option, none, some, arith, length, take, drop,
  take-length_append, drop-length_append, ◌==◌, Str, Bool-cases,
}
use lhotse_agent.Prelude.Int.{ℤ, pos, negsuc}
use lhotse_agent.Remote.{Fallible, good, bad}
use lhotse_agent.HttpRequest.{Header, Lib, index_byte, parse_http_version, big}
use lhotse_agent.HttpRequest.Line.{Lacks, index_byte-Split}
use lhotse_agent.HttpRequest.Accepted.{parse_http_version_bound}
use lhotse_agent.HttpResponse.{
  Response, ok, trim_left_blank, code_text, at_least, parse_transfer_encoding, is_upgrade, build,
  read_header, read_version, read_code, read_status, read_line, read_response,
}

-- Spaces, as many as told.
abbrev pub blanks : ℕ → Str
blanks zero = []
blanks (suc n) = 32 ∷ blanks n

trim_left_blank_parts : (s : Str) → (n : ℕ) × (s ≡ blanks n ++ trim_left_blank s)
unfolding trim_left_blank
trim_left_blank_parts [] = (0, refl)
trim_left_blank_parts (c ∷ s) = elim (Bool-cases (c == 32)) [
  | inl blank ↦
      let rest = trim_left_blank_parts s in
      (suc rest.0, rw blank (let e : c ≡ 32 = ground arith in rw e (ap (◌∷◌ 32) rest.1)))
  | inr other ↦ (0, rw other refl)
]

-- The response is well formed with respect to the line and the header it was read from.
pub record Reads (l : Lib) (line : Str) (head : Fallible Header) (r : Response) : Type 0 where
  pub padding : ℕ
  pub same_line : line ≡ r.proto ++ (32 ∷ (blanks padding ++ r.status))
  pub proto_clean : Lacks 32 r.proto
  pub three_bytes : length (code_text r.status) ≡ 3
  pub code : l.atoi (code_text r.status) ≡ (pos r.status_code, true)
  pub major_bound : r.proto_major ≤ big
  pub minor_bound : r.proto_minor ≤ big
  pub header : Header
  pub header_read : head ≡ good header
  pub chunked_version : r.chunked ≡ true → at_least (r.proto_major, r.proto_minor) 1 1 ≡ true
  pub upgraded_code : r.upgraded ≡ true → r.status_code ≡ 101

is_upgrade_code : (code : ℕ) (h : Header) → is_upgrade code h ≡ true → code ≡ 101
unfolding is_upgrade
is_upgrade_code code h e = ground arith

chunked_at_least :
    (version : ℕ × ℕ) (h : Header)
    → parse_transfer_encoding version h ≡ true
    → at_least version 1 1 ≡ true
unfolding parse_transfer_encoding
chunked_at_least version h e = ground arith

module _ (l : Lib) (line proto status : Str) (head : Fallible Header) (r : Response) (pad : ℕ)
    (parts : line ≡ proto ++ (32 ∷ (blanks pad ++ status))) (clean : Lacks 32 proto) where
  read_header-Reads :
      (code : ℕ) (version : ℕ × ℕ) (read : Fallible Header)
      → head ≡ read
      → length (code_text status) ≡ 3
      → l.atoi (code_text status) ≡ (pos code, true)
      → (version.0 ≤ big) × (version.1 ≤ big)
      → read_header l proto status code version read ≡ ok r
      → Reads l line head r
  unfolding read_header build
  read_header-Reads code version (bad e) eh three a b h = absurd (let clash = h in cc)
  read_header-Reads code version (good hs) eh three a b h =
      let same : build l proto status code version hs ≡ r = cc h in
      subst (Reads l line head) same (record {
        padding = pad;
        same_line = parts;
        proto_clean = clean;
        three_bytes = three;
        code = a;
        major_bound = b.0;
        minor_bound = b.1;
        header = hs;
        header_read = eh;
        chunked_version = chunked_at_least version _;
        upgraded_code = is_upgrade_code code _;
      })

  read_version-Reads :
      (code : ℕ) (version : Option (ℕ × ℕ))
      → parse_http_version l proto ≡ version
      → length (code_text status) ≡ 3
      → l.atoi (code_text status) ≡ (pos code, true)
      → read_version l proto status code head version ≡ ok r
      → Reads l line head r
  unfolding read_version
  read_version-Reads code none ev three a h = absurd (let clash = h in cc)
  read_version-Reads code (some v) ev three a h =
      read_header-Reads code v head refl three a (parse_http_version_bound l proto v ev) h

  read_code-Reads :
      (answer : ℤ × Bool)
      → l.atoi (code_text status) ≡ answer
      → length (code_text status) ≡ 3
      → read_code l proto status head answer ≡ ok r
      → Reads l line head r
  unfolding read_code
  read_code-Reads (pos code, true) a three h =
      read_version-Reads code (parse_http_version l proto) refl three a h
  read_code-Reads (pos code, false) a three h = absurd (let clash = h in cc)
  read_code-Reads (negsuc n, fine) a three h = absurd (let clash = h in cc)

  read_status-Reads : read_status l proto status head ≡ ok r → Reads l line head r
  unfolding read_status
  read_status-Reads h = elim (Bool-cases (length (code_text status) == 3)) [
    | inr other ↦ absurd (let clash = rw other at h in cc)
    | inl three ↦
        read_code-Reads (l.atoi (code_text status)) refl (ground arith)
          (let rest = rw three at h in rest)
  ]

drop_behind :
    (before after : Str) (i : ℕ) (line : Str)
    → i ≡ length before
    → line ≡ before ++ (32 ∷ after)
    → drop (i + 1) line ≡ after
drop_behind before after i line place joined =
    let shift : i + 1 ≡ length (before ++ 32 ∷ []) =
      omega (arith, place, length-append before (32 ∷ [])) in
    let whole : line ≡ (before ++ 32 ∷ []) ++ after =
      joined ∙ sym (append_assoc before (32 ∷ []) after) in
    rw (shift, whole) (drop-length_append (before ++ 32 ∷ []) after)

read_line-Reads :
    (l : Lib) (line : Str) (head : Fallible Header) (r : Response) (place : Option ℕ)
    → index_byte 32 line ≡ place
    → read_line l line head place ≡ ok r
    → Reads l line head r
unfolding read_line
read_line-Reads l line head r none e h = absurd (let clash = h in cc)
read_line-Reads l line head r (some i) e h =
    let split = index_byte-Split 32 line i e in
    let blank = trim_left_blank_parts split.after in
    let behind : drop (i + 1) line ≡ split.after =
      drop_behind split.before split.after i line split.place split.joined in
    let before : take i line ≡ split.before =
      rw (split.joined, split.place) (take-length_append split.before (32 ∷ split.after)) in
    read_status-Reads l line split.before (trim_left_blank split.after) head r blank.0
      (split.joined ∙ ap (λ (x : Str). split.before ++ (32 ∷ x)) blank.1) split.clean
      (let rest = rw (before, behind) at h in rest)

-- A response that ReadResponse accepts came from a line that is its version, a space, any further
-- spaces and its status; the status begins with three bytes, which Atoi reads as its code; the
-- version has no space in it and numbers of at most 1000000; it is taken as chunked only from
-- version 1.1 on and as upgraded only with the code 101.
pub read_response-Reads :
    (l : Lib) (line : Str) (head : Fallible Header) (r : Response)
    → read_response l (good line) head ≡ ok r
    → Reads l line head r
unfolding read_response
read_response-Reads l line head r h = read_line-Reads l line head r (index_byte 32 line) refl h
