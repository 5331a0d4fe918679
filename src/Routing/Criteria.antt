-- ===== src/Routing/Criteria.antt =====
-- When a request meets the criteria of a route in cmd/proxy/data/config.go.
use lhotse_agent.Prelude.{
  ◌≡◌, refl, ap, ◌↔◌, ◌⊎◌, inl, inr, Bool, true, false, ◌&&◌, List, [], ◌∷◌, arith, All, Str,
  Bool-cases,
}
use lhotse_agent.Prelude.Int.{ℤ, pos, negsuc}
use lhotse_agent.HttpRequest.{Request, get}
use lhotse_agent.Routing.{
  Outside, StringMatch, match_empty, HttpMatchRequest, value_fits, check_match, headers_loop,
  without_loop, params_loop, int_eq, port_fits, request_matches,
}
use lhotse_agent.Routing.Fits.{
  Fits, Meets, value_fits-Fits, Fits-value_fits, matched_iff, passes_iff,
}

abbrev pub HeaderFits : Outside → Request → Str × StringMatch → Type 0
HeaderFits o r e = Fits o e.1 false (get r.header (o.canonical e.0))

abbrev pub ParamFits : Outside → Request → Str × StringMatch → Type 0
ParamFits o r e = Fits o e.1 false (o.query r e.0)

module _ (o : Outside) (r : Request) where
  abbrev pub AllSet : List (Str × StringMatch) → Type 0
  AllSet = All (λ (e : Str × StringMatch). match_empty e.1 ≡ false)

  headers_sound :
      (matched : Bool) (es : List (Str × StringMatch))
      → AllSet es
      → headers_loop o r matched es ≡ true
      → All (HeaderFits o r) es
  unfolding headers_loop check_match
  headers_sound matched [] set h = _
  headers_sound matched ((header, m) ∷ es) set h =
      let v = get r.header (o.canonical header) in
      elim (Bool-cases (value_fits o m v false)) [
        | inl fits ↦ (
          value_fits-Fits o m false v fits,
          headers_sound true es set.1 (let more = rw (set.0, fits) at h in more),
        )
        | inr other ↦ absurd (let clash = rw (set.0, other) at h in cc)
      ]

  headers_complete :
      (matched : Bool) (es : List (Str × StringMatch))
      → AllSet es
      → matched ≡ true
      → All (HeaderFits o r) es
      → headers_loop o r matched es ≡ true
  unfolding headers_loop check_match
  headers_complete matched [] set start a = start
  headers_complete matched ((header, m) ∷ es) set start a =
      let fits = Fits-value_fits o m false (get r.header (o.canonical header)) a.0 in
      rw (set.0, fits) (headers_complete true es set.1 refl a.1)

  abbrev pub NoHeader : List (Str × StringMatch) → Type 0
  NoHeader = All (λ (e : Str × StringMatch). HeaderFits o r e → ⊥)

  abbrev pub NoParam : List (Str × StringMatch) → Type 0
  NoParam = All (λ (e : Str × StringMatch). ParamFits o r e → ⊥)

  check_match-Fits :
      (m : StringMatch) (v : Str)
      → (check_match o m v false).1 && (check_match o m v false).0 ≡ false
      → Fits o m false v
      → ⊥
  check_match-Fits m v unmet f =
      let met = (matched_iff o m false v).1 f in absurd (let clash = rw unmet at met in cc)

  without_sound : (es : List (Str × StringMatch)) → without_loop o r es ≡ false → NoHeader es
  unfolding without_loop
  without_sound [] h = _
  without_sound ((header, m) ∷ es) h =
      let v = get r.header (o.canonical header) in
      elim (Bool-cases ((check_match o m v false).1 && (check_match o m v false).0)) [
        | inl met ↦ absurd (let clash = rw met at h in cc)
        | inr unmet ↦
            (check_match-Fits m v unmet, without_sound es (let more = rw unmet at h in more))
      ]

  without_complete : (es : List (Str × StringMatch)) → NoHeader es → without_loop o r es ≡ false
  unfolding without_loop
  without_complete [] a = refl
  without_complete ((header, m) ∷ es) a =
      let v = get r.header (o.canonical header) in
      elim (Bool-cases ((check_match o m v false).1 && (check_match o m v false).0)) [
        | inl met ↦ absurd (a.0 ((matched_iff o m false v).0 met))
        | inr unmet ↦ rw unmet (without_complete es a.1)
      ]

  params_sound : (es : List (Str × StringMatch)) → params_loop o r es ≡ true → NoParam es
  unfolding params_loop
  params_sound [] h = _
  params_sound ((name, m) ∷ es) h =
      let v = o.query r name in
      elim (Bool-cases ((check_match o m v false).1 && (check_match o m v false).0)) [
        | inl met ↦ absurd (let clash = rw met at h in cc)
        | inr unmet ↦
            (check_match-Fits m v unmet, params_sound es (let more = rw unmet at h in more))
      ]

  params_complete : (es : List (Str × StringMatch)) → NoParam es → params_loop o r es ≡ true
  unfolding params_loop
  params_complete [] a = refl
  params_complete ((name, m) ∷ es) a =
      let v = o.query r name in
      elim (Bool-cases ((check_match o m v false).1 && (check_match o m v false).0)) [
        | inl met ↦ absurd (a.0 ((matched_iff o m false v).0 met))
        | inr unmet ↦ rw unmet (params_complete es a.1)
      ]

  int_eq_sound : (a b : ℤ) → int_eq a b ≡ true → a ≡ b
  unfolding int_eq
  int_eq_sound (pos a) (pos b) h = ap pos (ground arith)
  int_eq_sound (pos a) (negsuc b) h = absurd (let clash = h in cc)
  int_eq_sound (negsuc a) (pos b) h = absurd (let clash = h in cc)
  int_eq_sound (negsuc a) (negsuc b) h = ap negsuc (ground arith)

  int_eq_refl : (a : ℤ) → int_eq a a ≡ true
  unfolding int_eq
  int_eq_refl (pos a) = ground arith
  int_eq_refl (negsuc a) = ground arith

  port_sound : (wanted port : ℤ) → port_fits wanted port ≡ true → (wanted ≡ pos 0) ⊎ (wanted ≡ port)
  unfolding port_fits
  port_sound wanted port h = elim (Bool-cases (int_eq wanted (pos 0))) [
    | inl any ↦ inl (int_eq_sound wanted (pos 0) any)
    | inr one ↦ inr (int_eq_sound wanted port (let same = rw one at h in same))
  ]

  port_complete :
      (wanted port : ℤ) → (wanted ≡ pos 0) ⊎ (wanted ≡ port) → port_fits wanted port ≡ true
  unfolding port_fits
  port_complete wanted port (inl any) = rw any (let same = int_eq_refl (pos 0) in ground arith)
  port_complete wanted port (inr one) = rw one (let same = int_eq_refl port in ground arith)

  -- What the criteria of a route ask of a request.
  pub record Criteria (m : HttpMatchRequest) : Type 0 where
    pub method : Meets o m.method false r.method
    pub authority : Meets o m.authority false r.authority
    pub scheme : Meets o m.scheme false r.url.scheme
    pub uri : Meets o m.uri m.ignore_uri_case r.request_uri
    pub headers : All (HeaderFits o r) m.headers
    pub without : NoHeader m.without_headers
    pub params : NoParam m.query_params
    pub port : (m.port ≡ pos 0) ⊎ (m.port ≡ r.port)

  -- Criteria in which no header has an empty test: Match takes them as met exactly when the method,
  -- the authority, the scheme and the URI meet theirs where these are set, every header that is
  -- listed fits and none that must not, no listed query parameter fits, and the port is the
  -- request's or is not set.
  pub request_matches_iff :
      (m : HttpMatchRequest) → AllSet m.headers → (request_matches o m r ≡ true) ↔ Criteria m
  unfolding request_matches
  request_matches_iff m set = (sound, complete)
    where
      sound : request_matches o m r ≡ true → Criteria m
      sound h = record {
        method = (passes_iff o m.method false r.method).0 (ground arith);
        authority = (passes_iff o m.authority false r.authority).0 (ground arith);
        scheme = (passes_iff o m.scheme false r.url.scheme).0 (ground arith);
        uri = (passes_iff o m.uri m.ignore_uri_case r.request_uri).0 (ground arith);
        headers = headers_sound true m.headers set (ground arith);
        without = without_sound m.without_headers (ground arith);
        params = params_sound m.query_params (ground arith);
        port = port_sound m.port r.port (ground arith);
      }

      complete : Criteria m → request_matches o m r ≡ true
      complete c =
          rw
            (
              (passes_iff o m.method false r.method).1 c.method,
              (passes_iff o m.authority false r.authority).1 c.authority,
              (passes_iff o m.scheme false r.url.scheme).1 c.scheme,
              (passes_iff o m.uri m.ignore_uri_case r.request_uri).1 c.uri,
              headers_complete true m.headers set refl c.headers,
              without_complete m.without_headers c.without,
              params_complete m.query_params c.params,
              port_complete m.port r.port c.port,
            )
            refl
