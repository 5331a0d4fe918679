-- ===== src/HttpProxy/Passing.antt =====
-- What an exchange of cmd/proxy/http.go passes on, whatever the two sides send.
use lhotse_agent.Prelude.{
  suc, ◌∷◌, arith, take-drop, ◌+◌, drop, length, take, ap, if◌then◌else◌, ◌∙◌, append_assoc,
  append-nil, ℕ, ◌≡◌, refl, sym, inl, inr, Bool, true, false, ◌||◌, [], ◌++◌, Option, none, some,
  Str, codes, str_eq, Bool-cases,
}
use lhotse_agent.Prelude.Int.{ℤ}
use lhotse_agent.Remote.{good}
use lhotse_agent.HttpRequest.{Lib, Request}
use lhotse_agent.HttpResponse.{Response, Result, ok, err, read_response}
use lhotse_agent.HttpBody.{CopyError, out_of_fuel}
use lhotse_agent.HttpBody.Relay.{
  Relays, finished-Relays, copy_fixed_length-Relays, proxy_chunked_body-Relays,
}
use lhotse_agent.HttpProxy.{
  Head, Exchange, kept, done, copy_failed, request_head, request_is_chunked, is_positive,
  copy_request_body, write_http_request, copy_all, response_has_no_body, is_negative,
  proxy_http_body, ended, relay_response, read_relayed, relay_written, relay_request,
  proxy_http_request,
}

module _ (parse_hex : Str → Option ℤ) where
  copy_request_body-Relays : (q : Request) (s : Str) → Relays s (copy_request_body parse_hex q s)
  unfolding copy_request_body
  copy_request_body-Relays q s = elim (Bool-cases (request_is_chunked q)) [
    | inl chunked ↦ rw chunked (proxy_chunked_body-Relays parse_hex s)
    | inr other ↦ elim (Bool-cases (is_positive q.content_length)) [
      | inl fixed ↦ rw (other, fixed) (copy_fixed_length-Relays q.content_length s)
      | inr empty ↦ rw (other, empty) (finished-Relays s)
    ]
  ]

  copy_all-Relays : (s : Str) → Relays s (copy_all s)
  unfolding copy_all
  copy_all-Relays s = record {
    lost = [];
    parts = sym (append-nil s);
    left = λ e. refl;
    ended = λ e. cc;
  }

  proxy_http_body-Relays :
      (q : Request) (r : Response) (s : Str) → Relays s (proxy_http_body parse_hex q r s)
  unfolding proxy_http_body
  proxy_http_body-Relays q r s = elim (Bool-cases (response_has_no_body q r)) [
    | inl bodiless ↦ rw bodiless (finished-Relays s)
    | inr a ↦ elim (Bool-cases r.chunked) [
      | inl chunked ↦ rw (a, chunked) (proxy_chunked_body-Relays parse_hex s)
      | inr b ↦ elim (Bool-cases (is_negative r.content_length)) [
        | inr fixed ↦ rw (a, b, fixed) (copy_fixed_length-Relays r.content_length s)
        | inl c ↦ elim (Bool-cases r.close) [
          | inl closing ↦ rw (a, b, c, closing) (copy_all-Relays s)
          | inr keeping ↦ rw (a, b, c, keeping) (finished-Relays s)
        ]
      ]
    ]
  ]

  ended_halts :
      (e : Option CopyError) (closing : Bool)
      → (e ≡ some out_of_fuel → ⊥)
      → ended e (if closing then done else kept) ≡ copy_failed out_of_fuel
      → ⊥
  unfolding ended
  ended_halts none true h f = cc
  ended_halts none false h f = cc
  ended_halts (some e) closing h f =
      h (let same : e ≡ out_of_fuel = copy_failed_inj f in ap some same)
    where
      copy_failed_inj : {a b : CopyError} → copy_failed a ≡ copy_failed b → a ≡ b
      copy_failed_inj g = cc

  take_past : (n : ℕ) (xs ys : Str) → take (length xs + n) (xs ++ ys) ≡ xs ++ take n ys
  take_past n [] ys = ap (λ (k : ℕ). take k ys) (omega arith)
  take_past n (x ∷ xs) ys =
      let counted : suc (length xs) + n ≡ suc (length xs + n) = omega arith in
      rw counted (ap (◌∷◌ x) (take_past n xs ys))

  -- What the server gets is nothing but the head of the request and a beginning of what the client
  -- sent, and the copies did not run out of fuel.
  pub record Passes (q : Request) (s : Str) (x : Exchange) : Type 0 where
    pub taken : Str
    pub lost : Str
    pub parts : s ≡ taken ++ lost
    pub same : x.sent ≡ request_head q ++ taken
    pub halts : x.outcome ≡ copy_failed out_of_fuel → ⊥

  module _ (l : Lib) (read_head : Str → Head) (flushed : Str → ℕ) (shown : ℕ → Str)
      (server_name : Str) where
    relay_response-Passes :
        (q : Request) (s : Str) (r : Response) (up : Head)
        → (copy_request_body parse_hex q s).error ≡ none
        → Passes q s (
            relay_response parse_hex l read_head flushed shown server_name q
              (write_http_request parse_hex q s)
              r
              up)
    unfolding relay_response write_http_request
    relay_response-Passes q s r up fine =
        let body = copy_request_body-Relays q s in
        elim (Bool-cases r.upgraded) [
          | inl upgraded ↦ rw upgraded (record {
            taken = s;
            lost = [];
            parts = sym (append-nil s);
            same =
                append_assoc (request_head q) (copy_request_body parse_hex q s).out
                  (copy_request_body parse_hex q s).rest
                ∙ ap (◌++◌ (request_head q)) (
                    sym (
                      body.parts
                      ∙ ap (◌++◌ (copy_request_body parse_hex q s).out) (body.left fine)));
            halts = λ e. cc;
          })
          | inr other ↦ rw other (record {
            taken = (copy_request_body parse_hex q s).out;
            lost = body.lost;
            parts = body.parts;
            same = refl;
            halts =
                ended_halts (proxy_http_body parse_hex q r (up.buffered ++ up.pending)).error
                  (q.close || r.close)
                  (proxy_http_body-Relays q r (up.buffered ++ up.pending)).ended;
          })
        ]

    read_relayed-Passes :
        (q : Request) (s : Str) (up : Head) (result : Result)
        → (copy_request_body parse_hex q s).error ≡ none
        → Passes q s (
            read_relayed parse_hex l read_head flushed shown server_name q
              (write_http_request parse_hex q s)
              up
              result)
    unfolding read_relayed write_http_request
    read_relayed-Passes q s up (ok r) fine = relay_response-Passes q s r up fine
    read_relayed-Passes q s up (err e) fine =
        let body = copy_request_body-Relays q s in
        record {
          taken = (copy_request_body parse_hex q s).out;
          lost = body.lost;
          parts = body.parts;
          same = refl;
          halts = λ f. cc;
        }

    relay_written-Passes :
        (q : Request) (s : Str) (up : Head) (e : Option CopyError)
        → (copy_request_body parse_hex q s).error ≡ e
        → Passes q s (
            relay_written parse_hex l read_head flushed shown server_name q
              (write_http_request parse_hex q s)
              up
              e)
    unfolding relay_written write_http_request
    relay_written-Passes q s up none fine =
        read_relayed-Passes q s up (read_response l up.line up.header) fine
    relay_written-Passes q s up (some e) failed =
        let body = copy_request_body-Relays q s in
        let copied = copy_request_body parse_hex q s in
        let n = flushed (request_head q ++ copied.out) in
        record {
          taken = take n copied.out;
          lost = drop n copied.out ++ body.lost;
          parts =
              body.parts
              ∙ ap (λ (x : Str). x ++ body.lost) (take-drop n copied.out)
              ∙ append_assoc (take n copied.out) (drop n copied.out) body.lost;
          same = take_past n (request_head q) copied.out;
          halts = ended_halts (some e) true (λ f. body.ended (failed ∙ f));
        }

    -- For a request that is not CONNECT and a server that can be reached, whatever the client and
    -- the server send: the server gets the request's head and then a beginning of what the client
    -- sends behind it, unchanged, and no loop over chunks or trailer lines runs out of fuel.
    pub proxy_http_request-Passes :
        (q : Request) (s answers : Str)
        → str_eq q.method (codes "CONNECT") ≡ false
        → Passes q s
            (proxy_http_request parse_hex l read_head flushed shown server_name q s (good answers))
    unfolding proxy_http_request relay_request write_http_request
    proxy_http_request-Passes q s answers m =
        rw m (
          relay_written-Passes q s (read_head answers) (copy_request_body parse_hex q s).error refl)
