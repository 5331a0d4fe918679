-- ===== src/HttpProxy/Frames.antt =====
-- An exchange of cmd/proxy/http.go whose request and response have well-formed bodies.
use lhotse_agent.Prelude.{
  suc, ltb-true, append-nil, ℕ, ◌≡◌, refl, true, false, ◌||◌, List, [], ◌∷◌, ◌++◌, Option, some,
  arith, length, All, if◌then◌else◌, Str, codes, str_eq,
}
use lhotse_agent.Prelude.Int.{ℤ, pos, negsuc}
use lhotse_agent.Remote.{Fallible, good}
use lhotse_agent.HttpRequest.{Lib, Request}
use lhotse_agent.HttpResponse.{Response, ok, read_response}
use lhotse_agent.HttpBody.{proxy_chunked_body, parse_chunk_size}
use lhotse_agent.HttpBody.Complete.{
  Chunk, IsChunk, IsLine, IsTrailer, copied, encode_body, proxy_chunked_body-copied,
  copy_fixed_length-exact,
}
use lhotse_agent.HttpProxy.{
  Head, Exchange, done, kept, request_head, response_head, request_is_chunked, response_has_no_body,
  is_negative, is_positive, copy_request_body, write_http_request, copy_all, proxy_http_body, ended,
  relay_response, read_relayed, relay_written, relay_request, proxy_http_request,
}

module _ (parse_hex : Str → Option ℤ) where
  -- A chunked body, complete.
  pub record IsChunkedBody (body : Str) : Type 0 where
    pub chunks : List Chunk
    pub last : Str
    pub trailer : List Str
    pub chunks_fit : All (IsChunk parse_hex) chunks
    pub last_line : IsLine last
    pub last_size : parse_chunk_size parse_hex last ≡ some (pos 0)
    pub trailer_fits : IsTrailer trailer
    pub whole : body ≡ encode_body chunks last trailer

  -- The body that the head of a request announces.
  pub data RequestBody (q : Request) : Str → Type 0 where
    chunked_body :
        (body : Str) → request_is_chunked q ≡ true → IsChunkedBody body → RequestBody q body
    fixed_body :
        (body : Str)
        → request_is_chunked q ≡ false
        → q.content_length ≡ pos (length body)
        → RequestBody q body
    no_body : request_is_chunked q ≡ false → is_negative q.content_length ≡ true → RequestBody q []

  -- The body that the head of a response announces, and what the server sends behind it.
  pub data ResponseBody (q : Request) (r : Response) : Str → Str → Type 0 where
    bodiless : (rest : Str) → response_has_no_body q r ≡ true → ResponseBody q r [] rest
    chunked_answer :
        (body rest : Str)
        → response_has_no_body q r ≡ false
        → r.chunked ≡ true
        → IsChunkedBody body
        → ResponseBody q r body rest
    fixed_answer :
        (body rest : Str)
        → response_has_no_body q r ≡ false
        → r.chunked ≡ false
        → r.content_length ≡ pos (length body)
        → ResponseBody q r body rest
    answer_to_end :
        (body : Str)
        → response_has_no_body q r ≡ false
        → r.chunked ≡ false
        → is_negative r.content_length ≡ true
        → r.close ≡ true
        → ResponseBody q r body []

  chunked-copied :
      (body rest : Str)
      → IsChunkedBody body
      → proxy_chunked_body parse_hex (body ++ rest) ≡ copied body rest
  chunked-copied body rest c = rw c.whole (
      proxy_chunked_body-copied parse_hex c.chunks c.last c.trailer rest c.chunks_fit c.last_line
        c.last_size c.trailer_fits)

  copy_request_body-copied :
      (q : Request) (body rest : Str)
      → RequestBody q body
      → copy_request_body parse_hex q (body ++ rest) ≡ copied body rest
  unfolding copy_request_body is_positive is_negative
  copy_request_body-copied q body rest (chunked_body _ c b) = rw c (chunked-copied body rest b)
  copy_request_body-copied q [] rest (fixed_body _ c n) = rw (c, n) refl
  copy_request_body-copied q (b ∷ body) rest (fixed_body _ c n) =
      rw (c, n, ltb-true 0 (suc (length body)) (omega arith))
        (copy_fixed_length-exact (b ∷ body) rest)
  copy_request_body-copied q [] rest (no_body c n) = negative q.content_length refl n
    where
      negative :
          (m : ℤ)
          → q.content_length ≡ m
          → is_negative q.content_length ≡ true
          → copy_request_body parse_hex q rest ≡ copied [] rest
      negative (pos m) e n = absurd (let clash = rw e at n in cc)
      negative (negsuc m) e n = rw (c, e) refl

  proxy_http_body-copied :
      (q : Request) (r : Response) (body rest : Str)
      → ResponseBody q r body rest
      → proxy_http_body parse_hex q r (body ++ rest) ≡ copied body rest
  unfolding proxy_http_body is_negative copy_all
  proxy_http_body-copied q r [] rest (bodiless _ h) = rw h refl
  proxy_http_body-copied q r body rest (chunked_answer _ _ h c b) =
      rw (h, c) (chunked-copied body rest b)
  proxy_http_body-copied q r body rest (fixed_answer _ _ h c n) =
      rw (h, c, n) (copy_fixed_length-exact body rest)
  proxy_http_body-copied q r body [] (answer_to_end _ h c n e) =
      rw (h, c, n, e, append-nil body) refl

  module _ (l : Lib) (read_head : Str → Head) (flushed : Str → ℕ) (shown : ℕ → Str)
      (server_name : Str) where
    abbrev exchange : Request → Str → Fallible Str → Exchange
    exchange = proxy_http_request parse_hex l read_head flushed shown server_name

    -- A request that is not CONNECT, the whole of its body, and a server whose answer has a head
    -- that is not an upgrade and the whole of its body: the client's reader is left exactly
    -- behind the request's body, the server gets the request's head and body, the client gets the
    -- response's head and body, and the connection is kept unless either side closes it.
    pub proxy_http_request-framed :
        (q : Request) (r : Response) (body rest answers answer_body answer_rest : Str)
        → str_eq q.method (codes "CONNECT") ≡ false
        → RequestBody q body
        → read_response l (read_head answers).line (read_head answers).header ≡ ok r
        → r.upgraded ≡ false
        → ResponseBody q r answer_body answer_rest
        → (read_head answers).buffered ++ (read_head answers).pending ≡ answer_body ++ answer_rest
        → proxy_http_request parse_hex l read_head flushed shown server_name q
            (body ++ rest)
            (good answers)
          ≡ record {
            rest = rest;
            sent = request_head q ++ body;
            replied = response_head r server_name ++ answer_body;
            outcome = if q.close || r.close then done else kept;
          }
    unfolding proxy_http_request relay_request relay_written read_relayed relay_response
        write_http_request ended
    proxy_http_request-framed q r body rest answers answer_body answer_rest m b h u a s =
        rw
          (
            m,
            copy_request_body-copied q body rest b,
            h,
            u,
            s,
            proxy_http_body-copied q r answer_body answer_rest a,
          )
          refl

    -- A request that is not CONNECT, the whole of its body, and an answer that is an upgrade: the
    -- server gets all that the client sends, and the client gets the response's head and what the
    -- server sends from then on, but not the bytes that were read together with that head.
    pub proxy_http_request-upgraded :
        (q : Request) (r : Response) (body rest answers : Str)
        → str_eq q.method (codes "CONNECT") ≡ false
        → RequestBody q body
        → read_response l (read_head answers).line (read_head answers).header ≡ ok r
        → r.upgraded ≡ true
        → proxy_http_request parse_hex l read_head flushed shown server_name q
            (body ++ rest)
            (good answers)
          ≡ record {
            rest = [];
            sent = (request_head q ++ body) ++ rest;
            replied = response_head r [] ++ (read_head answers).pending;
            outcome = done;
          }
    unfolding proxy_http_request relay_request relay_written read_relayed relay_response
        write_http_request
    proxy_http_request-upgraded q r body rest answers m b h u =
        rw (m, copy_request_body-copied q body rest b, h, u) refl
