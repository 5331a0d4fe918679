-- ===== src/HttpProc/Guarded.antt =====
-- What stands before a connection to a server in HttpProc of cmd/proxy/http.go.
use lhotse_agent.Prelude.{
  ℕ, ◌≡◌, refl, ap, subst, inl, inr, ◌++◌, Option, none, some, Str, Bool-cases,
}
use lhotse_agent.DomainPolicy.{direction_outbound}
use lhotse_agent.Enforcement.Sniffed.{Allowed, enforce_domain_policy-Allowed}
use lhotse_agent.Injection
use lhotse_agent.HttpRequest
use lhotse_agent.HttpRequest.{target_domain, read_request}
use lhotse_agent.Routing.Maps.{
  Endpoint, Maps, Service, Matched, selected, nil_endpoint, panics, answers, fails, match_request,
  get_service,
}
use lhotse_agent.Routing.Maps.Chosen.{FromService, match_request-FromService}
use lhotse_agent.HttpProc.{
  World, State, Handled, stop, with_headers, address, destination, exchange, handle_exchange,
  handle_injected, inject, handle_routed, handle_allowed, enforce, handle_outbound,
  outbound_http_proc,
}

-- The original destination, or an endpoint of the service of the request's host.
pub data Target (w : World) (m : Maps) (r : HttpRequest.Request) (dst : Str) : Str → Type 0 where
  original : Target w m r dst dst
  routed :
      (e : Endpoint) (i : ℕ) (s : Service)
      → get_service m r.host ≡ some (i, s)
      → FromService w.outside r m s e
      → Target w m r dst (address e)

destination-Target :
    (w : World) (m : Maps) (r : HttpRequest.Request) (dst addr : Str) (matched : Matched)
    → (match_request w.outside w.intn r m).1 ≡ matched
    → destination dst matched ≡ some addr
    → Target w m r dst addr
unfolding destination
destination-Target w m r dst addr (answers (selected e)) h d =
    let same : address e ≡ addr = cc d in
    let from = match_request-FromService w.outside r w.intn e m h in
    subst (Target w m r dst) same (routed e from.0 from.1 from.2 from.3)
destination-Target w m r dst addr (answers nil_endpoint) h d = absurd (let clash = d in cc)
destination-Target w m r dst addr (answers panics) h d = absurd (let clash = d in cc)
destination-Target w m r dst addr (fails e) h d =
    let same : dst ≡ addr = cc d in subst (Target w m r dst) same original

-- What a request that was passed on to an address went through.
pub record Passed (w : World) (st : State) (r : HttpRequest.Request) (s dst addr : Str)
    (x : Handled) : Type 0 where
  pub allowed : Allowed w.lib.net w.manager direction_outbound (target_domain w.lib r) dst
  pub target : Target w st.maps r dst addr
  pub injected : (inject w st r).error ≡ none
  pub sent :
      x.sent ≡ (exchange w (with_headers w.outside (inject w st r).set_headers r) s addr).sent

module _ (w : World) (st : State) (r : HttpRequest.Request) (s dst addr : Str)
    (allowed : Allowed w.lib.net w.manager direction_outbound (target_domain w.lib r) dst) where
  handle_injected-Passed :
      (maps : Maps) (to : Str) (e : Option Injection.InjectionError)
      → (inject w st r).error ≡ e
      → Target w st.maps r dst to
      → (handle_injected w r s to maps (inject w st r) e).dialled ≡ some addr
      → Passed w st r s dst addr (handle_injected w r s to maps (inject w st r) e)
  unfolding handle_injected stop handle_exchange
  handle_injected-Passed maps to (some e) i t h = absurd (let clash = h in cc)
  handle_injected-Passed maps to none i t h =
      let same : to ≡ addr = cc h in
      record {
        allowed = allowed;
        target = subst (Target w st.maps r dst) same t;
        injected = i;
        sent =
            ap
              (λ (a : Str).
                (exchange w (with_headers w.outside (inject w st r).set_headers r) s a).sent)
              same;
      }

  handle_routed-Passed :
      (maps : Maps) (to : Option Str)
      → destination dst (match_request w.outside w.intn r st.maps).1 ≡ to
      → (handle_routed w st r s maps to).dialled ≡ some addr
      → Passed w st r s dst addr (handle_routed w st r s maps to)
  unfolding handle_routed stop
  handle_routed-Passed maps none d h = absurd (let clash = h in cc)
  handle_routed-Passed maps (some to) d h =
      handle_injected-Passed maps to (inject w st r).error refl
        (destination-Target w st.maps r dst to (match_request w.outside w.intn r st.maps).1 refl d)
        h

handle_outbound-Passed :
    (w : World) (st : State) (s dst addr : Str) (result : HttpRequest.Result)
    → (handle_outbound w st s dst result).dialled ≡ some addr
    → (r : HttpRequest.Request) × (result ≡ HttpRequest.ok r)
      × Passed w st r s dst addr (handle_outbound w st s dst result)
unfolding handle_outbound handle_allowed stop enforce
handle_outbound-Passed w st s dst addr (HttpRequest.err e) h = absurd (let clash = h in cc)
handle_outbound-Passed w st s dst addr (HttpRequest.ok r) h =
    elim (Bool-cases (enforce w direction_outbound r dst).connection_done) [
      | inl ends ↦ absurd (let clash = rw ends at h in cc)
      | inr fine ↦
          let m = match_request w.outside w.intn r st.maps in
          (
            r,
            refl,
            rw fine (
                handle_routed-Passed w st r s dst addr
                  (enforce_domain_policy-Allowed w.itoa w.lib.net w.manager direction_outbound
                    (target_domain w.lib r) dst fine)
                  m.0 (destination dst m.1) refl (let rest = rw fine at h in rest)),
          )
    ]

-- Where the outbound server dials an address for what a client sends: a request was read from it;
-- the domain policy, if there is one, allows its domain and its original destination; the address
-- is that destination or an endpoint that the routes of the service of its host lead to; the
-- injection of credentials did not fail; and what the server at the address gets is what the
-- exchange sends for the request with the headers that the injection sets.
pub outbound_http_proc-Passed :
    (w : World) (st : State) (bytes dst addr : Str)
    → (outbound_http_proc w st bytes dst).dialled ≡ some addr
    → (r : HttpRequest.Request) × (read_request w.lib
          (w.read_head bytes).line
          (w.read_head bytes).header
        ≡ HttpRequest.ok r)
      × Passed w st r
          ((w.read_head bytes).buffered ++ (w.read_head bytes).pending)
          dst
          addr
          (outbound_http_proc w st bytes dst)
unfolding outbound_http_proc
outbound_http_proc-Passed w st bytes dst addr h =
    handle_outbound-Passed w st ((w.read_head bytes).buffered ++ (w.read_head bytes).pending) dst
      addr (read_request w.lib (w.read_head bytes).line (w.read_head bytes).header) h
