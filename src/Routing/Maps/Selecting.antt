-- ===== src/Routing/Maps/Selecting.antt =====
-- The balancers of cmd/config select from the endpoints that they are given.
use lhotse_agent.Prelude.{
  ℕ, ◌≡◌, inl, inr, List, [], ◌∷◌, Option, none, some, length, get_elem?, In, Option-cases,
}
use lhotse_agent.Prelude.Int.{ℤ, pos, negsuc}
use lhotse_agent.Balancer.{round_robin, random_select}
use lhotse_agent.Balancer.Turns.{elem_In, round_robin-In, random_select-In}
use lhotse_agent.Routing.Maps.{
  Endpoint, LoadBalancer, round_robin_lb, last_conn_lb, random_lb, pass_through_lb, selected,
  or_nil, or_panic, last_conn_new, last_conn, select,
}

or_nil_selected : (x : Option Endpoint) (e : Endpoint) → or_nil x ≡ selected e → x ≡ some e
unfolding or_nil
or_nil_selected none e h = absurd (let clash = h in cc)
or_nil_selected (some d) e h = cc

or_panic_selected : (x : Option Endpoint) (e : Endpoint) → or_panic x ≡ selected e → x ≡ some e
unfolding or_panic
or_panic_selected none e h = absurd (let clash = h in cc)
or_panic_selected (some d) e h = cc

last_conn_new-In :
    (intn : ℕ → ℕ) (last : ℤ) (es : List Endpoint) (e : Endpoint)
    → (last_conn_new intn last es).1 ≡ selected e
    → In e es
unfolding last_conn_new
last_conn_new-In intn last [] e h = absurd (let clash = h in cc)
last_conn_new-In intn last (d ∷ es) e h =
    elem_In (d ∷ es) (intn (length (d ∷ es))) e (or_panic_selected _ e h)

last_conn-In :
    (intn : ℕ → ℕ) (last : ℤ) (es : List Endpoint) (e : Endpoint)
    → (last_conn intn last es).1 ≡ selected e
    → In e es
unfolding last_conn
last_conn-In intn (negsuc n) es e h = last_conn_new-In intn (negsuc n) es e h
last_conn-In intn (pos n) es e h = elim (Option-cases (get_elem? es n)) [
  | inl missing ↦
      last_conn_new-In intn (pos n) es e (let fresh = rw (missing, last_conn) at h in fresh)
  | inr (d, found) ↦ elem_In es n e (
      let same : selected d ≡ selected e = rw (found, last_conn) at h in selected_some d same found)
]
  where
    selected_some :
        (d : Endpoint) → selected d ≡ selected e → get_elem? es n ≡ some d → get_elem? es n ≡ some e
    selected_some d same found = cc

-- Every balancer selects one of the endpoints that it is given.
pub select-In :
    (intn : ℕ → ℕ) (lb : LoadBalancer) (es : List Endpoint) (e : Endpoint)
    → (select intn lb es).1 ≡ selected e
    → In e es
unfolding select
select-In intn (round_robin_lb n) es e h =
    round_robin-In n es e (or_panic_selected (round_robin n es).1 e h)
select-In intn (last_conn_lb last) es e h = last_conn-In intn last es e h
select-In intn random_lb es e h =
    random_select-In intn es e (or_nil_selected (random_select intn es) e h)
select-In intn pass_through_lb es e h = absurd (let clash = h in cc)
