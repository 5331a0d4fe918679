-- ===== src/HttpProc.antt =====
-- HttpProc of the outbound and HttpProc2 of the inbound server, cmd/proxy/http.go: one request of a
-- connection, from its head to the end of the exchange. The receivers and what they call outside
-- the source are a World; the bytes that the client sends are an argument.
pub mod Guarded
pub mod Examples
use lhotse_agent.Prelude.{
  ℕ, Bool, true, false, List, [], ◌∷◌, ◌++◌, Option, none, some, if◌then◌else◌, Str, insert,
}
use lhotse_agent.Prelude.Int.{ℤ}
use lhotse_agent.Remote.{Fallible, good, bad}
use lhotse_agent.DomainPolicy.{direction_inbound, direction_outbound}
use lhotse_agent.DomainPolicy.Manager.{Manager}
use lhotse_agent.Enforcement.{Enforced, enforce_domain_policy}
use lhotse_agent.RuntimeConfig.{UserSource}
use lhotse_agent.TtlCache.{Cache}
use lhotse_agent.Credential
use lhotse_agent.Identity
use lhotse_agent.Injection
use lhotse_agent.HttpRequest
use lhotse_agent.HttpRequest.{Header, Lib, get, target_domain, read_request}
use lhotse_agent.HttpProxy.{Head, Exchange, Outcome, proxy_http_request}
use lhotse_agent.Routing.{Outside}
use lhotse_agent.Routing.Maps.{
  Endpoint, Maps, Matched, Selected, selected, nil_endpoint, panics, answers, fails, match_request,
}

-- `dial` gives what the server at an address answers.
pub record World : Type 0 where
  pub lib : Lib
  pub read_head : Str → Head
  pub flushed : Str → ℕ
  pub parse_hex : Str → Option ℤ
  pub itoa : ℕ → Str
  pub outside : Outside
  pub intn : ℕ → ℕ
  pub dial : Str → Fallible Str
  pub manager : Option Manager
  pub agent : Option Injection.Agent
  pub identity : ℕ → Identity.World
  pub identity_uri : Str
  pub sources : Option (List UserSource)
  pub server_name : Str

-- What the requests of a server share.
pub record State : Type 0 where
  pub maps : Maps
  pub users : Cache Str
  pub credentials : Cache (Option Credential.Credential)

-- How the handling of a request ends.
pub data Ending : Type 0 where
  not_read : HttpRequest.Error → Ending
  refused nil_pointer : Ending
  injection_failed : Injection.InjectionError → Ending
  exchanged : Outcome → Ending

-- The address that was dialled, if one was, and the bytes that went to it and to the client.
pub record Handled : Type 0 where
  pub state : State
  pub dialled : Option Str
  pub sent : Str
  pub replied : Str
  pub ending : Ending

stop : State → Str → Ending → Handled
stop st replied e = record { state = st; dialled = none; sent = []; replied = replied; ending = e }

written : Option Str → Str
written none = []
written (some s) = s

-- Header.Set, for each header of the list.
set_headers : Outside → List (Str × Str) → Header → Header
set_headers o [] h = h
set_headers o ((key, value) ∷ vs) h = set_headers o vs (insert (o.canonical key) (value ∷ []) h)

pub address : Endpoint → Str
address e = e.ip ++ (58 ∷ e.port)

-- The destination behind the route matching; `none` is the run-time error of a nil endpoint.
pub destination : Str → Matched → Option Str
unfolding address
destination dst (answers (selected e)) = some (address e)
destination dst (answers nil_endpoint) = none
destination dst (answers panics) = none
destination dst (fails e) = some dst

abbrev pub exchange : World → HttpRequest.Request → Str → Str → Exchange
exchange w r s addr =
    proxy_http_request w.parse_hex w.lib w.read_head w.flushed w.itoa w.server_name r s
      (w.dial addr)

handle_exchange : State → Str → Exchange → Handled
handle_exchange st addr x = record {
  state = st;
  dialled = some addr;
  sent = x.sent;
  replied = x.replied;
  ending = exchanged x.outcome;
}

-- The request with the headers that the injection sets.
pub with_headers : Outside → List (Str × Str) → HttpRequest.Request → HttpRequest.Request
unfolding set_headers
with_headers o vs r = record r { header = set_headers o vs r.header }

handle_injected :
    World
    → HttpRequest.Request
    → Str
    → Str
    → Maps
    → Injection.Injected
    → Option Injection.InjectionError
    → Handled
unfolding stop handle_exchange with_headers
handle_injected w r s addr maps i (some e) =
    stop (record { maps = maps; users = i.users; credentials = i.credentials }) []
      (injection_failed e)
handle_injected w r s addr maps i none =
    handle_exchange (record { maps = maps; users = i.users; credentials = i.credentials }) addr
      (exchange w (with_headers w.outside i.set_headers r) s addr)

pub inject : World → State → HttpRequest.Request → Injection.Injected
inject w st r =
    Injection.apply_credential_injection w.agent (target_domain w.lib r)
      (record {
        get_header = λ k. get r.header (w.outside.canonical k);
        identity = w.identity;
        identity_uri = w.identity_uri;
      })
      w.sources st.users st.credentials

handle_routed : World → State → HttpRequest.Request → Str → Maps → Option Str → Handled
unfolding stop handle_injected inject
handle_routed w st r s maps none = stop (record st { maps = maps }) [] nil_pointer
handle_routed w st r s maps (some addr) =
    handle_injected w r s addr maps (inject w st r) (inject w st r).error

handle_allowed : World → State → HttpRequest.Request → Str → Str → Handled
unfolding handle_routed destination
handle_allowed w st r s dst =
    let m = match_request w.outside w.intn r st.maps in
    handle_routed w st r s m.0 (destination dst m.1)

pub enforce : World → Str → HttpRequest.Request → Str → Enforced
enforce w direction r dst =
    enforce_domain_policy w.itoa w.lib.net w.manager direction true (target_domain w.lib r) dst

handle_outbound : World → State → Str → Str → HttpRequest.Result → Handled
unfolding stop written handle_allowed enforce
handle_outbound w st s dst (HttpRequest.err e) = stop st [] (not_read e)
handle_outbound w st s dst (HttpRequest.ok r) =
    let x = enforce w direction_outbound r dst in
    if x.connection_done then stop st (written x.written) refused else handle_allowed w st r s dst

-- HttpProc of OutboundServer: `bytes` is what the client sends, `dst` where it sends it.
pub outbound_http_proc : World → State → Str → Str → Handled
unfolding handle_outbound
outbound_http_proc w st bytes dst =
    let head = w.read_head bytes in
    handle_outbound w st (head.buffered ++ head.pending) dst
      (read_request w.lib head.line head.header)

handle_inbound : World → State → Str → Str → Str → HttpRequest.Result → Handled
unfolding stop written handle_exchange enforce
handle_inbound w st s dst target (HttpRequest.err e) = stop st [] (not_read e)
handle_inbound w st s dst target (HttpRequest.ok r) =
    let x = enforce w direction_inbound r dst in
    if x.connection_done
    then stop st (written x.written) refused
    else handle_exchange st target (exchange w r s target)

-- HttpProc2 of InProxyServer; HttpProc dials the destination itself.
inbound_http_proc2 : World → State → Str → Str → Str → Handled
unfolding handle_inbound
inbound_http_proc2 w st bytes dst target =
    let head = w.read_head bytes in
    handle_inbound w st (head.buffered ++ head.pending) dst target
      (read_request w.lib head.line head.header)

pub inbound_http_proc : World → State → Str → Str → Handled
unfolding inbound_http_proc2
inbound_http_proc w st bytes dst = inbound_http_proc2 w st bytes dst dst
