-- ===== src/Udp.antt =====
-- cmd/proxy/udp.go: the table of sessions of the UDP proxy. An address is its text; a socket is its
-- number in the order of opening. Each call under the lock is one step, and so is one round of
-- serve and of proxyReplies, whose reads and writes come out as an Event says.
pub mod Tables
pub mod Sockets
pub mod Examples
use lhotse_agent.Prelude.{
  ℕ, suc, Bool, true, false, List, [], ◌∷◌, ◌++◌, map, Option, none, some, if◌then◌else◌, Str,
  lookup, insert, delete,
}

pub record Session : Type 0 where
  pub key : Str
  pub client : Str
  pub original : Str
  pub upstream : ℕ

-- UDPServer, with the number of sockets opened and those that were closed.
pub record UdpServer : Type 0 where
  pub sessions : List (Str × Session)
  pub reply_conn : List (Str × ℕ)
  pub opened : ℕ
  pub closed : List ℕ

unfoldable pub new_udp_server : UdpServer
new_udp_server = record { sessions = []; reply_conn = []; opened = 0; closed = [] }

pub session_key : Str → Str → Str
session_key client original = client ++ (124 ∷ original)

-- getOrCreateSession behind the lookup; `dials` says whether DialUDP succeeds.
create_session : Bool → Str → Str → UdpServer → UdpServer × Option Session
unfolding session_key
create_session false client original u = (u, none)
create_session true client original u =
    let s : Session = record {
      key = session_key client original;
      client = client;
      original = original;
      upstream = u.opened;
    } in
    (record u { sessions = insert s.key s u.sessions; opened = suc u.opened }, some s)

-- getOrCreateSession
pub get_or_create_session : Bool → Str → Str → UdpServer → UdpServer × Option Session
unfolding create_session session_key
get_or_create_session dials client original u =
    elim (lookup (session_key client original) u.sessions) [
      | some s ↦ (u, some s)
      | none ↦ create_session dials client original u
    ]

-- closeSession
pub close_session : Str → UdpServer → UdpServer
close_session key u = elim (lookup key u.sessions) [
  | none ↦ u
  | some s ↦ record u { sessions = delete key u.sessions; closed = s.upstream ∷ u.closed }
]

-- getReplyConn behind the lookup; `listens` says whether ListenPacket succeeds.
create_reply_conn : Bool → Str → UdpServer → UdpServer × Option ℕ
create_reply_conn false original u = (u, none)
create_reply_conn true original u = (
  record u { reply_conn = insert original u.opened u.reply_conn; opened = suc u.opened },
  some u.opened,
)

-- getReplyConn
pub get_reply_conn : Bool → Str → UdpServer → UdpServer × Option ℕ
unfolding create_reply_conn
get_reply_conn listens original u = elim (lookup original u.reply_conn) [
  | some conn ↦ (u, some conn)
  | none ↦ create_reply_conn listens original u
]

-- What happens: a datagram of a client, with its original destination if that can be told, or a
-- round of the loop that carries the replies of a session.
pub data Event : Type 0 where
  datagram : (client : Str) (original : Option Str) (dials writes : Bool) → Event
  reply : (s : Session) (reads listens writes : Bool) → Event

written : Bool → UdpServer → Option Session → UdpServer
unfolding close_session
written writes u none = u
written true u (some s) = u
written false u (some s) = close_session s.key u

-- A round of serve.
pub serve_round : Str → Option Str → Bool → Bool → UdpServer → UdpServer
unfolding written get_or_create_session
serve_round client none dials writes u = u
serve_round client (some original) dials writes u =
    let got = get_or_create_session dials client original u in written writes got.0 got.1

replied : Bool → Str → UdpServer × Option ℕ → UdpServer
unfolding close_session
replied writes key (u, none) = close_session key u
replied true key (u, some conn) = u
replied false key (u, some conn) = close_session key u

-- A round of proxyReplies.
pub reply_round : Session → Bool → Bool → Bool → UdpServer → UdpServer
unfolding replied get_reply_conn
reply_round s false listens writes u = close_session s.key u
reply_round s true listens writes u = replied writes s.key (get_reply_conn listens s.original u)

pub step : Event → UdpServer → UdpServer
unfolding serve_round reply_round
step (datagram client original dials writes) u = serve_round client original dials writes u
step (reply s reads listens writes) u = reply_round s reads listens writes u

pub run : List Event → UdpServer → UdpServer
unfolding step
run [] u = u
run (e ∷ es) u = run es (step e u)

-- Shutdown: the sockets that it closes, besides the server's own.
pub shutdown : UdpServer → List ℕ
shutdown u =
    map (λ (e : Str × Session). e.1.upstream) u.sessions ++ map (λ (e : Str × ℕ). e.1) u.reply_conn
