-- ===== src/Udp/Sockets.antt =====
-- The sockets of the UDP proxy of cmd/proxy/udp.go: none is lost and none is closed twice.
use lhotse_agent.Prelude.{
  ℕ, suc, ◌+◌, ◌≡◌, inl, inr, Bool, true, false, List, [], ◌∷◌, Option, none, some, arith, ltb,
  ◌==◌, if◌then◌else◌, Str, lookup, Option-cases,
}
use lhotse_agent.Udp.{
  Session, UdpServer, new_udp_server, session_key, create_session, get_or_create_session,
  close_session, create_reply_conn, get_reply_conn, Event, datagram, reply, written, serve_round,
  replied, reply_round, step, run,
}
use lhotse_agent.Udp.Tables.{
  IsTable, insert-IsTable, delete-IsTable, uses, uses-insert, uses-delete,
}

abbrev pub upstream_of : Session → ℕ
upstream_of s = s.upstream

abbrev pub conn_of : ℕ → ℕ
conn_of n = n

abbrev pub times : ℕ → List ℕ → ℕ
times n [] = 0
times n (m ∷ ms) = (if m == n then 1 else 0) + times n ms

-- Every socket that was opened is the upstream of one session, or one reply socket, or was closed
-- once; and no other number is any of these.
pub record Accounts (u : UdpServer) : Type 0 where
  pub one_session : IsTable u.sessions
  pub one_reply : IsTable u.reply_conn
  pub whole :
      (n : ℕ)
      → uses upstream_of n u.sessions + uses conn_of n u.reply_conn + times n u.closed
        ≡ (if ltb n u.opened then 1 else 0)

fresh_once :
    (n o : ℕ)
    → (if ltb n (suc o) then 1 else 0) ≡ (if ltb n o then 1 else 0) + (if o == n then 1 else 0)
fresh_once n o = ground arith

close_session-Accounts : (key : Str) (u : UdpServer) → Accounts u → Accounts (close_session key u)
unfolding close_session
close_session-Accounts key u a = elim (Option-cases (lookup key u.sessions)) [
  | inl missing ↦ rw (missing, close_session) a
  | inr (s, found) ↦
      rw (found, close_session)
        (record {
          one_session = delete-IsTable key u.sessions a.one_session;
          one_reply = a.one_reply;
          whole = λ n. omega (
            arith,
            a.whole n,
            uses-delete upstream_of n key s u.sessions (a.one_session key) found,
          );
        })
]

-- The session that is made.
abbrev made : Str → Str → UdpServer → Session
made client original u = record {
  key = session_key client original;
  client = client;
  original = original;
  upstream = u.opened;
}

create_session-Accounts :
    (dials : Bool) (client original : Str) (u : UdpServer)
    → lookup (session_key client original) u.sessions ≡ none
    → Accounts u
    → Accounts (create_session dials client original u).0
unfolding create_session
create_session-Accounts false client original u h a = a
create_session-Accounts true client original u h a = record {
  one_session =
      insert-IsTable (session_key client original) (made client original u) u.sessions h
        a.one_session;
  one_reply = a.one_reply;
  whole = λ n. omega (
    arith,
    a.whole n,
    fresh_once n u.opened,
    uses-insert upstream_of n (session_key client original) (made client original u) u.sessions h,
  );
}

get_or_create_session-Accounts :
    (dials : Bool) (client original : Str) (u : UdpServer)
    → Accounts u
    → Accounts (get_or_create_session dials client original u).0
unfolding get_or_create_session
get_or_create_session-Accounts dials client original u a =
    elim (Option-cases (lookup (session_key client original) u.sessions)) [
      | inr (s, found) ↦ rw (found, get_or_create_session) a
      | inl missing ↦
          rw (missing, get_or_create_session)
            (create_session-Accounts dials client original u missing a)
    ]

create_reply_conn-Accounts :
    (listens : Bool) (original : Str) (u : UdpServer)
    → lookup original u.reply_conn ≡ none
    → Accounts u
    → Accounts (create_reply_conn listens original u).0
unfolding create_reply_conn
create_reply_conn-Accounts false original u h a = a
create_reply_conn-Accounts true original u h a = record {
  one_session = a.one_session;
  one_reply = insert-IsTable original u.opened u.reply_conn h a.one_reply;
  whole = λ n. omega (
    arith,
    a.whole n,
    fresh_once n u.opened,
    uses-insert conn_of n original u.opened u.reply_conn h,
  );
}

get_reply_conn-Accounts :
    (listens : Bool) (original : Str) (u : UdpServer)
    → Accounts u
    → Accounts (get_reply_conn listens original u).0
unfolding get_reply_conn
get_reply_conn-Accounts listens original u a = elim (Option-cases (lookup original u.reply_conn)) [
  | inr (conn, found) ↦ rw (found, get_reply_conn) a
  | inl missing ↦
      rw (missing, get_reply_conn) (create_reply_conn-Accounts listens original u missing a)
]

written-Accounts :
    (writes : Bool) (u : UdpServer) (o : Option Session)
    → Accounts u
    → Accounts (written writes u o)
unfolding written
written-Accounts writes u none a = a
written-Accounts true u (some s) a = a
written-Accounts false u (some s) a = close_session-Accounts s.key u a

replied-Accounts :
    (writes : Bool) (key : Str) (u : UdpServer) (o : Option ℕ)
    → Accounts u
    → Accounts (replied writes key (u, o))
unfolding replied
replied-Accounts writes key u none a = close_session-Accounts key u a
replied-Accounts true key u (some conn) a = a
replied-Accounts false key u (some conn) a = close_session-Accounts key u a

step-Accounts : (e : Event) (u : UdpServer) → Accounts u → Accounts (step e u)
unfolding step serve_round reply_round
step-Accounts (datagram client none dials writes) u a = a
step-Accounts (datagram client (some original) dials writes) u a =
    let got = get_or_create_session dials client original u in
    written-Accounts writes got.0 got.1 (get_or_create_session-Accounts dials client original u a)
step-Accounts (reply s false listens writes) u a = close_session-Accounts s.key u a
step-Accounts (reply s true listens writes) u a =
    let got = get_reply_conn listens s.original u in
    replied-Accounts writes s.key got.0 got.1 (get_reply_conn-Accounts listens s.original u a)

run-Accounts : (es : List Event) (u : UdpServer) → Accounts u → Accounts (run es u)
unfolding run
run-Accounts [] u a = a
run-Accounts (e ∷ es) u a = run-Accounts es (step e u) (step-Accounts e u a)

-- After any datagrams and replies on a new server, in any order, also replies of sessions that are
-- no longer in the table: each socket that was opened is the upstream of exactly one session, or
-- one reply socket, or was closed exactly once, and no other socket is any of these.
pub run-new_udp_server : (es : List Event) → Accounts (run es new_udp_server)
unfolding new_udp_server
run-new_udp_server es = run-Accounts es _ (record {
  one_session = λ k. omega arith;
  one_reply = λ k. omega arith;
  whole = λ n. ground arith;
})
