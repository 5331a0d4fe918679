-- ===== src/Interception/Shown.antt =====
-- What an interception by mitmTLSProc of cmd/proxy/outbound.go shows to its client.
use lhotse_agent.Prelude.{
  ◌≡◌, refl, sym, ◌∙◌, ap, subst, ◌⊎◌, inl, inr, true, Option, none, some, Str, is_empty,
  trim_space, Bool-cases, Option-cases,
}
use lhotse_agent.Net.{Net}
use lhotse_agent.TtlCache.{Result, ok, err}
use lhotse_agent.RuntimeConfig.{normalize_host}
use lhotse_agent.CertStore
use lhotse_agent.CertStore.{CertStore, get_certificate}
use lhotse_agent.CertStore.Signed.{FromPrimary, AllFromPrimary, Given, get_certificate-Given}
use lhotse_agent.Interception.{
  MitmProtocol, http1, http2, generic_tls, detect_mitm_protocol, Session, served, ServeEnd,
  no_serve_error, listener_closed, connection_closed, other_error, capture_fails,
  proxy_mitm_tls_connection, end_of_serve, serve_protocol, shaken, shake, shown, or_name,
  with_prepared, mitm_tls_proc,
}

served_protocol : {p q : MitmProtocol} {m n : Str} → served p m ≡ served q n → p ≡ q
served_protocol e = cc

served_name : {p q : MitmProtocol} {m n : Str} → served p m ≡ served q n → m ≡ n
served_name e = cc

module _ {A L : Type 0} (net : Net) (s : Session A L) (fallback : Str) where
  -- A certificate for the client's server name, or for the name that was sniffed if the client's is
  -- empty, which the first authority of the store signed for a day.
  pub record Shown (l : L) : Type 0 where
    pub domain : Str
    pub named :
        (domain ≡ trim_space s.hello_name)
        ⊎ ((is_empty (normalize_host net s.hello_name) ≡ true)
            × (domain ≡ trim_space (normalize_host net fallback)))
    pub by_primary : FromPrimary s.crypto s.store.primary domain l

  -- A connection that was served with a protocol, with a name for what lies behind it.
  pub record Serves (p : MitmProtocol) (name : Str) : Type 0 where
    pub leaf : L
    pub certificate : Shown leaf
    pub negotiated : Str
    pub agreed : s.handshake leaf ≡ some negotiated
    pub detected : detect_mitm_protocol negotiated s.peek s.peek_failure ≡ some p
    pub behind : name ≡ or_name (normalize_host net s.hello_name) (normalize_host net fallback)
    pub upstream : p ≡ generic_tls → (s.dials ≡ true) × (s.upstream_handshake name ≡ true)

  -- What serving with a protocol leaves.
  record Ended (o : Option MitmProtocol) (name : Str) (p : MitmProtocol) (n : Str) : Type 0 where
    found : o ≡ some p
    same : n ≡ name
    upstream : p ≡ generic_tls → (s.dials ≡ true) × (s.upstream_handshake n ≡ true)

  served-Ended :
      (q p : MitmProtocol) (name n : Str)
      → (q ≡ generic_tls → (s.dials ≡ true) × (s.upstream_handshake name ≡ true))
      → served q name ≡ served p n
      → Ended (some q) name p n
  served-Ended q p name n up e =
      let same_p : q ≡ p = served_protocol e in
      let same_n : name ≡ n = served_name e in
      record {
        found = ap some same_p;
        same = sym same_n;
        upstream = λ g.
            subst (λ (m : Str). (s.dials ≡ true) × (s.upstream_handshake m ≡ true)) same_n
              (up (same_p ∙ g));
      }

  serve_protocol-Ended :
      (o : Option MitmProtocol) (name : Str) (p : MitmProtocol) (n : Str)
      → serve_protocol s name o ≡ served p n
      → Ended o name p n
  unfolding serve_protocol proxy_mitm_tls_connection end_of_serve
  serve_protocol-Ended none name p n h = absurd (let clash = h in cc)
  serve_protocol-Ended (some http2) name p n h =
      elim (Bool-cases (capture_fails s.plain_pre_read)) [
        | inl bad ↦ absurd (let clash = rw bad at h in cc)
        | inr fine ↦
            served-Ended http2 p name n (λ g. absurd (let c = g in cc)) (let e = rw fine at h in e)
      ]
  serve_protocol-Ended (some http1) name p n h =
      elim (Bool-cases (capture_fails s.plain_pre_read)) [
        | inl bad ↦ absurd (let clash = rw bad at h in cc)
        | inr fine ↦ by_end s.serve_end (let e = rw fine at h in e)
      ]
    where
      by_end : (end : ServeEnd) → end_of_serve name end ≡ served p n → Ended (some http1) name p n
      by_end no_serve_error e = served-Ended http1 p name n (λ g. absurd (let c = g in cc)) e
      by_end listener_closed e = served-Ended http1 p name n (λ g. absurd (let c = g in cc)) e
      by_end connection_closed e = served-Ended http1 p name n (λ g. absurd (let c = g in cc)) e
      by_end other_error e = absurd (let clash = e in cc)
  serve_protocol-Ended (some generic_tls) name p n h = elim (Bool-cases s.dials) [
    | inr off ↦ absurd (let clash = rw off at h in cc)
    | inl on ↦ elim (Bool-cases (s.upstream_handshake name)) [
      | inr no_shake ↦ absurd (let clash = rw (on, no_shake) at h in cc)
      | inl shook ↦ elim (Bool-cases s.copies) [
        | inr broken ↦ absurd (let clash = rw (on, shook, broken) at h in cc)
        | inl whole ↦
            served-Ended generic_tls p name n (λ g. (on, shook))
              (let e = rw (on, shook, whole) at h in e)
      ]
    ]
  ]

  -- The name behind the connection.
  abbrev behind_name : Str
  behind_name = or_name (normalize_host net s.hello_name) (normalize_host net fallback)

  shake-Serves :
      (r : CertStore A L × Result L CertStore.Error) (p : MitmProtocol) (n : Str)
      → ((l : L) → r.1 ≡ ok l → Shown l)
      → (shake s behind_name r).1 ≡ served p n
      → Serves p n
  unfolding shake shaken
  shake-Serves (cs, err e) p n f h = absurd (let clash = h in cc)
  shake-Serves (cs, ok l) p n f h = elim (Option-cases (s.handshake l)) [
    | inl broken ↦ absurd (let clash = rw broken at h in cc)
    | inr (negotiated, agreed) ↦
        let e =
          serve_protocol-Ended (detect_mitm_protocol negotiated s.peek s.peek_failure) behind_name p
            n (let rest = rw agreed at h in rest) in
        record {
          leaf = l;
          certificate = f l refl;
          negotiated = negotiated;
          agreed = agreed;
          detected = e.found;
          behind = e.same;
          upstream = e.upstream;
        }
  ]

  -- A certificate of a store whose first authority is that of the session.
  asked-Shown :
      (cs : CertStore A L)
      → AllFromPrimary s.crypto cs
      → cs.primary ≡ s.store.primary
      → (l : L) → (get_certificate s.crypto s.now s.hello_name cs).1 ≡ ok l
      → Shown l
  asked-Shown cs a same l h = record {
    domain = trim_space s.hello_name;
    named = inl refl;
    by_primary =
        subst (λ (primary : Option A). FromPrimary s.crypto primary (trim_space s.hello_name) l)
          same ((get_certificate-Given s.crypto s.now s.hello_name cs a).leaf l h);
  }

  with_prepared-Serves :
      (r : CertStore A L × Result L CertStore.Error) (p : MitmProtocol) (n : Str)
      → Given s.crypto s.store (trim_space (normalize_host net fallback)) r
      → (with_prepared net s (normalize_host net fallback) r).1 ≡ served p n
      → Serves p n
  unfolding with_prepared shown or_name
  with_prepared-Serves (cs, err e) p n g h = absurd (let clash = h in cc)
  with_prepared-Serves (cs, ok l) p n g h =
      elim (Bool-cases (is_empty (normalize_host net s.hello_name))) [
        | inl blank ↦
            shake-Serves (cs, ok l) p n
              (λ k same. record {
                domain = trim_space (normalize_host net fallback);
                named = inr (blank, refl);
                by_primary = g.leaf k same;
              })
              (rw (blank, or_name) (let rest = rw blank at h in rest))
        | inr asked ↦
            shake-Serves (get_certificate s.crypto s.now s.hello_name cs) p n
              (asked-Shown cs g.kept g.primary_kept)
              (rw (asked, or_name) (let rest = rw asked at h in rest))
      ]

  -- With a store whose leaves are from its first authority, a connection that mitmTLSProc serves
  -- showed its client a certificate that this authority signed for a day, for the client's server
  -- name, or for the sniffed one if the client's is empty; with it the handshake negotiated a
  -- protocol, from which and from the first bytes the served one was detected; the name behind the
  -- connection is the client's normalized one, or else the sniffed one; and with neither HTTP/1.1
  -- nor HTTP/2 the destination was dialled and its handshake for that name succeeded.
  pub mitm_tls_proc-Serves :
      (p : MitmProtocol) (n : Str)
      → AllFromPrimary s.crypto s.store
      → (mitm_tls_proc net s fallback).1 ≡ served p n
      → Serves p n
  unfolding mitm_tls_proc shown
  mitm_tls_proc-Serves p n a h = elim (Bool-cases (capture_fails s.pre_read)) [
    | inl uncaptured ↦ absurd (let clash = rw uncaptured at h in cc)
    | inr captured ↦ elim (Bool-cases (is_empty (normalize_host net fallback))) [
      | inl blank ↦
          shake-Serves (get_certificate s.crypto s.now s.hello_name s.store) p n
            (asked-Shown s.store a refl) (let rest = rw (captured, blank) at h in rest)
      | inr sniffed ↦
          with_prepared-Serves
            (get_certificate s.crypto s.now (normalize_host net fallback) s.store) p n
            (get_certificate-Given s.crypto s.now (normalize_host net fallback) s.store a)
            (let rest = rw (captured, sniffed) at h in rest)
    ]
  ]
