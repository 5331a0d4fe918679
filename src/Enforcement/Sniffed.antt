-- ===== src/Enforcement/Sniffed.antt =====
-- TLS traffic under the domain policy in cmd/proxy/domain_policy.go.
use lhotse_agent.Prelude.{
  if◌then◌else◌, subst, ℕ, ◌≤◌, ◌≡◌, refl, ◌↔◌, inl, inr, Bool, true, false, List, Option, none,
  some, length, Str, Bool-cases,
}
use lhotse_agent.Net.{Net}
use lhotse_agent.ClientHello.{Peeked, max_tls_record_len}
use lhotse_agent.ClientHello.Wire.{Hello, IsWellFormed, handshake, encode_record}
use lhotse_agent.ClientHello.Peek.{Holds, peek-encode_record}
use lhotse_agent.DomainPolicy.Manager.{Manager, manager_evaluate}
use lhotse_agent.Enforcement.{
  Enforced, forbidden, enforce_domain_policy, sniffed_domain, no_error, enforce_raw_domain_policy,
}

-- The connection is ended, and if it can be answered the refusal is written.
abbrev pub refusal : (ℕ → Str) → Bool → Str → Enforced
refusal itoa downstream reason = record {
  written = if downstream then some (forbidden itoa reason) else none;
  connection_done = true;
}

abbrev pub passage : Enforced
passage = record { written = none; connection_done = false }

-- A connection on which a well-formed ClientHello with a host name waits, in a record of at most the
-- accepted size, is treated by that host name: where the policy's manager refuses the host or the
-- target the connection ends, after a 403 with the reason if there is a downstream connection, and
-- where it allows them the connection goes on and nothing is written.
pub enforce_raw-encode_record :
    (itoa : ℕ → Str) (net : Net) (m : Manager) (direction target : Str) (downstream : Bool)
    (peek : ℕ → Peeked) (h : Hello) (rest : List ℕ)
    → IsWellFormed h
    → length (handshake h) ≤ max_tls_record_len
    → Holds (encode_record h rest) peek
    → ((manager_evaluate net m direction h.host_name target).allowed ≡ false
        → enforce_raw_domain_policy itoa net (some m) direction downstream peek target
          ≡ refusal itoa downstream (manager_evaluate net m direction h.host_name target).reason)
      × ((manager_evaluate net m direction h.host_name target).allowed ≡ true
          → enforce_raw_domain_policy itoa net (some m) direction downstream peek target ≡ passage)
unfolding enforce_raw_domain_policy enforce_domain_policy sniffed_domain no_error
enforce_raw-encode_record itoa net m direction target downstream peek h rest w small holds =
    let seen = peek-encode_record peek h rest w small holds in
    (λ denied. rw (seen, denied) refl, λ allowed. rw (seen, allowed) refl)

-- A connection is ended by the domain policy exactly when there is a manager and it refuses the
-- domain or the target.
pub enforce_done_iff :
    (itoa : ℕ → Str) (net : Net) (manager : Option Manager) (direction domain target : Str)
    (downstream : Bool)
    → ((enforce_domain_policy itoa net manager direction downstream domain target).connection_done
        ≡ true)
      ↔ ((m : Manager) × (manager ≡ some m)
          × ((manager_evaluate net m direction domain target).allowed ≡ false))
unfolding enforce_domain_policy
enforce_done_iff itoa net none direction domain target downstream =
    (λ h. absurd (let clash = h in cc), λ (m, e, d). absurd (let clash = e in cc))
enforce_done_iff itoa net (some m) direction domain target downstream =
    (sound, λ (n, e, d). complete n e d)
  where
    sound :
        (enforce_domain_policy itoa net (some m) direction downstream domain target).connection_done
          ≡ true
        → (n : Manager) × (some m ≡ some n)
          × ((manager_evaluate net n direction domain target).allowed ≡ false)
    sound h = elim (Bool-cases (manager_evaluate net m direction domain target).allowed) [
      | inl allowed ↦ absurd (let clash = rw allowed at h in cc)
      | inr denied ↦ (m, refl, denied)
    ]

    complete :
        (n : Manager)
        → some m ≡ some n
        → (manager_evaluate net n direction domain target).allowed ≡ false
        → (enforce_domain_policy itoa net
            (some m)
            direction
            downstream
            domain
            target).connection_done
          ≡ true
    complete n e denied =
        let same : n ≡ m = cc in
        let refused =
          subst (λ (k : Manager). (manager_evaluate net k direction domain target).allowed ≡ false)
            same denied in
        rw refused refl

-- There is no manager, or it allows the domain and the destination.
abbrev pub Allowed : Net → Option Manager → Str → Str → Str → Type 0
Allowed net manager direction domain target =
    (m : Manager)
    → manager ≡ some m
    → (manager_evaluate net m direction domain target).allowed ≡ true

-- Where an enforcement does not end the connection, the policy allows it.
pub enforce_domain_policy-Allowed :
    (itoa : ℕ → Str) (net : Net) (manager : Option Manager) (direction domain target : Str)
    → (enforce_domain_policy itoa net manager direction true domain target).connection_done ≡ false
    → Allowed net manager direction domain target
enforce_domain_policy-Allowed itoa net manager direction domain target h m e =
    elim (Bool-cases (manager_evaluate net m direction domain target).allowed) [
      | inl allowed ↦ allowed
      | inr denied ↦
          let over =
            (enforce_done_iff itoa net manager direction domain target true).1 (m, e, denied) in
          absurd (let clash = rw h at over in cc)
    ]
