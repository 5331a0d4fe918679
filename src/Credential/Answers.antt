-- ===== src/Credential/Answers.antt =====
-- Which vault answer the resolver of pkg/credential/resolver.go returns.
use lhotse_agent.Prelude.{
  In-cons, inr, inl, ℕ, ◌+◌, ◌<◌, ◌≡◌, refl, sym, ap, ◌∙◌, subst, List, [], ◌∷◌, ◌++◌, map, Option,
  false, Str, is_empty, In, here, there,
}
use lhotse_agent.TtlCache.{Cache, Answer, keeps, passes, fails, Result, ok, err, run}
use lhotse_agent.TtlCache.Sources.{Source, asked, asked_and_kept, remembered, resolve-run-Source}
use lhotse_agent.Credential.{
  Credential, Error, Request, fetch, fmt_key, ttl, to_answer, call, resolve, resolves,
}
use lhotse_agent.TtlCache

-- The vault's answer to a request.
abbrev pub vault_answer : Str → Request → Result (Option Credential) Error
vault_answer uri r = fetch r.world uri r.agent_id r.target_host r.user_id

abbrev pub key_of : Request → Str
key_of r = fmt_key r.agent_id r.target_host r.user_id

-- A result is the vault's answer to this request, or to an earlier one with the same key that was
-- stored less than the time to live ago.
pub data AnswerOf (uri : Str) (rs : List Request) (r : Request) (c : Option Credential)
    : Type 0 where
  fetched_now : vault_answer uri r ≡ ok c → AnswerOf uri rs r c
  still_cached :
      (q : Request)
      → In q rs
      → key_of q ≡ key_of r
      → vault_answer uri q ≡ ok c
      → r.world.checked_at < q.world.stored_at + ttl
      → AnswerOf uri rs r c

call_of : Str → Request → TtlCache.Call (Option Credential) Error
call_of uri r = call r.world uri r.agent_id r.target_host r.user_id

resolves-run :
    (uri : Str) (rs : List Request) (c : Cache (Option Credential))
    → is_empty uri ≡ false
    → resolves uri rs c ≡ run (map (call_of uri) rs) c
unfolding resolves run resolve call_of
resolves-run uri [] c set = refl
resolves-run uri (r ∷ rs) c set =
    rw set (resolves-run uri rs (TtlCache.resolve (call_of uri r) c).0 set)

In-map :
    (uri : Str) (k : TtlCache.Call (Option Credential) Error) (rs : List Request)
    → In k (map (call_of uri) rs)
    → (q : Request) × In q rs × (call_of uri q ≡ k)
In-map uri k [] i = elim i [ ]
In-map uri k (r ∷ rs) i = elim (In-cons i) [
  | inl e ↦ (r, here rs, e)
  | inr later ↦ let (q, j, e) = In-map uri k rs later in (q, there r j, e)
]

to_answer_keeps :
    (a : Result (Option Credential) Error) (c : Option Credential) (t : ℕ)
    → to_answer a ≡ keeps c t
    → (a ≡ ok c) × (ttl ≡ t)
unfolding to_answer
to_answer_keeps (ok x) c t e = (cc, cc)
to_answer_keeps (err x) c t e = absurd (let clash = e in cc)

to_answer-passes :
    (a : Result (Option Credential) Error) (c : Option Credential) → to_answer a ≡ passes c → ⊥
unfolding to_answer
to_answer-passes (ok x) c e = cc
to_answer-passes (err x) c e = cc

Source-AnswerOf :
    (uri : Str) (rs : List Request) (r : Request) (c : Option Credential)
    → Source (map (call_of uri) rs) (call_of uri r) c
    → AnswerOf uri rs r c
unfolding call_of call
Source-AnswerOf uri rs r c (asked_and_kept t e) =
    fetched_now (to_answer_keeps (vault_answer uri r) c t e).0
Source-AnswerOf uri rs r c (asked e) = absurd (to_answer-passes (vault_answer uri r) c e)
Source-AnswerOf uri rs r c (remembered k t i same e fresh) =
    let (q, j, is_q) = In-map uri k rs i in
    let kept =
      to_answer_keeps (vault_answer uri q) c t
        (ap (λ (x : TtlCache.Call (Option Credential) Error). x.answer) is_q ∙ e) in
    still_cached q j (ap (λ (x : TtlCache.Call (Option Credential) Error). x.key) is_q ∙ same)
      kept.0
      (subst (λ (n : ℕ). r.world.checked_at < q.world.stored_at + n) (sym kept.1)
        (subst (λ (n : ℕ). r.world.checked_at < n + t)
          (sym (ap (λ (x : TtlCache.Call (Option Credential) Error). x.stored_at) is_q)) fresh))

-- With a vault configured, and after any history of calls on an empty cache, what Resolve returns
-- without an error is the vault's answer to this call, or its answer to an earlier call with the
-- same cache key, stored less than 30 seconds before.
pub resolve-AnswerOf :
    (uri : Str) (rs : List Request) (r : Request) (c : Option Credential)
    → is_empty uri ≡ false
    → (resolve r.world uri r.agent_id r.target_host r.user_id (resolves uri rs [])).1 ≡ ok c
    → AnswerOf uri rs r c
unfolding resolve call_of
resolve-AnswerOf uri rs r c set h = Source-AnswerOf uri rs r c (
    resolve-run-Source (map (call_of uri) rs) (call_of uri r) c (
      subst (λ (m : Cache (Option Credential)). (TtlCache.resolve (call_of uri r) m).1 ≡ ok c)
        (resolves-run uri rs [] set) (rw set at h)))

abbrev pub NoColon : Str → Type 0
NoColon s = In 58 s → ⊥

cut_colon :
    (a b x y : Str) → NoColon a → NoColon b → a ++ (58 ∷ x) ≡ b ++ (58 ∷ y) → (a ≡ b) × (x ≡ y)
cut_colon [] [] x y na nb e = (refl, cc)
cut_colon [] (c ∷ b) x y na nb e =
    absurd (nb (let same : 58 ≡ c = cc in subst (λ (n : ℕ). In 58 (n ∷ b)) same (here b)))
cut_colon (c ∷ a) [] x y na nb e =
    absurd (na (let same : 58 ≡ c = cc in subst (λ (n : ℕ). In 58 (n ∷ a)) same (here a)))
cut_colon (c ∷ a) (d ∷ b) x y na nb e =
    let tails : a ++ (58 ∷ x) ≡ b ++ (58 ∷ y) = cc in
    let same : c ≡ d = cc in
    let (eq, rest) = cut_colon a b x y (λ i. na (there c i)) (λ i. nb (there d i)) tails in
    (cc, rest)

-- Two calls whose agent ids and hosts have no colon share a cache entry only if they ask for the
-- same agent, host and user.
pub fmt_key_injective :
    (agent agent' host host' user user' : Str)
    → NoColon agent
    → NoColon agent'
    → NoColon host
    → NoColon host'
    → fmt_key agent host user ≡ fmt_key agent' host' user'
    → (agent ≡ agent') × (host ≡ host') × (user ≡ user')
unfolding fmt_key
fmt_key_injective agent agent' host host' user user' na na' nh nh' e =
    let outer = cut_colon agent agent' _ _ na na' e in
    let inner = cut_colon host host' user user' nh nh' outer.1 in (outer.0, inner.0, inner.1)
