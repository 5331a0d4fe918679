-- ===== src/TtlCache/Sources.antt =====
-- Where the answers of the caches in pkg/credential and pkg/identity come from.
use lhotse_agent.Prelude.{
  append_assoc, append-nil, ℕ, ◌+◌, ◌<◌, ◌≡◌, refl, sym, ap, ◌∙◌, subst, inl, inr, List, [], ◌∷◌,
  ◌++◌, Option, none, some, ltb, ltb→lt, lt→ltb, Str, str_eq, str_eq_sound, lookup, delete,
  lookup-insert, lookup-insert_self, lookup-delete, Bool-cases, In, here, In-append_left,
  In-append_right,
}
use lhotse_agent.TtlCache.{
  Entry, Cache, Answer, keeps, passes, fails, ok, Call, store_answer, resolve_found, resolve, run,
}

module _ {ℓ κ} {V : Type ℓ} {E : Type κ} where
  -- The entry was stored by a call with the same key, to which the service answered its value.
  pub record Stored (ks : List (Call V E)) (key : Str) (entry : Entry V) : Type (ℓ ⊔ κ) where
    pub call : Call V E
    pub ttl : ℕ
    pub happened : In call ks
    pub same_key : call.key ≡ key
    pub answered : call.answer ≡ keeps entry.value ttl
    pub expires : entry.expires_at ≡ call.stored_at + ttl

  -- Every entry of the cache was stored by one of the calls.
  pub IsStored : List (Call V E) → Cache V → Type (ℓ ⊔ κ)
  IsStored ks c = (key : Str) (entry : Entry V) → lookup key c ≡ some entry → Stored ks key entry

  -- A value that a call may return: the service answered it to this very call, or to an earlier call
  -- with the same key, whose time to live has not passed.
  pub data Source (ks : List (Call V E)) (k : Call V E) (v : V) : Type (ℓ ⊔ κ) where
    asked_and_kept : (ttl : ℕ) → k.answer ≡ keeps v ttl → Source ks k v
    asked : k.answer ≡ passes v → Source ks k v
    remembered :
        (call : Call V E) (ttl : ℕ)
        → In call ks
        → call.key ≡ k.key
        → call.answer ≡ keeps v ttl
        → k.checked_at < call.stored_at + ttl
        → Source ks k v

  Stored-later :
      {ks : List (Call V E)} {key : Str} {entry : Entry V} (more : List (Call V E))
      → Stored ks key entry
      → Stored (ks ++ more) key entry
  Stored-later more s = record {
    call = s.call;
    ttl = s.ttl;
    happened = In-append_left more s.happened;
    same_key = s.same_key;
    answered = s.answered;
    expires = s.expires;
  }

  delete-IsStored :
      (ks : List (Call V E)) (key : Str) (c : Cache V) → IsStored ks c → IsStored ks (delete key c)
  unfolding IsStored
  delete-IsStored ks key c w j entry h = elim (Bool-cases (str_eq key j)) [
    | inl same ↦ absurd (let clash = rw (lookup-delete key j c, same) at h in cc)
    | inr other ↦ w j entry (rw (lookup-delete key j c, other) at h)
  ]

  store_answer-IsStored :
      (ks : List (Call V E)) (k : Call V E) (a : Answer V E) (c : Cache V)
      → k.answer ≡ a
      → IsStored ks c
      → IsStored (ks ++ k ∷ []) (store_answer k.key k.stored_at a c).0
  unfolding store_answer IsStored
  store_answer-IsStored ks k (passes v) c e w j entry h = Stored-later (k ∷ []) (w j entry h)
  store_answer-IsStored ks k (fails x) c e w j entry h = Stored-later (k ∷ []) (w j entry h)
  store_answer-IsStored ks k (keeps v ttl) c e w j entry h = elim (Bool-cases (str_eq k.key j)) [
    | inr other ↦ Stored-later (k ∷ []) (w j entry (rw (lookup-insert k.key j _ c, other) at h))
    | inl same ↦
        let kept : record { value = v; expires_at = k.stored_at + ttl } ≡ entry =
          cc (rw (lookup-insert k.key j _ c, same) at h) in
        record {
          call = k;
          ttl = ttl;
          happened = In-append_right ks (here []);
          same_key = str_eq_sound k.key j same;
          answered = e ∙ ap (λ (x : Entry V). keeps x.value ttl) kept;
          expires = sym (ap (λ (x : Entry V). x.expires_at) kept);
        }
  ]

  resolve_found-IsStored :
      (ks : List (Call V E)) (k : Call V E) (c : Cache V) (o : Option (Entry V))
      → IsStored ks c
      → IsStored (ks ++ k ∷ []) (resolve_found k c o).0
  unfolding resolve_found IsStored
  resolve_found-IsStored ks k c none w = store_answer-IsStored ks k k.answer c refl w
  resolve_found-IsStored ks k c (some entry) w =
      elim (Bool-cases (ltb k.checked_at entry.expires_at)) [
        | inl fresh ↦ rw fresh (λ j x h. Stored-later (k ∷ []) (w j x h))
        | inr old ↦ rw old (
            store_answer-IsStored ks k k.answer (delete k.key c) refl
              (delete-IsStored ks k.key c w))
      ]

  run-IsStored :
      (before ks : List (Call V E)) (c : Cache V)
      → IsStored before c
      → IsStored (before ++ ks) (run ks c)
  unfolding run resolve
  run-IsStored before [] c w =
      subst (λ (b : List (Call V E)). IsStored b c) (sym (append-nil before)) w
  run-IsStored before (k ∷ ks) c w =
      subst (λ (b : List (Call V E)). IsStored b (run ks (resolve k c).0))
        (append_assoc before (k ∷ []) ks)
        (run-IsStored (before ++ k ∷ []) ks (resolve k c).0
          (resolve_found-IsStored before k c (lookup k.key c) w))

  store_answer-Source :
      (ks : List (Call V E)) (k : Call V E) (a : Answer V E) (c : Cache V) (v : V)
      → k.answer ≡ a
      → (store_answer k.key k.stored_at a c).1 ≡ ok v
      → Source ks k v
  unfolding store_answer
  store_answer-Source ks k (keeps x ttl) c v e h =
      let same : x ≡ v = cc in asked_and_kept ttl (e ∙ ap (λ (y : V). keeps y ttl) same)
  store_answer-Source ks k (passes x) c v e h = let same : x ≡ v = cc in asked (e ∙ ap passes same)
  store_answer-Source ks k (fails x) c v e h = absurd (let clash = h in cc)

  resolve_found-Source :
      (ks : List (Call V E)) (k : Call V E) (c : Cache V) (o : Option (Entry V)) (v : V)
      → IsStored ks c
      → lookup k.key c ≡ o
      → (resolve_found k c o).1 ≡ ok v
      → Source ks k v
  unfolding resolve_found IsStored
  resolve_found-Source ks k c none v w e h = store_answer-Source ks k k.answer c v refl h
  resolve_found-Source ks k c (some entry) v w e h =
      elim (Bool-cases (ltb k.checked_at entry.expires_at)) [
        | inr old ↦ store_answer-Source ks k k.answer (delete k.key c) v refl (rw old at h)
        | inl fresh ↦
            let s = w k.key entry e in
            let same : entry.value ≡ v = cc (rw fresh at h) in
            remembered s.call s.ttl s.happened s.same_key
              (s.answered ∙ ap (λ (y : V). keeps y s.ttl) same)
              (subst (λ (t : ℕ). k.checked_at < t) s.expires
                (ltb→lt k.checked_at entry.expires_at fresh))
      ]

  -- After any calls on a cache that was empty, the value that one more call returns has a source.
  pub resolve-run-Source :
      (ks : List (Call V E)) (k : Call V E) (v : V)
      → (resolve k (run ks [])).1 ≡ ok v
      → Source ks k v
  unfolding resolve IsStored lookup
  resolve-run-Source ks k v h =
      resolve_found-Source ks k (run ks []) (lookup k.key (run ks [])) v
        (run-IsStored [] ks [] (λ key entry e. cc)) refl h

  -- Within its time to live a kept value is returned again, whatever the service would answer.
  pub resolve-again :
      (k later : Call V E) (c : Cache V) (v : V) (ttl : ℕ)
      → lookup k.key c ≡ none
      → k.answer ≡ keeps v ttl
      → later.key ≡ k.key
      → later.checked_at < k.stored_at + ttl
      → resolve later (resolve k c).0 ≡ ((resolve k c).0, ok v)
  unfolding resolve resolve_found store_answer
  resolve-again k later c v ttl missing answered same fresh =
      rw
        (
          missing,
          answered,
          same,
          lookup-insert_self k.key (record { value = v; expires_at = k.stored_at + ttl }) c,
          lt→ltb later.checked_at (k.stored_at + ttl) fresh,
        )
        refl
