-- ===== src/Pool/Invariant.antt =====
-- The bounds that the pool of pkg/pool/pool.go keeps through every sequence of calls.
use lhotse_agent.Prelude.{
  inr, ltb→lt, length-append, ◌++◌, inl, ltb, refl, Bool-cases, ◌+◌, ℕ, ◌≤◌, ◌≡◌, true, false, none,
  arith,
}
use lhotse_agent.Prelude.Int.{+ℤ_parts, pos, ◌≤ℤ◌, pos_part, -ℤ_parts}
use lhotse_agent.Pool.{
  releases, gets, closes, puts, [], ◌∷◌, some, length, release, Op, IdleConn, get, Option, ok,
  Config, close, step, get_from, put, run, put_conn, open_conn, get_loop, new_channel_pool, List,
  Pool, Env, close_conn, waiting,
}

-- The capacity and the maximum are those that were configured, what waits and the count stay within
-- them, and the callbacks are the configured ones until the channel is nil, and then cleared.
pub record IsValid (cfg : Config) (p : Pool) : Type 0 where
  pub capacity : p.capacity ≡ pos_part cfg.max_idle
  pub maximum : p.max_active ≡ cfg.max_cap
  pub timeout : p.idle_timeout ≡ cfg.idle_timeout
  pub fits : waiting p.idle ≤ pos_part cfg.max_idle
  pub capped : p.opened_count ≤ℤ cfg.max_cap
  pub serving :
      (p.idle ≡ none → ⊥)
      → (p.close_set ≡ true) × (p.factory_set ≡ true) × (p.ping_set ≡ cfg.ping_set)
  pub released :
      p.idle ≡ none → (p.close_set ≡ false) × (p.factory_set ≡ false) × (p.ping_set ≡ false)

module _ (cfg : Config) where
  close_conn-IsValid :
      (env : Env) (conn : ℕ) (p : Pool) → IsValid cfg p → IsValid cfg (close_conn env conn p).0
  unfolding close_conn
  close_conn-IsValid env conn p v = ground (
    arith,
    -ℤ_parts p.opened_count (pos 1),
    v.capacity,
    v.maximum,
    v.timeout,
    v.serving,
    v.released,
  )

  close-IsValid :
      (env : Env) (c : Option ℕ) (p : Pool) → IsValid cfg p → IsValid cfg (close env c p).0
  unfolding close
  close-IsValid env none p v = v
  close-IsValid env (some conn) p v = close_conn-IsValid env conn p v

  -- Another content of a channel that is not nil.
  refilled-IsValid :
      (p : Pool) (ws : List IdleConn)
      → IsValid cfg p
      → (p.idle ≡ none → ⊥)
      → length ws ≤ pos_part cfg.max_idle
      → IsValid cfg (record p { idle = some ws })
  refilled-IsValid p ws v live h = record {
    capacity = v.capacity;
    maximum = v.maximum;
    timeout = v.timeout;
    fits = h;
    capped = v.capped;
    serving = λ _. v.serving live;
    released = λ e. cc;
  }

  open_conn-IsValid : (env : Env) (p : Pool) → IsValid cfg p → IsValid cfg (open_conn env p).0
  unfolding open_conn
  open_conn-IsValid env p v = ground (
    arith,
    +ℤ_parts p.opened_count (pos 1),
    v.capacity,
    v.maximum,
    v.timeout,
    v.serving,
    v.released,
  )

  close_conn-idle : (env : Env) (conn : ℕ) (p : Pool) → (close_conn env conn p).0.idle ≡ p.idle
  unfolding close_conn
  close_conn-idle env conn p = ground arith

  get_loop-IsValid :
      (env : Env) (k : ℕ) (p : Pool) (ws : List IdleConn)
      → IsValid cfg p
      → (p.idle ≡ none → ⊥)
      → length ws ≤ pos_part cfg.max_idle
      → IsValid cfg (get_loop env k p ws).0
  unfolding get_loop
  get_loop-IsValid env k p [] v live h =
      open_conn-IsValid env _ (refilled-IsValid p [] v live (omega arith))
  get_loop-IsValid env k p (w ∷ ws) v live h =
      let taken : Pool = record p { idle = some ws } in
      let ok_taken : IsValid cfg taken = refilled-IsValid p ws v live (omega arith) in
      let after = close_conn env w.conn taken in
      let same : after.0.idle ≡ some ws = close_conn-idle env w.conn taken in
      let closed =
        get_loop-IsValid env (k + 1) after.0 ws (close_conn-IsValid env w.conn taken ok_taken)
          (λ e. cc same) (omega arith) in
      let skipped = get_loop-IsValid env (k + 1) taken ws ok_taken (λ e. cc) (omega arith) in
      ground (arith, ok_taken, closed, skipped)

  get_from-IsValid :
      (env : Env) (p : Pool) (idle : Option (List IdleConn))
      → p.idle ≡ idle
      → IsValid cfg p
      → IsValid cfg (get_from env p idle).0
  unfolding get_from
  get_from-IsValid env p none e v = v
  get_from-IsValid env p (some ws) e v =
      get_loop-IsValid env 0 p ws v (λ nil. cc e) (let h = rw e at v.fits in h)

  put_conn-IsValid :
      (env : Env) (conn : ℕ) (p : Pool) (idle : Option (List IdleConn))
      → p.idle ≡ idle
      → IsValid cfg p
      → IsValid cfg (put_conn env conn p idle).0
  unfolding put_conn
  put_conn-IsValid env conn p none e v = close_conn-IsValid env conn p v
  put_conn-IsValid env conn p (some ws) e v =
      let entry : List IdleConn = record { conn = conn; since = env.clock 1 } ∷ [] in
      elim (Bool-cases (ltb (length ws) p.capacity)) [
        | inl room ↦ rw room (
            refilled-IsValid p (ws ++ entry) v (λ nil. cc e)
              (omega
                (arith, length-append ws entry, ltb→lt (length ws) p.capacity room, v.capacity)))
        | inr full ↦ rw full (close_conn-IsValid env conn p v)
      ]

  put-IsValid : (env : Env) (c : Option ℕ) (p : Pool) → IsValid cfg p → IsValid cfg (put env c p).0
  unfolding put
  put-IsValid env none p v = v
  put-IsValid env (some conn) p v = put_conn-IsValid env conn p p.idle refl v

  step-IsValid : (env : Env) (op : Op) (p : Pool) → IsValid cfg p → IsValid cfg (step env op p)
  unfolding step get release
  step-IsValid env gets p v = get_from-IsValid env p p.idle refl v
  step-IsValid env (puts c) p v = put-IsValid env c p v
  step-IsValid env (closes c) p v = close-IsValid env c p v
  step-IsValid env releases p v = record {
    capacity = v.capacity;
    maximum = v.maximum;
    timeout = v.timeout;
    fits = omega arith;
    capped = v.capped;
    serving = λ live. absurd (live refl);
    released = λ e. (refl, refl, refl);
  }

  run-IsValid : (ops : List (Env × Op)) (p : Pool) → IsValid cfg p → IsValid cfg (run ops p)
  unfolding run
  run-IsValid [] p v = v
  run-IsValid ((env, op) ∷ ops) p v = run-IsValid ops (step env op p) (step-IsValid env op p v)

  new-IsValid : (p : Pool) → new_channel_pool cfg ≡ ok p → IsValid cfg p
  unfolding new_channel_pool
  new-IsValid p e = ground arith

-- After any sequence of Get, Put, Close and Release on a pool that NewChannelPool made, with any
-- answers of the callbacks and the clock, the channel's size is MaxIdle and at most so many
-- connections wait, the maximum is MaxCap and the count of opened connections is at most that, the
-- idle timeout is the configured one, and the callbacks are those of the configuration until the
-- channel is nil, when all three are cleared.
pub run-new-IsValid :
    (c : Config) (p : Pool) (ops : List (Env × Op))
    → new_channel_pool c ≡ ok p
    → IsValid c (run ops p)
run-new-IsValid c p ops e = run-IsValid c ops p (new-IsValid c p e)
