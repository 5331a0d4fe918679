-- ===== src/Pool/Reuse.antt =====
-- What Get of pkg/pool/pool.go hands out, and what Release leaves.
use lhotse_agent.Prelude.{
  sym, if◌then◌else◌, subst, ℕ, ◌+◌, ◌<◌, ◌≡◌, refl, ◌⊎◌, inl, inr, Bool, true, false, not, ◌&&◌,
  List, [], ◌∷◌, Option, some, arith, ltb,
}
use lhotse_agent.Pool.{
  timed_out, Pool, Env, IdleConn, Result, ok, err, err_closed, close_conn, open_conn, get_loop,
  get_from, get, put_conn, put, close, release,
}

pub data Waits (w : IdleConn) : List IdleConn → Type 0 where
  first : (ws : List IdleConn) → Waits w (w ∷ ws)
  later : (v : IdleConn) {ws : List IdleConn} → Waits w ws → Waits w (v ∷ ws)

-- `conn` is an entry of `ws` that has not timed out, that the ping, if one is set, accepts, and
-- whose flag in `closed` is not set.
pub record Reused (env : Env) (timeout : ℕ) (ping_set : Bool) (ws : List IdleConn) (conn : ℕ)
    (closed : ℕ → Bool) : Type 0 where
  pub entry : IdleConn
  pub reading : ℕ
  pub waits : Waits entry ws
  pub is_conn : entry.conn ≡ conn
  pub fresh : (ltb 0 timeout && ltb (entry.since + timeout) (env.clock reading)) ≡ false
  pub answers : (ping_set && not (env.ping_ok conn)) ≡ false
  pub open_flag : closed conn ≡ false

abbrev pub Origin : Env → Pool → List IdleConn → Pool × Result ℕ → Type 0
Origin env p ws r =
    (conn : ℕ)
    → r.1 ≡ ok conn
    → (env.factory ≡ some conn) ⊎ Reused env p.idle_timeout p.ping_set ws conn r.0.closed

Reused-later :
    {env : Env} {t : ℕ} {b : Bool} {ws : List IdleConn} {conn : ℕ} {closed : ℕ → Bool}
    (v : IdleConn)
    → Reused env t b ws conn closed
    → Reused env t b (v ∷ ws) conn closed
Reused-later v r = record {
  entry = r.entry;
  reading = r.reading;
  waits = later v r.waits;
  is_conn = r.is_conn;
  fresh = r.fresh;
  answers = r.answers;
  open_flag = r.open_flag;
}

open_conn-made :
    (env : Env) (p : Pool) (conn : ℕ) → (open_conn env p).1 ≡ ok conn → env.factory ≡ some conn
unfolding open_conn
open_conn-made env p conn e = ground arith

close_conn-settings :
    (env : Env) (conn : ℕ) (p : Pool)
    → ((close_conn env conn p).0.idle_timeout ≡ p.idle_timeout)
      × ((close_conn env conn p).0.ping_set ≡ p.ping_set)
unfolding close_conn
close_conn-settings env conn p = ground arith

Origin-later :
    (env : Env) (p q : Pool) (w : IdleConn) (ws : List IdleConn) (r : Pool × Result ℕ)
    → q.idle_timeout ≡ p.idle_timeout
    → q.ping_set ≡ p.ping_set
    → Origin env q ws r
    → Origin env p (w ∷ ws) r
Origin-later env p q w ws r et eb o conn e = elim (o conn e) [
  | inl made ↦ inl made
  | inr reused ↦ inr (Reused-later w (rw (et, eb) at reused))
]

Origin-if :
    (env : Env) (p : Pool) (ws : List IdleConn) (b : Bool) (x y : Pool × Result ℕ)
    → (b ≡ true → Origin env p ws x)
    → (b ≡ false → Origin env p ws y)
    → Origin env p ws (if b then x else y)
Origin-if env p ws true x y h k = h refl
Origin-if env p ws false x y h k = k refl

Origin-first :
    (env : Env) (p : Pool) (k : ℕ) (w : IdleConn) (ws : List IdleConn)
    → timed_out p (env.clock k) w ≡ false
    → (p.ping_set && not (env.ping_ok w.conn)) ≡ false
    → p.closed w.conn ≡ false
    → Origin env p (w ∷ ws) (record p { idle = some ws }, ok w.conn)
Origin-first env p k w ws fresh answers open_flag conn e =
    let same : w.conn ≡ conn = cc in
    inr (record {
      entry = w;
      reading = k;
      waits = first ws;
      is_conn = same;
      fresh = fresh;
      answers = rw same at answers;
      open_flag = rw same at open_flag;
    })

get_loop-Origin :
    (env : Env) (k : ℕ) (p : Pool) (ws : List IdleConn) → Origin env p ws (get_loop env k p ws)
unfolding get_loop
get_loop-Origin env k p [] = λ conn e. inl (open_conn-made env _ conn e)
get_loop-Origin env k p (w ∷ ws) =
    let taken : Pool = record p { idle = some ws } in
    let after : Pool = (close_conn env w.conn taken).0 in
    let kept = close_conn-settings env w.conn taken in
    let discard =
      Origin-later env p after w ws (get_loop env (k + 1) after ws) kept.0 kept.1
        (get_loop-Origin env (k + 1) after ws) in
    let skip =
      Origin-later env p taken w ws (get_loop env (k + 1) taken ws) refl refl
        (get_loop-Origin env (k + 1) taken ws) in
    Origin-if env p (w ∷ ws) (timed_out p (env.clock k) w) _ _ (λ _. discard)
      λ fresh.
        Origin-if env p (w ∷ ws) (p.ping_set && not (env.ping_ok w.conn)) _ _ (λ _. discard)
          λ answers.
            Origin-if env p (w ∷ ws) (p.closed w.conn) _ _ (λ _. skip)
              λ open_flag. Origin-first env p k w ws fresh answers open_flag

-- A connection that Get returns was made by the factory in this call, or it waited in the channel
-- and is usable: at a reading of the clock during the call it had not timed out, the ping, if one
-- is set, accepts it, and in the pool that Get leaves it is not marked closed.
pub get-Origin :
    (env : Env) (p : Pool) (ws : List IdleConn) → p.idle ≡ some ws → Origin env p ws (get env p)
unfolding get get_from
get-Origin env p ws e =
    subst (λ (i : Option (List IdleConn)). Origin env p ws (get_from env p i)) (sym e)
      (get_loop-Origin env 0 p ws)

-- A connection that was put into an empty channel with room, and that is usable at the next call,
-- is what the next Get returns, and the pool is as it was before Put.
pub get-put :
    (env later_env : Env) (p : Pool) (conn : ℕ)
    → p.idle ≡ some []
    → 0 < p.capacity
    → (ltb 0 p.idle_timeout && ltb (env.clock 1 + p.idle_timeout) (later_env.clock 0)) ≡ false
    → (p.ping_set && not (later_env.ping_ok conn)) ≡ false
    → p.closed conn ≡ false
    → get later_env (put env (some conn) p).0 ≡ (p, ok conn)
unfolding get get_from get_loop put put_conn
get-put env later_env p conn e room fresh answers open_flag = ground arith

-- After Release every Get reports that the pool is closed, whatever the callbacks do, and a
-- connection that is put back is neither kept nor closed: Put returns no error and calls nothing.
pub released_pool :
    (env : Env) (p : Pool) (conn : ℕ)
    → (get env (release p) ≡ (release p, err err_closed))
      × (put env (some conn) (release p) ≡ (release p, ok tt))
      × (close env (some conn) (release p) ≡ (release p, ok tt))
unfolding get get_from put put_conn close close_conn release
released_pool env p conn = (refl, refl, refl)
