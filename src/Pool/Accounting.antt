-- ===== src/Pool/Accounting.antt =====
-- The count of opened connections in pkg/pool/pool.go against the calls of the callbacks.
use lhotse_agent.Prelude.{
  ℕ, suc, ◌+◌, ◌≡◌, refl, true, List, [], ◌∷◌, ◌++◌, Option, none, some, arith,
}
use lhotse_agent.Prelude.Int.{pos, ◌+ℤ◌, pos_part, neg_part, -ℤ_parts, +ℤ_parts}
use lhotse_agent.Pool.{
  Pool, Config, Env, Op, gets, puts, closes, releases, IdleConn, ok, Call, called_factory,
  called_close, new_channel_pool, close_conn, close, open_conn, get_loop, get_from, get, put_conn,
  put, release, step, run,
}

abbrev pub factory_count : List Call → ℕ
factory_count [] = 0
factory_count (called_factory c ∷ cs) = suc (factory_count cs)
factory_count (called_close c ∷ cs) = factory_count cs

abbrev pub close_count : List Call → ℕ
close_count [] = 0
close_count (called_factory c ∷ cs) = close_count cs
close_count (called_close c ∷ cs) = suc (close_count cs)

factory_count-append :
    (xs ys : List Call) → factory_count (xs ++ ys) ≡ factory_count xs + factory_count ys
factory_count-append [] ys = omega arith
factory_count-append (called_factory c ∷ xs) ys = omega (arith, factory_count-append xs ys)
factory_count-append (called_close c ∷ xs) ys = omega (arith, factory_count-append xs ys)

close_count-append : (xs ys : List Call) → close_count (xs ++ ys) ≡ close_count xs + close_count ys
close_count-append [] ys = omega arith
close_count-append (called_factory c ∷ xs) ys = omega (arith, close_count-append xs ys)
close_count-append (called_close c ∷ xs) ys = omega (arith, close_count-append xs ys)

-- opened_count = successful factory calls - close calls, as an equation of naturals.
abbrev pub Balanced : Pool → Type 0
Balanced p =
    p.close_set ≡ true
    → pos_part p.opened_count + close_count p.calls
      ≡ factory_count p.calls + neg_part p.opened_count

close_conn-Balanced :
    (env : Env) (conn : ℕ) (p : Pool) → Balanced p → Balanced (close_conn env conn p).0
unfolding close_conn
close_conn-Balanced env conn p b = ground (
  arith,
  -ℤ_parts p.opened_count (pos 1),
  close_count-append p.calls (called_close conn ∷ []),
  factory_count-append p.calls (called_close conn ∷ []),
)

close-Balanced : (env : Env) (c : Option ℕ) (p : Pool) → Balanced p → Balanced (close env c p).0
unfolding close
close-Balanced env none p b = b
close-Balanced env (some conn) p b = close_conn-Balanced env conn p b

made-Balanced :
    (conn : ℕ) (p : Pool)
    → Balanced p
    → Balanced (record p {
      opened_count = p.opened_count +ℤ pos 1;
      calls = p.calls ++ called_factory conn ∷ [];
    })
made-Balanced conn p b set = omega (
  arith,
  b set,
  +ℤ_parts p.opened_count (pos 1),
  close_count-append p.calls (called_factory conn ∷ []),
  factory_count-append p.calls (called_factory conn ∷ []),
)

open_conn-Balanced : (env : Env) (p : Pool) → Balanced p → Balanced (open_conn env p).0
unfolding open_conn
open_conn-Balanced env p b = made env.factory refl
  where
    made : (f : Option ℕ) → env.factory ≡ f → Balanced (open_conn env p).0
    made none e = ground arith
    made (some conn) e = ground (arith, made-Balanced conn p b)

get_loop-Balanced :
    (env : Env) (k : ℕ) (p : Pool) (ws : List IdleConn)
    → Balanced p
    → Balanced (get_loop env k p ws).0
unfolding get_loop
get_loop-Balanced env k p [] b = open_conn-Balanced env (record p { idle = some [] }) b
get_loop-Balanced env k p (w ∷ ws) b =
    let taken : Pool = record p { idle = some ws } in
    let after : Pool = (close_conn env w.conn taken).0 in
    ground (
      arith,
      get_loop-Balanced env (k + 1) after ws (close_conn-Balanced env w.conn taken b),
      get_loop-Balanced env (k + 1) taken ws b,
    )

get_from-Balanced :
    (env : Env) (p : Pool) (idle : Option (List IdleConn))
    → Balanced p
    → Balanced (get_from env p idle).0
unfolding get_from
get_from-Balanced env p none b = b
get_from-Balanced env p (some ws) b = get_loop-Balanced env 0 p ws b

put_conn-Balanced :
    (env : Env) (conn : ℕ) (p : Pool) (idle : Option (List IdleConn))
    → Balanced p
    → Balanced (put_conn env conn p idle).0
unfolding put_conn
put_conn-Balanced env conn p none b = close_conn-Balanced env conn p b
put_conn-Balanced env conn p (some ws) b = ground (arith, close_conn-Balanced env conn p b)

step-Balanced : (env : Env) (op : Op) (p : Pool) → Balanced p → Balanced (step env op p)
unfolding step get put release
step-Balanced env gets p b = get_from-Balanced env p p.idle b
step-Balanced env (puts none) p b = b
step-Balanced env (puts (some conn)) p b = put_conn-Balanced env conn p p.idle b
step-Balanced env (closes c) p b = close-Balanced env c p b
step-Balanced env releases p b = λ set. cc

run-Balanced : (ops : List (Env × Op)) (p : Pool) → Balanced p → Balanced (run ops p)
unfolding run
run-Balanced [] p b = b
run-Balanced ((env, op) ∷ ops) p b = run-Balanced ops (step env op p) (step-Balanced env op p b)

new-Balanced : (c : Config) (p : Pool) → new_channel_pool c ≡ ok p → Balanced p
unfolding new_channel_pool
new-Balanced c p e = ground arith

-- After any sequence of calls on a pool that NewChannelPool made, and as long as it is not
-- released, the count of opened connections is the number of successful factory calls less the
-- number of calls of the close callback.
pub run-new-Balanced :
    (c : Config) (p : Pool) (ops : List (Env × Op))
    → new_channel_pool c ≡ ok p
    → Balanced (run ops p)
run-new-Balanced c p ops e = run-Balanced ops p (new-Balanced c p e)
