-- ===== src/Pool.antt =====
-- pkg/pool/pool.go: the channel-backed connection pool. Each method is one step of the pool, as its
-- mutex and channel make it when no other call runs between its two locks. A *ClientConn is a
-- number; its Closed flag lives in `closed`, which all holders of the pointer share. `calls` is the
-- trace of calls to the configured callbacks. `none` as `idle` is a nil channel, which Release
-- leaves behind. Put reads the clock twice, the second time for the entry. Read deadlines and the buffered reader that Put installs are not modelled.
pub mod Invariant
pub mod Reuse
pub mod Accounting
pub mod Examples
use lhotse_agent.Prelude.{
  ℕ, zero, suc, ◌+◌, ◌≤◌, ◌<◌, ◌≡◌, Bool, true, false, not, ◌&&◌, ◌||◌, List, [], ◌∷◌, ◌++◌, map,
  Option, none, some, ltb, leb, ◌==◌, if◌then◌else◌, length, arith,
}
use lhotse_agent.Prelude.Int.{ℤ, pos, negsuc, ◌+ℤ◌, ◌-ℤ◌, ltb_ℤ, pos_part}

pub data Error : Type 0 where
  invalid_capacity invalid_factory invalid_close : Error
  err_closed err_max_active_conn_reached nil_connection factory_failed close_failed : Error

pub data Result {ℓ} (A : Type ℓ) : Type ℓ where
  ok : A → Result A
  err : Error → Result A

-- Config; of the callbacks, whether each is set. Capacities are Go ints.
pub record Config : Type 0 where
  pub initial_cap : ℤ
  pub max_cap : ℤ
  pub max_idle : ℤ
  pub factory_set : Bool
  pub close_set : Bool
  pub ping_set : Bool
  pub idle_timeout : ℕ

pub record IdleConn : Type 0 where
  pub conn : ℕ
  pub since : ℕ

pub data Call : Type 0 where
  called_factory called_close : ℕ → Call

pub record Pool : Type 0 where
  pub idle : Option (List IdleConn)
  pub capacity : ℕ
  pub factory_set : Bool
  pub close_set : Bool
  pub ping_set : Bool
  pub idle_timeout : ℕ
  pub max_active : ℤ
  pub opened_count : ℤ
  pub closed : ℕ → Bool
  pub calls : List Call

-- What the callbacks and the clock answer during one method call. `factory` is the connection that
-- the factory makes, if it succeeds; `clock k` is the k-th reading of time.Now.
pub record Env : Type 0 where
  pub factory : Option ℕ
  pub ping_ok : ℕ → Bool
  pub close_ok : ℕ → Bool
  pub clock : ℕ → ℕ

abbrev leb_ℤ : ℤ → ℤ → Bool
leb_ℤ a b = not (ltb_ℤ b a)

-- NewChannelPool; no connection is closed yet.
unfoldable pub new_channel_pool : Config → Result Pool
new_channel_pool c =
    if not
      (leb_ℤ c.initial_cap c.max_idle && leb_ℤ c.max_idle c.max_cap && leb_ℤ (pos 0) c.initial_cap)
    then err invalid_capacity
    else if not c.factory_set
    then err invalid_factory
    else if not c.close_set
    then err invalid_close
    else ok (record {
      idle = some [];
      capacity = pos_part c.max_idle;
      factory_set = true;
      close_set = true;
      ping_set = c.ping_set;
      idle_timeout = c.idle_timeout;
      max_active = c.max_cap;
      opened_count = pos 0;
      closed = λ conn. false;
      calls = [];
    })

mark_closed : ℕ → (ℕ → Bool) → ℕ → Bool
mark_closed conn closed other = conn == other || closed other

-- Close of a connection that is not nil.
close_conn : Env → ℕ → Pool → Pool × Result (Unit {0})
unfolding mark_closed
close_conn env conn p = if not p.close_set then (p, ok tt) else (
  record p {
    opened_count = p.opened_count -ℤ pos 1;
    closed = mark_closed conn p.closed;
    calls = p.calls ++ called_close conn ∷ [];
  },
  (if env.close_ok conn then ok tt else err close_failed),
)

pub close : Env → Option ℕ → Pool → Pool × Result (Unit {0})
unfolding close_conn
close env none p = (p, err nil_connection)
close env (some conn) p = close_conn env conn p

-- The `default` case of Get: no connection waits in the channel.
open_conn : Env → Pool → Pool × Result ℕ
open_conn env p =
    if not (ltb_ℤ p.opened_count p.max_active)
    then (p, err err_max_active_conn_reached)
    else if not p.factory_set
    then (p, err err_closed)
    else elim env.factory [
      | none ↦ (p, err factory_failed)
      | some conn ↦ (
        record p {
          opened_count = p.opened_count +ℤ pos 1;
          calls = p.calls ++ called_factory conn ∷ [];
        },
        ok conn,
      )
    ]

-- The idle timeout test: `wrapConn.t.Add(timeout).Before(time.Now())`, if there is a timeout.
abbrev timed_out : Pool → ℕ → IdleConn → Bool
timed_out p now w = ltb 0 p.idle_timeout && ltb (w.since + p.idle_timeout) now

-- The loop of Get over the channel's content; `k` counts the readings of the clock.
get_loop : Env → ℕ → Pool → List IdleConn → Pool × Result ℕ
get_loop env k p [] = open_conn env (record p { idle = some [] })
get_loop env k p (w ∷ ws) =
    let taken : Pool = record p { idle = some ws } in
    let discard = get_loop env (k + 1) (close_conn env w.conn taken).0 ws in
    let skip = get_loop env (k + 1) taken ws in
    if timed_out p (env.clock k) w
    then discard
    else if p.ping_set && not (env.ping_ok w.conn)
    then discard
    else if p.closed w.conn
    then skip
    else (taken, ok w.conn)

get_from : Env → Pool → Option (List IdleConn) → Pool × Result ℕ
get_from env p none = (p, err err_closed)
get_from env p (some ws) = get_loop env 0 p ws

pub get : Env → Pool → Pool × Result ℕ
unfolding get_from
get env p = get_from env p p.idle

put_conn : Env → ℕ → Pool → Option (List IdleConn) → Pool × Result (Unit {0})
put_conn env conn p none = close_conn env conn p
put_conn env conn p (some ws) =
    if ltb (length ws) p.capacity
    then (record p { idle = some (ws ++ record { conn = conn; since = env.clock 1 } ∷ []) }, ok tt)
    else close_conn env conn p

pub put : Env → Option ℕ → Pool → Pool × Result (Unit {0})
unfolding put_conn
put env none p = (p, err nil_connection)
put env (some conn) p = put_conn env conn p p.idle

-- Release closes what waits in the channel through the callback alone.
close_calls : List IdleConn → List Call
close_calls [] = []
close_calls (w ∷ ws) = called_close w.conn ∷ close_calls ws

drained : Option (List IdleConn) → List Call
unfolding close_calls
drained none = []
drained (some ws) = close_calls ws

pub release : Pool → Pool
unfolding drained
release p = record p {
  idle = none;
  factory_set = false;
  close_set = false;
  ping_set = false;
  calls = p.calls ++ drained p.idle;
}

-- Len
abbrev pub waiting : Option (List IdleConn) → ℕ
waiting none = 0
waiting (some ws) = length ws

pub len : Pool → ℕ
len p = waiting p.idle

-- The methods as operations that a client calls in some order.
pub data Op : Type 0 where
  gets : Op
  puts closes : Option ℕ → Op
  releases : Op

pub step : Env → Op → Pool → Pool
step env gets p = (get env p).0
step env (puts conn) p = (put env conn p).0
step env (closes conn) p = (close env conn p).0
step env releases p = release p

pub run : List (Env × Op) → Pool → Pool
run [] p = p
run ((env, op) ∷ ops) p = run ops (step env op p)
