-- ===== src/Pool/Examples.antt =====
-- Runs of the connection pool, and its theorems at concrete pools.
use lhotse_agent.Prelude.{ℕ, ◌≡◌, refl, true, false, List, [], ◌∷◌, some, arith, ◌==◌}
use lhotse_agent.Prelude.Int.{pos}
use lhotse_agent.Pool.{
  Pool, Config, Env, Op, gets, puts, closes, ok, err, err_closed, new_channel_pool, get, put, close,
  release, run,
}
use lhotse_agent.Pool.Invariant.{IsValid, run-new-IsValid}
use lhotse_agent.Pool.Reuse.{Origin, get-Origin, get-put, released_pool}
use lhotse_agent.Pool.Accounting.{Balanced, run-new-Balanced}

abbrev small : Config
small = record {
  initial_cap = pos 0;
  max_cap = pos 2;
  max_idle = pos 1;
  factory_set = true;
  close_set = true;
  ping_set = true;
  idle_timeout = 30;
}

abbrev fresh : Pool
fresh = record {
  idle = some [];
  capacity = 1;
  factory_set = true;
  close_set = true;
  ping_set = true;
  idle_timeout = 30;
  max_active = pos 2;
  opened_count = pos 0;
  closed = λ c. false;
  calls = [];
}

-- A minute `t` at which the factory makes connection `c`, and all but connection 9 answer.
abbrev minute : ℕ → ℕ → Env
minute t c = record {
  factory = some c;
  ping_ok = λ x. elim (x == 9) [ true ↦ false | false ↦ true ];
  close_ok = λ x. true;
  clock = λ k. t;
}

abbrev session : List (Env × Op)
session =
    (minute 0 7, gets)
    ∷ (minute 1 8, gets)
    ∷ (minute 2 0, puts (some 7))
    ∷ (minute 50 9, gets)
    ∷ (minute 51 0, closes (some 8))
    ∷ []

new_small : new_channel_pool small ≡ ok fresh
unfolding new_channel_pool
new_small = refl

run-new-IsValid_example : IsValid small (run session fresh)
run-new-IsValid_example = run-new-IsValid small fresh session new_small

run-new-Balanced_example : Balanced (run session fresh)
run-new-Balanced_example = run-new-Balanced small fresh session new_small

abbrev one_idle : Pool
one_idle = record fresh { idle = some (record { conn = 7; since = 0 } ∷ []); opened_count = pos 1 }

get-Origin_example :
    Origin (minute 5 8) one_idle (record { conn = 7; since = 0 } ∷ []) (get (minute 5 8) one_idle)
get-Origin_example = get-Origin (minute 5 8) one_idle (record { conn = 7; since = 0 } ∷ []) refl

get-put_example : get (minute 5 8) (put (minute 4 0) (some 7) fresh).0 ≡ (fresh, ok 7)
get-put_example = get-put (minute 4 0) (minute 5 8) fresh 7 refl (omega arith) refl refl refl

released_pool_example :
    (get (minute 5 8) (release one_idle) ≡ (release one_idle, err err_closed))
    × (put (minute 5 8) (some 9) (release one_idle) ≡ (release one_idle, ok tt))
    × (close (minute 5 8) (some 9) (release one_idle) ≡ (release one_idle, ok tt))
released_pool_example = released_pool (minute 5 8) one_idle 9
