-- ===== src/Balancer/Examples.antt =====
-- The load balancers and their theorems at concrete inputs.
use lhotse_agent.Prelude.{
  ◌↔◌, ◌⊎◌, ◌+◌, ◌<◌, ◌%◌, refl, map, ◌-◌, ◌^◌, ◌≡◌, List, [], ◌∷◌, none, some, codes, Str, Option,
  length,
}
use lhotse_agent.Prelude.Int.{ℤ, pos, ◌-ℤ◌}
use lhotse_agent.Balancer.{
  Op, adds, nexts, run, round_robin, remainder, at_index, add, add_node, of_int64, next, serve,
  choose, advance, total_weight, subtract_at, WeightNode,
}
use lhotse_agent.Balancer.Fairness.{IsBalanced, run-IsBalanced}
use lhotse_agent.Balancer.Turns.{round_robin-none_iff}

-- Every text is the number of its bytes.
abbrev by_length : Str → Option ℤ
by_length s = some (pos (length s))

abbrev ops : List Op
ops =
    adds (codes "a" ∷ codes "55555" ∷ [])
    ∷ adds (codes "b" ∷ [])
    ∷ adds (codes "c" ∷ codes "1" ∷ [])
    ∷ nexts
    ∷ nexts
    ∷ []

run-IsBalanced_example : IsBalanced (run by_length ops [])
run-IsBalanced_example = run-IsBalanced by_length ops

abbrev endpoints : List Str
endpoints = codes "a" ∷ codes "b" ∷ codes "c" ∷ []

round_robin-none_iff_example :
    ((round_robin (2 ^ 32 - 1) endpoints).1 ≡ none)
    ↔ ((length endpoints ≡ 0) ⊎ (((2 ^ 32 - 1 + 1) % 2 ^ 32 ≡ 0) × (1 < length endpoints)))
round_robin-none_iff_example = round_robin-none_iff (2 ^ 32 - 1) endpoints

wraps : round_robin (2 ^ 32 - 1) endpoints ≡ (0, none)
unfolding round_robin remainder at_index ◌-ℤ◌
wraps = refl

-- Three of the greatest weights: the weights wrap around, and the sum as well.
abbrev greatest : Str → Option ℤ
greatest s = some (pos (2 ^ 63 - 1))

abbrev great_ops : List Op
great_ops = adds ([] ∷ [] ∷ []) ∷ adds ([] ∷ [] ∷ []) ∷ adds ([] ∷ [] ∷ []) ∷ nexts ∷ []

great_weights :
    map (λ (n : WeightNode). n.current_weight) (run greatest great_ops [])
    ≡ 2 ∷ (2 ^ 63 - 1) ∷ (2 ^ 63 - 1) ∷ []
unfolding run add add_node of_int64 next serve choose advance total_weight subtract_at
great_weights = refl
