-- ===== src/Balancer/Fairness.antt =====
-- The sum of the current weights of cmd/config/weightRoundRobinBalancer.go.
use lhotse_agent.Prelude.{
  ap, ◌∙◌, Option, Str, ℕ, suc, zero, ◌+◌, ◌<◌, ◌≡◌, refl, inl, inr, List, [], ◌∷◌, ◌++◌, map, none,
  some, length, arith, Bool-cases, Option-cases,
}
use lhotse_agent.Prelude.Int.{ℤ}
use lhotse_agent.Balancer.{
  of_int64, add_int, sub_int, less_int, nexts, adds, Op, run, add_node, add, WeightNode, advance,
  total_weight, choose, subtract_at, serve, next,
}

-- The sum of the current weights, as an int.
abbrev pub current_total : List WeightNode → ℕ
current_total [] = 0
current_total (n ∷ ns) = add_int n.current_weight (current_total ns)

-- The current weights sum to zero.
abbrev pub IsBalanced : List WeightNode → Type 0
IsBalanced nodes = current_total nodes ≡ 0

current_total-append :
    (xs ys : List WeightNode) → current_total ys ≡ 0 → current_total (xs ++ ys) ≡ current_total xs
current_total-append [] ys z = z
current_total-append (x ∷ xs) ys z = ap (add_int x.current_weight) (current_total-append xs ys z)

-- Advancing all nodes adds the total weight.
advance_adds :
    (ns : List WeightNode)
    → current_total (map advance ns) ≡ add_int (current_total ns) (total_weight ns)
unfolding advance total_weight
advance_adds [] = refl
advance_adds (n ∷ ns) = omega (arith, advance_adds ns)

subtract_at_takes :
    (k t : ℕ) (ns : List WeightNode)
    → k < length ns
    → current_total (subtract_at k t ns) ≡ sub_int (current_total ns) t
unfolding subtract_at
subtract_at_takes k t [] h = absurd (omega (arith, h))
subtract_at_takes zero t (n ∷ ns) h = omega arith
subtract_at_takes (suc k) t (n ∷ ns) h =
    let small : k < length ns = omega (arith, h) in omega (arith, subtract_at_takes k t ns small)

-- The index that is chosen is that of a node.
choose_later :
    (i k c : ℕ) (ns : List WeightNode) (j : ℕ)
    → k < i
    → choose i (some (k, c)) ns ≡ some j
    → j < i + length ns
unfolding choose
choose_later i k c [] j h e = let same : k ≡ j = cc in omega (arith, same, h)
choose_later i k c (n ∷ ns) j h e = elim (Bool-cases (less_int c n.current_weight)) [
  | inl more ↦
      omega (arith, choose_later (i + 1) i n.current_weight ns j (omega arith) (rw more at e))
  | inr less ↦ omega (arith, choose_later (i + 1) k c ns j (omega (arith, h)) (rw less at e))
]

choose_fits : (ns : List WeightNode) (j : ℕ) → choose 0 none ns ≡ some j → j < length ns
unfolding choose
choose_fits [] j e = absurd (let clash = e in cc)
choose_fits (n ∷ ns) j e = omega (arith, choose_later 1 0 n.current_weight ns j (omega arith) e)

choose-some : (ns : List WeightNode) (i : ℕ) (b : ℕ × ℕ) → choose i (some b) ns ≡ none → ⊥
unfolding choose
choose-some [] i (k, c) e = absurd (let clash = e in cc)
choose-some (m ∷ ns) i (k, c) e = elim (Bool-cases (less_int c m.current_weight)) [
  | inl more ↦ choose-some ns (i + 1) (i, m.current_weight) (rw more at e)
  | inr less ↦ choose-some ns (i + 1) (k, c) (rw less at e)
]

next-IsBalanced : (ns : List WeightNode) → IsBalanced ns → IsBalanced (next ns).0
unfolding next serve choose
next-IsBalanced [] b = refl
next-IsBalanced (n ∷ ns) b = elim (Option-cases (choose 0 none (map advance (n ∷ ns)))) [
  | inl nobody ↦ absurd (choose-some (map advance ns) 1 (0, (advance n).current_weight) nobody)
  | inr (k, e) ↦ rw e (
      omega (
        arith,
        b,
        advance_adds (n ∷ ns),
        subtract_at_takes k (total_weight (n ∷ ns)) (map advance (n ∷ ns))
            (choose_fits (map advance (n ∷ ns)) k e),
      ))
]

add_node-IsBalanced :
    (cluster : Str) (w : Option ℤ) (ns : List WeightNode)
    → IsBalanced ns
    → IsBalanced (add_node cluster w ns).0
unfolding add_node
add_node-IsBalanced cluster none ns b = b
add_node-IsBalanced cluster (some w) ns b =
    current_total-append ns
      (record {
        cluster = cluster;
        weight = of_int64 w;
        current_weight = 0;
        effective_weight = of_int64 w;
      }
        ∷ [])
      refl
    ∙ b

add-IsBalanced :
    (parse_int : Str → Option ℤ) (params : List Str) (ns : List WeightNode)
    → IsBalanced ns
    → IsBalanced (add parse_int params ns).0
unfolding add
add-IsBalanced parse_int [] ns b = b
add-IsBalanced parse_int (c ∷ []) ns b = b
add-IsBalanced parse_int (c ∷ t ∷ u ∷ rest) ns b = b
add-IsBalanced parse_int (c ∷ t ∷ []) ns b = add_node-IsBalanced c (parse_int t) ns b

run_keeps :
    (parse_int : Str → Option ℤ) (ops : List Op) (ns : List WeightNode)
    → IsBalanced ns
    → IsBalanced (run parse_int ops ns)
unfolding run
run_keeps parse_int [] ns b = b
run_keeps parse_int (adds params ∷ ops) ns b =
    run_keeps parse_int ops (add parse_int params ns).0 (add-IsBalanced parse_int params ns b)
run_keeps parse_int (nexts ∷ ops) ns b = run_keeps parse_int ops (next ns).0 (next-IsBalanced ns b)

-- After any sequence of calls of Add, failed ones included, and of Next on a new balancer, the
-- current weights of its nodes sum to zero, in the arithmetic of int, which wraps around.
pub run-IsBalanced :
    (parse_int : Str → Option ℤ) (ops : List Op) → IsBalanced (run parse_int ops [])
run-IsBalanced parse_int ops = run_keeps parse_int ops [] refl
