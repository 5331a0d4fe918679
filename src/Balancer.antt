-- ===== src/Balancer.antt =====
-- cmd/config: the weighted and the plain round robin, and the random load balancer. A weight
-- is the 64 bits of an int, a number below 2^64 in two's complement; `parse_int` is strconv.ParseInt.
pub mod Fairness
pub mod Turns
pub mod Examples
use lhotse_agent.Prelude.{
  ℕ, ◌+◌, ◌-◌, ◌%◌, ◌^◌, Bool, true, false, List, [], ◌∷◌, ◌++◌, map, Option, none, some, length,
  get_elem?, ltb, ◌==◌, if◌then◌else◌, Str,
}
use lhotse_agent.Prelude.Int.{ℤ, pos, negsuc, ◌-ℤ◌}

-- The bits of an int64, and the operations of int on its bits.
pub of_int64 : ℤ → ℕ
of_int64 (pos n) = n % 2 ^ 64
of_int64 (negsuc n) = 2 ^ 64 - 1 - n % 2 ^ 64

abbrev pub add_int : ℕ → ℕ → ℕ
add_int a b = (a + b) % 2 ^ 64

abbrev pub sub_int : ℕ → ℕ → ℕ
sub_int a b = (a + (2 ^ 64 - b % 2 ^ 64)) % 2 ^ 64

-- The order of the signed numbers that the bits stand for.
abbrev pub less_int : ℕ → ℕ → Bool
less_int a b = ltb ((a + 2 ^ 63) % 2 ^ 64) ((b + 2 ^ 63) % 2 ^ 64)

pub record WeightNode : Type 0 where
  pub cluster : Str
  pub weight : ℕ
  pub current_weight : ℕ
  pub effective_weight : ℕ

pub data AddError : Type 0 where
  params_len invalid_weight : AddError

pub add_node : Str → Option ℤ → List WeightNode → List WeightNode × Option AddError
unfolding of_int64
add_node cluster none nodes = (nodes, some invalid_weight)
add_node cluster (some w) nodes = (
  nodes
      ++ record {
        cluster = cluster;
        weight = of_int64 w;
        current_weight = 0;
        effective_weight = of_int64 w;
      }
        ∷ [],
  none,
)

-- Add: the nodes, and the error if there is one.
pub add : (Str → Option ℤ) → List Str → List WeightNode → List WeightNode × Option AddError
unfolding add_node
add parse_int (cluster ∷ text ∷ []) nodes = add_node cluster (parse_int text) nodes
add parse_int params nodes = (nodes, some params_len)

-- The part of Next's loop that changes a node.
pub advance : WeightNode → WeightNode
advance n = record n {
  current_weight = add_int n.current_weight n.effective_weight;
  effective_weight =
      if less_int n.effective_weight n.weight
      then add_int n.effective_weight 1
      else n.effective_weight;
}

pub total_weight : List WeightNode → ℕ
total_weight [] = 0
total_weight (n ∷ ns) = add_int n.effective_weight (total_weight ns)

-- The part that looks for the best node: its index; `best` is the one so far.
pub choose : ℕ → Option (ℕ × ℕ) → List WeightNode → Option ℕ
choose i none [] = none
choose i (some (k, c)) [] = some k
choose i none (n ∷ ns) = choose (i + 1) (some (i, n.current_weight)) ns
choose i (some (k, c)) (n ∷ ns) =
    let newer = choose (i + 1) (some (i, n.current_weight)) ns in
    let older = choose (i + 1) (some (k, c)) ns in
    if less_int c n.current_weight then newer else older

pub subtract_at : ℕ → ℕ → List WeightNode → List WeightNode
subtract_at k t [] = []
subtract_at ℕ.zero t (n ∷ ns) = record n { current_weight = sub_int n.current_weight t } ∷ ns
subtract_at (ℕ.suc k) t (n ∷ ns) = n ∷ subtract_at k t ns

cluster_at : Option WeightNode → Str
cluster_at none = []
cluster_at (some n) = n.cluster

pub serve : ℕ → List WeightNode → Option ℕ → List WeightNode × Str
unfolding subtract_at cluster_at
serve t nodes none = (nodes, [])
serve t nodes (some k) = (subtract_at k t nodes, cluster_at (get_elem? nodes k))

-- Next; Select returns the same with no error.
pub next : List WeightNode → List WeightNode × Str
unfolding serve choose advance total_weight
next nodes =
    let advanced = map advance nodes in serve (total_weight nodes) advanced (choose 0 none advanced)

-- The calls on a balancer, in order.
pub data Op : Type 0 where
  adds : List Str → Op
  nexts : Op

pub run : (Str → Option ℤ) → List Op → List WeightNode → List WeightNode
run parse_int [] nodes = nodes
run parse_int (adds params ∷ ops) nodes = run parse_int ops (add parse_int params nodes).0
run parse_int (nexts ∷ ops) nodes = run parse_int ops (next nodes).0

-- Go's remainder, which has the sign of the dividend.
pub remainder : ℤ → ℕ → ℤ
remainder (pos n) m = pos (n % m)
remainder (negsuc n) m = pos 0 -ℤ pos ((n + 1) % m)

-- The element at an index; `none` is the run-time error of an index out of range.
pub at_index {ℓ} : {A : Type ℓ} → ℤ → List A → Option A
at_index (pos i) es = get_elem? es i
at_index (negsuc i) es = none

-- RoundRobinLoadBalancer.Select: the new counter, a uint32, and the endpoint; `none` is the run-time
-- error of an index out of range or of a division by zero. The counter as an int has its value.
pub round_robin {ℓ} : {A : Type ℓ} → ℕ → List A → ℕ × Option A
unfolding remainder at_index
round_robin next endpoints =
    let n = (next + 1) % 2 ^ 32 in
    (
      n,
      if length endpoints == 0
          then none
          else at_index (remainder (pos n -ℤ pos 1) (length endpoints)) endpoints,
    )

-- The endpoint that k calls before this one leave to be selected.
pub round_robins {ℓ} : {A : Type ℓ} → ℕ → ℕ → List A → ℕ
round_robins ℕ.zero next endpoints = next
round_robins (ℕ.suc k) next endpoints = round_robins k (round_robin next endpoints).0 endpoints

-- RandomLoadBalancer.Select; `intn` is rand.Intn of the size.
pub random_select {ℓ} : {A : Type ℓ} → (ℕ → ℕ) → List A → Option A
random_select intn endpoints =
    if length endpoints == 0 then none else get_elem? endpoints (intn (length endpoints))
