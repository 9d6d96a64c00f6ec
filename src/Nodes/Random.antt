-- ===== src/Nodes/Random.antt =====
-- The random node: whatever the random numbers, the shuffle is a rearrangement, so no node is missed.
use swift_go.Prelude.{
  ℕ, zero, suc, ◌+◌, ◌≤◌, ◌<◌, ◌≡◌, refl, sym, ◌∙◌, arith, Bool, true, false, none, some, List, [],
  ◌∷◌, ◌==◌, if◌then◌else◌, length, get_elem?, set, get_or, length-set, get_elem?-set_self,
  get_elem?-set_ne, get_elem?-get_or, get_elem?_lt, lt_of_get_elem?, Bool-cases, Option-cases, inl,
  inr,
}
use swift_go.Node.{Node}
use swift_go.Nodes.{Nodes, swap, count_up, shuffle, node_at_index, find_node, get_random_node}

-- where a position goes under the exchange of `i` and `j`
abbrev exchange : ℕ → ℕ → ℕ → ℕ
exchange i j p = if p == i then j else if p == j then i else p

exchange_twice : (i j p : ℕ) → exchange i j (exchange i j p) ≡ p
exchange_twice i j p = ground arith

get_elem?-swap :
    (l : List ℕ) (i j p : ℕ)
    → i < length l
    → j < length l
    → get_elem? (swap l i j) p ≡ get_elem? l (exchange i j p)
unfolding swap
get_elem?-swap l i j p hi hj = ground (
  arith,
  length-set l i (get_or l j 0),
  get_elem?-set_self (set l i (get_or l j 0)) j (get_or l i 0),
  get_elem?-set_ne (set l i (get_or l j 0)) j p (get_or l i 0),
  get_elem?-set_self l i (get_or l j 0),
  get_elem?-set_ne l i p (get_or l j 0),
  get_elem?-get_or l i 0 hi,
  get_elem?-get_or l j 0 hj,
)

-- The list holds every number below `n`, and nothing else.
record IsRearranged (n : ℕ) (l : List ℕ) : Type 0 where
  count : length l ≡ n
  bounds : (p k : ℕ) → get_elem? l p ≡ some k → k < n
  covers : (k : ℕ) → k < n → (p : ℕ) × (get_elem? l p ≡ some k)

swap-IsRearranged :
    (n i j : ℕ) (l : List ℕ) → i < n → j < n → IsRearranged n l → IsRearranged n (swap l i j)
swap-IsRearranged n i j l hi hj r = record {
  count =
      unfold swap in
      omega (
        arith,
        length-set l i (get_or l j 0),
        length-set (set l i (get_or l j 0)) j (get_or l i 0),
        r.count,
      );
  bounds = λ p k e. r.bounds (exchange i j p) k (sym (at p) ∙ e);
  covers = λ k h.
      let (p, e) = r.covers k h in
      (exchange i j p, at (exchange i j p) ∙ rw (exchange_twice i j p) e);
}
  where
    at : (p : ℕ) → get_elem? (swap l i j) p ≡ get_elem? l (exchange i j p)
    at p = get_elem?-swap l i j p (omega (arith, r.count)) (omega (arith, r.count))

length-count_up : (i k : ℕ) → length (count_up i k) ≡ k
unfolding count_up
length-count_up i zero = refl
length-count_up i (suc k) = omega (arith, length-count_up (suc i) k)

get_elem?-count_up : (i k p : ℕ) → p < k → get_elem? (count_up i k) p ≡ some (i + p)
unfolding count_up
get_elem?-count_up i zero p h = absurd (omega arith)
get_elem?-count_up i (suc k) zero h = ground arith
get_elem?-count_up i (suc k) (suc p) h = ground (arith, get_elem?-count_up (suc i) k p)

count_up-IsRearranged : (n : ℕ) → IsRearranged n (count_up 0 n)
count_up-IsRearranged n = record {
  count = length-count_up 0 n;
  bounds = λ p k e.
      ground
        (arith, lt_of_get_elem? (count_up 0 n) p e, length-count_up 0 n, get_elem?-count_up 0 n p);
  covers = λ k h. (k, ground (arith, get_elem?-count_up 0 n k h));
}

module _ (intn : ℕ → ℕ) (fair : (i : ℕ) → intn i ≤ i) where
  shuffle-IsRearranged :
      (n k i : ℕ) (l : List ℕ) → i + k ≡ n → IsRearranged n l → IsRearranged n (shuffle intn i k l)
  unfolding shuffle
  shuffle-IsRearranged n zero i l e r = r
  shuffle-IsRearranged n (suc k) i l e r =
      shuffle-IsRearranged n k (suc i) (swap l i (intn i)) (omega arith)
        (swap-IsRearranged n i (intn i) l (omega arith) (omega (arith, fair i)) r)

module _ (condition : Node → Bool) (active : List Node) (indexes : List ℕ) where
  node_at_index_active :
      (i : ℕ) (n : Node)
      → node_at_index active indexes i ≡ some n
      → (k : ℕ) × (get_elem? active k ≡ some n)
  unfolding node_at_index
  node_at_index_active i n e = elim (Option-cases (get_elem? indexes i)) [
    | inl missing ↦ ground arith
    | inr (k, found) ↦ (k, ground arith)
  ]

  find_node-some :
      (rest : List ℕ) (n : Node)
      → find_node condition active indexes rest ≡ some n
      → (condition n ≡ true) × ((k : ℕ) × (get_elem? active k ≡ some n))
  unfolding find_node
  find_node-some [] n e = cc
  find_node-some (i ∷ rest) n e = elim (Option-cases (node_at_index active indexes i)) [
    | inl missing ↦ ground arith
    | inr (m, found) ↦ elim (Bool-cases (condition m)) [
      | inl good ↦ (ground arith, node_at_index_active i n (ground arith))
      | inr bad ↦ find_node-some rest n (ground arith)
    ]
  ]

  find_node-none :
      (rest : List ℕ)
      → ((q i : ℕ)
          → get_elem? rest q ≡ some i
          → (n : Node) × (node_at_index active indexes i ≡ some n))
      → find_node condition active indexes rest ≡ none
      → (q i : ℕ) (n : Node) → get_elem? rest q ≡ some i
      → node_at_index active indexes i ≡ some n
      → condition n ≡ false
  unfolding find_node
  find_node-none [] total e q i n at found = cc
  find_node-none (j ∷ rest) total e zero i n at found = ground arith
  find_node-none (j ∷ rest) total e (suc q) i n at found =
      let (m, looked) = total 0 j refl in
      find_node-none rest (λ p k. total (suc p) k) (ground arith) q i n at found

module _ (active : List Node) (indexes : List ℕ) (r : IsRearranged (length active) indexes) where
  node_at_index_at :
      (i k : ℕ) (n : Node)
      → get_elem? indexes i ≡ some k
      → get_elem? active k ≡ some n
      → node_at_index active indexes i ≡ some n
  unfolding node_at_index
  node_at_index_at i k n ei ek = ground arith

  -- no index of the loop is out of range
  node_at_index_total :
      (q i : ℕ)
      → get_elem? indexes q ≡ some i
      → (n : Node) × (node_at_index active indexes i ≡ some n)
  node_at_index_total q i e =
      let (k, ei) = get_elem?_lt indexes i (omega (arith, r.bounds q i e, r.count)) in
      let (n, ek) = get_elem?_lt active k (r.bounds i k ei) in (n, node_at_index_at i k n ei ek)

  -- every node is looked at in some round
  reached :
      (k : ℕ) (n : Node)
      → get_elem? active k ≡ some n
      → (q : ℕ) × (i : ℕ) × (get_elem? indexes q ≡ some i)
        × (node_at_index active indexes i ≡ some n)
  reached k n at =
      let (i, ei) = r.covers k (lt_of_get_elem? active k at) in
      let (q, eq) = r.covers i (omega (arith, lt_of_get_elem? indexes i ei, r.count)) in
      (q, i, eq, node_at_index_at i k n ei at)

module _ (intn : ℕ → ℕ) (ns : Nodes) (condition : Node → Bool) where
  -- A node that `getRandomNode` returns is an active one and meets the condition.
  pub get_random_node-some :
      (n : Node)
      → get_random_node intn ns condition ≡ some n
      → (condition n ≡ true) × ((k : ℕ) × (get_elem? ns.active k ≡ some n))
  unfolding get_random_node
  get_random_node-some n e = find_node-some condition ns.active _ _ n e

  -- Where `rand.Intn(i + 1)` is at most i, nil means that no active node meets the condition.
  pub get_random_node-none :
      (fair : (i : ℕ) → intn i ≤ i) (k : ℕ) (n : Node)
      → get_random_node intn ns condition ≡ none
      → get_elem? ns.active k ≡ some n
      → condition n ≡ false
  unfolding get_random_node
  get_random_node-none fair k n e at =
      let size = length ns.active in
      let indexes = shuffle intn 0 size (count_up 0 size) in
      let r =
        shuffle-IsRearranged intn fair size size 0 (count_up 0 size) (omega arith)
          (count_up-IsRearranged size) in
      let (q, i, eq, found) = reached ns.active indexes r k n at in
      find_node-none condition ns.active indexes indexes (node_at_index_total ns.active indexes r) e
        q i n eq found
