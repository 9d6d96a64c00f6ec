-- ===== src/Nodes/Home.antt =====
-- The search for the home node in a list that ascends by hash.
use Prim.Native.Nat.{zero, suc}
use native.Mathlib.Decide.{dec_lt}
use swift_go.Prelude.{
  ℕ, ◌+◌, ◌-◌, ◌/◌, ◌≤◌, ◌<◌, ◌≡◌, refl, ◌⊎◌, inl, inr, arith, false, Bool-cases, ltb→lt, List,
  some, ok, err, no_home_node, ltb, length, get_elem?, get_elem?_lt, lt_of_get_elem?, IsOrdered,
  IsOrdered-get_elem?, Bytes, [],
}
use swift_go.Io.{Time}
use swift_go.Node.{Node}
use swift_go.Nodes.Order.{order_lem}
use swift_go.Nodes.{
  Nodes, order, index_loop, get_node_index_by_hash, get_remote_addr_hash, get_home_node,
}

compare_cases : (i j : ℕ) → (i < j) ⊎ (j < i) ⊎ (i ≡ j)
compare_cases i j = ground arith

abbrev pub by_hash : Node → ℕ
by_hash n = n.hash

-- Every node before `i` has a smaller hash than `h`, and every node behind it a greater one.
abbrev pub Splits : List Node → ℕ → ℕ → Type 0
Splits ns h i =
    ((j : ℕ) (x : Node) → j < i → get_elem? ns j ≡ some x → x.hash < h)
    × ((j : ℕ) (x : Node) → i < j → get_elem? ns j ≡ some x → h < x.hash)

-- `i` holds a node, with the hash looked for or next to where that hash would stand.
abbrev pub IsHome : List Node → ℕ → ℕ → Type 0
IsHome ns h i = (n : Node) × (get_elem? ns i ≡ some n) × ((n.hash ≡ h) ⊎ Splits ns h i)

record Inv (ns : List Node) (h l u m : ℕ) : Type 0 where
  ordered : l ≤ u
  inside : u ≤ length ns
  below : (j : ℕ) (x : Node) → j < l → get_elem? ns j ≡ some x → x.hash < h
  above : (j : ℕ) (x : Node) → u ≤ j → get_elem? ns j ≡ some x → h < x.hash
  last : (m + 1 ≡ l) ⊎ ((m ≡ u) × (m < length ns)) ⊎ ((l ≡ 0) × (u ≡ length ns))

module _ (ns : List Node) (h : ℕ) (sorted : IsOrdered by_hash ns) (some_node : 0 < length ns) where
  sorted_le :
      (i j : ℕ) (x y : Node)
      → i ≤ j
      → get_elem? ns i ≡ some x
      → get_elem? ns j ≡ some y
      → x.hash ≤ y.hash
  sorted_le i j x y le ei ej = elim (dec_lt i j) [
    | yes lt ↦ IsOrdered-get_elem? by_hash i j ns sorted lt ei ej
    | no ge ↦ let e : i ≡ j = omega arith in ground (arith, e, ei, ej)
  ]

  -- no node lies between the ends, so the last one looked at splits the list
  Inv→Splits : {l u m : ℕ} → Inv ns h l u m → ltb l u ≡ false → (m < length ns) × Splits ns h m
  Inv→Splits {l} {u} {m} v e = (
    ground (arith, v.last),
    (
      λ j x p q. v.below j x (ground (arith, v.last)) q,
      λ j x p q. v.above j x (ground (arith, v.last, lt_of_get_elem? ns j q)) q,
    ),
  )

  module _ {l u m : ℕ} (v : Inv ns h l u m) (room : l < u) (n : Node)
      (at : get_elem? ns ((l + (u - 1)) / 2) ≡ some n) where
    right-Inv : n.hash < h → Inv ns h ((l + (u - 1)) / 2 + 1) u ((l + (u - 1)) / 2)
    right-Inv c = record {
      ordered = omega arith;
      inside = v.inside;
      below = λ j x p q. omega (arith, sorted_le j ((l + (u - 1)) / 2) x n (omega arith) q at);
      above = v.above;
      last = inl refl;
    }

    left-Inv : h < n.hash → Inv ns h l ((l + (u - 1)) / 2) ((l + (u - 1)) / 2)
    left-Inv c = record {
      ordered = omega arith;
      inside = omega (arith, v.inside);
      below = v.below;
      above = λ j x p q. omega (arith, sorted_le ((l + (u - 1)) / 2) j n x p at q);
      last = inr (inl (refl, omega (arith, v.inside)));
    }

  index_loop-IsHome :
      (f l u m : ℕ)
      → u - l < f
      → Inv ns h l u m
      → (i : ℕ) × (index_loop ns h f l u m ≡ some i) × IsHome ns h i
  unfolding index_loop
  index_loop-IsHome zero l u m enough v = absurd (omega arith)
  index_loop-IsHome (suc f) l u m enough v = elim (Bool-cases (ltb l u)) [
    | inl open_range ↦
        let room = ltb→lt l u open_range in
        let mid = (l + (u - 1)) / 2 in
        let (n, at) = get_elem?_lt ns mid (omega (arith, v.inside)) in
        elim (Bool-cases (ltb n.hash h)) [
          | inl low ↦
              let (i, e, home) =
                index_loop-IsHome f (mid + 1) u mid (omega arith)
                  (right-Inv v room n at (ltb→lt n.hash h low)) in
              (i, rw (open_range, at, low) e, home)
          | inr not_low ↦ elim (Bool-cases (ltb h n.hash)) [
            | inl high ↦
                let (i, e, home) =
                  index_loop-IsHome f l mid mid (omega arith)
                    (left-Inv v room n at (ltb→lt h n.hash high)) in
                (i, rw (open_range, at, not_low, high) e, home)
            | inr not_high ↦
                (mid, rw (open_range, at, not_low, not_high) refl, (n, at, inl (ground arith)))
          ]
        ]
    | inr shut ↦
        let (inside, splits) = Inv→Splits v shut in
        let (n, at) = get_elem?_lt ns m inside in (m, rw shut refl, (n, at, inr splits))
  ]

  -- On a list that ascends by hash and is not empty the search ends with an index in range. Its node
  -- has the hash looked for; or no node has, all before it are smaller, and all behind it greater.
  pub get_node_index_by_hash-IsHome :
      (i : ℕ) × (get_node_index_by_hash ns h ≡ some i) × IsHome ns h i
  unfolding get_node_index_by_hash
  get_node_index_by_hash-IsHome =
      index_loop-IsHome (suc (length ns)) 0 (length ns) 0 (omega arith) (record {
        ordered = omega arith;
        inside = omega arith;
        below = λ j x p q. absurd (omega arith);
        above = λ j x p q. absurd (omega (arith, lt_of_get_elem? ns j q));
        last = inr (inr (refl, refl));
      })

module _ (draw : ℕ → ℕ) (now : Time) (ns : Nodes) (xff ra : Bytes) where
  abbrev asked : ℕ
  asked = get_remote_addr_hash draw xff ra

  get_home_node_at :
      (ns : Nodes) (i : ℕ) (n : Node)
      → get_node_index_by_hash ns.hash asked ≡ some i
      → get_elem? ns.hash i ≡ some n
      → get_home_node draw ns xff ra ≡ ok n
  unfolding get_home_node
  get_home_node_at ns i n e at = rw (e, at)

  -- Once `order` has run and left a storage node, every request has a home node: a node of the hash
  -- list that has the hash of the address, or that stands where this hash would stand.
  pub get_home_node-order :
      0 < length (order now ns).hash
      → (i : ℕ) × (home : IsHome (order now ns).hash asked i) × (get_home_node draw
            (order now ns)
            xff
            ra
          ≡ ok home.0)
  get_home_node-order h =
      let (i, e, home) =
        get_node_index_by_hash-IsHome (order now ns).hash asked (order_lem now ns).3 h in
      (i, home, get_home_node_at (order now ns) i home.0 e home.1)

  -- With no storage node there is no home node, and the result is an error.
  pub get_home_node_none :
      (order now ns).hash ≡ [] → get_home_node draw (order now ns) xff ra ≡ err no_home_node
  unfolding get_home_node get_node_index_by_hash index_loop
  get_home_node_none e = rw e

-- A node with the very hash that is looked for is found by it.
pub IsHome-exact :
    (ns : List Node) (h i j : ℕ) (x : Node) (home : IsHome ns h i)
    → get_elem? ns j ≡ some x
    → x.hash ≡ h
    → (home.0).hash ≡ h
IsHome-exact ns h i j x (n, at, inl same) ex eh = same
IsHome-exact ns h i j x (n, at, inr (low, high)) ex eh = elim (compare_cases i j) [
  | inl lt ↦ absurd (omega (arith, high j x lt ex))
  | inr (inl gt) ↦ absurd (omega (arith, low j x gt ex))
  | inr (inr same) ↦ ground (arith, at, ex, same)
]
