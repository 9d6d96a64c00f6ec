-- ===== src/Stores/Lookup.antt =====
-- What a store in memory finds after a node was set.
use swift_go.Prelude.{
  ◌≡◌, refl, arith, some, [], ◌∷◌, ok, Bytes, equal, if◌then◌else◌, Bool-cases, inl, inr,
  eq_of_equal, equal_refl,
}
use swift_go.Node.{Node}
use swift_go.Nodes.{Nodes}
use swift_go.Stores.{
  Map, find, put, add, or_new, with_node, Volatile, get_node, get_nodes, set_node,
}

pub find-put :
    {V : Type 0} (d key : Bytes) (value : V) (m : Map V)
    → find d (put key value m) ≡ (if equal d key then some value else find d m)
unfolding find put
find-put d key value [] = refl
find-put d key value ((k, v) ∷ m) = ground (
  arith,
  find-put d key value m,
  eq_of_equal d k,
  eq_of_equal key k,
  eq_of_equal d key,
  equal_refl d,
  equal_refl key,
)

pub set_node_added :
    (v u : Volatile) (n : Node) → set_node v n ≡ ok u → u ≡ record v { common = add (v.common) n }
unfolding set_node
set_node_added v u n h = elim (Bool-cases (v.read_only)) [
  | inl closed ↦ ground (arith, h, closed)
  | inr opened ↦ ground (arith, h, opened)
]

-- A store that takes a node then finds it under its domain, and finds under every other domain what
-- it found before.
pub set_node-get_node :
    (v u : Volatile) (n : Node) (d : Bytes)
    → set_node v n ≡ ok u
    → get_node d u ≡ (if equal d n.domain then some n else get_node d v)
unfolding get_node add
set_node-get_node v u n d h = rw (set_node_added v u n h) (find-put d n.domain n (v.common.nodes))

-- When a store takes a node, every network that it had keeps its list of active nodes and its list of
-- nodes by hash.
pub set_node-get_nodes :
    (v u : Volatile) (n : Node) (k : Bytes) (net : Nodes)
    → set_node v n ≡ ok u
    → get_nodes k v ≡ some net
    → (after : Nodes) × (get_nodes k u ≡ some after)
      × (after.active ≡ net.active)
      × (after.hash ≡ net.hash)
unfolding get_nodes add with_node
set_node-get_nodes v u n k net h at = elim (Bool-cases (equal k n.network)) [
  | inl same ↦
      let key : k ≡ n.network = eq_of_equal k n.network same in
      let known : find n.network (v.common.networks) ≡ some net = rw⁻¹ key at in
      (
        with_node n net,
        rw
            (
              set_node_added v u n h,
              find-put k n.network (with_node n (or_new (find n.network (v.common.networks))))
                  (v.common.networks),
              same,
              known,
            )
            refl,
        refl,
        refl,
      )
  | inr other ↦ (
    net,
    rw
        (
          set_node_added v u n h,
          find-put k n.network (with_node n (or_new (find n.network (v.common.networks))))
              (v.common.networks),
          other,
        )
        at,
    refl,
    refl,
  )
]
