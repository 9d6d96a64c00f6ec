-- ===== src/Stores/Newest.antt =====
-- The manager's map of nodes, filled from its stores: of the nodes of a domain it keeps a newest.
use swift_go.Prelude.{
  ◌≤◌, ◌≡◌, refl, arith, false, some, List, [], ◌∷◌, equal, foldl, All, Bool-cases, Option-cases,
  inl, inr, eq_of_equal, equal_refl,
}
use swift_go.Io.{after}
use swift_go.Node.{Node}
use swift_go.Stores.{Map, find, add_node}
use swift_go.Stores.Lookup.{find-put}

-- The map has a node of the domain that was created no earlier than `n`.
abbrev pub Keeps : Map Node → Node → Type 0
Keeps m n = (r : Node) × ((find n.domain m ≡ some r) × (n.created ≤ r.created))

add_node-new : (m : Map Node) (n : Node) → Keeps (add_node m n) n
unfolding add_node
add_node-new m n = elim (Option-cases (find n.domain m)) [
  | inl missing ↦ (
    n,
    (rw missing (rw (find-put n.domain n.domain n m, equal_refl (n.domain)) refl), omega arith),
  )
  | inr (e, found) ↦ elim (Bool-cases (after e.created n.created)) [
    | inl newer ↦ (e, (rw (found, newer) found, ground arith))
    | inr older ↦ (
      n,
      (
        rw (found, older) (rw (find-put n.domain n.domain n m, equal_refl (n.domain)) refl),
        omega arith,
      ),
    )
  ]
]

add_node-old : (m : Map Node) (n o : Node) → Keeps m o → Keeps (add_node m n) o
unfolding add_node
add_node-old m n o (r, (at, le)) = elim (Bool-cases (equal o.domain n.domain)) [
  | inl same ↦
      let key : o.domain ≡ n.domain = eq_of_equal (o.domain) (n.domain) same in
      let here : find n.domain m ≡ some r = rw⁻¹ key at in
      elim (Bool-cases (after r.created n.created)) [
        | inl newer ↦ (r, (rw (here, newer) at, le))
        | inr older ↦
            (n, (rw (here, older) (rw (find-put o.domain n.domain n m, same) refl), ground arith))
      ]
  | inr other ↦ (r, (kept r at other, le))
]
  where
    kept :
        (s : Node)
        → find o.domain m ≡ some s
        → equal o.domain n.domain ≡ false
        → find o.domain (add_node m n) ≡ some s
    kept s at other = ground (arith, find-put o.domain n.domain n m)

pub add_nodes-old :
    (m : Map Node) (ns : List Node) (o : Node) → Keeps m o → Keeps (foldl add_node m ns) o
add_nodes-old m [] o k = k
add_nodes-old m (n ∷ ns) o k = add_nodes-old (add_node m n) ns o (add_node-old m n o k)

-- After `addNode` for each node of a list, the map has, for every one of them, a node of its domain
-- that was created no earlier.
pub add_node-Keeps : (m : Map Node) (ns : List Node) → All (Keeps (foldl add_node m ns)) ns
add_node-Keeps m [] = tt
add_node-Keeps m (n ∷ ns) =
    (add_nodes-old (add_node m n) ns n (add_node-new m n), add_node-Keeps (add_node m n) ns)
