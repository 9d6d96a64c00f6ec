-- ===== src/Stores/Refinement.antt =====
-- What a store in memory promises, whatever its maps and lists: which node a domain has, and which
-- node a network has for a domain.
use swift_go.Prelude.{
  ◌≡◌, refl, Bool, ◌&&◌, Option, none, some, List, [], ◌∷◌, foldl, Bytes, equal, if◌then◌else◌,
  Bool-cases, inl, inr, eq_of_equal, ok, ap, sym, ◌∙◌,
}
use swift_go.Io.{Time}
use swift_go.Node.{Node}
use swift_go.Nodes.{Nodes, order, new_nodes}
use swift_go.Stores.{
  Map, Common, Volatile, find, add, empty, init, order_all, or_new, with_node, new_volatile,
  set_node,
}
use swift_go.Stores.Lookup.{find-put, set_node_added}

-- A node stays in the network that it was first in, also where it is set for another one.
pub record Directory : Type 0 where
  pub at : Bytes → Option Node
  pub in_network : Bytes → Bytes → Option Node

abbrev pub enter : Directory → Node → Directory
enter s n = record {
  at = λ d. if equal d n.domain then some n else s.at d;
  in_network = λ k d. if equal k n.network && equal d n.domain then some n else s.in_network k d;
}

abbrev pub nothing : Directory
nothing = record { at = λ d. none; in_network = λ k d. none }

abbrev in_dict : Bytes → Option Nodes → Option Node
in_dict d none = none
in_dict d (some net) = find d net.dict

-- The maps of the store say what the directory says.
pub record Implements (c : Common) (s : Directory) : Type 0 where
  pub nodes : (d : Bytes) → find d c.nodes ≡ s.at d
  pub networks : (k d : Bytes) → in_dict d (find k c.networks) ≡ s.in_network k d

in_dict-or_new : (d : Bytes) (o : Option Nodes) → find d (or_new o).dict ≡ in_dict d o
in_dict-or_new d none = unfold new_nodes in unfold find in refl
in_dict-or_new d (some net) = refl

add-Implements :
    (c : Common) (s : Directory) (n : Node) → Implements c s → Implements (add c n) (enter s n)
unfolding add with_node
add-Implements c s n i = record {
  nodes = λ d. find-put d n.domain n c.nodes ∙ rw (i.nodes d) refl;
  networks = λ k d. elim (Bool-cases (equal k n.network)) [
    | inr other ↦
        ap (in_dict d) (find-put k n.network (joined k) c.networks) ∙ rw other (i.networks k d)
    | inl same ↦
        ap (in_dict d) (find-put k n.network (joined k) c.networks)
        ∙ rw same (
            find-put d n.domain n (or_new (find n.network c.networks)).dict
            ∙ rw
                (
                  in_dict-or_new d (find n.network c.networks),
                  i.networks n.network d,
                  sym (eq_of_equal k n.network same),
                )
                refl)
  ];
}
  where
    joined : Bytes → Nodes
    joined k = with_node n (or_new (find n.network c.networks))

find-order_all :
    (now : Time) (k d : Bytes) (m : Map Nodes)
    → in_dict d (find k (order_all now m)) ≡ in_dict d (find k m)
unfolding find order_all order
find-order_all now k d [] = refl
find-order_all now k d ((x, net) ∷ m) = elim (Bool-cases (equal k x)) [
  | inl same ↦ rw same refl
  | inr other ↦ rw other (find-order_all now k d m)
]

adds-Implements :
    (c : Common) (s : Directory) (ns : List Node)
    → Implements c s
    → Implements (foldl add c ns) (foldl enter s ns)
adds-Implements c s [] i = i
adds-Implements c s (n ∷ ns) i = adds-Implements (add c n) (enter s n) ns (add-Implements c s n i)

init-Implements : (now : Time) (ns : List Node) → Implements (init now ns) (foldl enter nothing ns)
unfolding init
init-Implements now ns =
    let i =
      adds-Implements empty nothing ns
        (unfold find in record { nodes = λ d. refl; networks = λ k d. refl }) in
    record {
      nodes = i.nodes;
      networks = λ k d. find-order_all now k d (foldl add empty ns).networks ∙ i.networks k d;
    }

-- The states that a store goes through: it is made of some nodes, and takes others one by one.
pub data Reaches (now : Time) (name : Bytes) (read_only : Bool)
    : Volatile → Directory → Type 0 where
  made :
      (ns : List Node)
      → Reaches now name read_only (new_volatile now name read_only ns) (foldl enter nothing ns)
  taken :
      (v u : Volatile) (s : Directory) (n : Node)
      → Reaches now name read_only v s
      → set_node v n ≡ ok u
      → Reaches now name read_only u (enter s n)

taken-Implements :
    (v u : Volatile) (s : Directory) (n : Node)
    → Implements v.common s
    → set_node v n ≡ ok u
    → Implements u.common (enter s n)
taken-Implements v u s n i e = rw (set_node_added v u n e) (add-Implements v.common s n i)

-- A store in memory is a directory: in every state that it reaches from the nodes that it is made of,
-- by nodes that it takes, it finds under every domain, and in every network under every domain, what
-- the directory of the same nodes has there.
pub Reaches-Implements :
    {now : Time} {name : Bytes} {read_only : Bool} {v : Volatile} {s : Directory}
    → Reaches now name read_only v s
    → Implements v.common s
Reaches-Implements {now} {name} {read_only} (made ns) =
    unfold new_volatile in init-Implements now ns
Reaches-Implements (taken v u s n r e) = taken-Implements v u s n (Reaches-Implements r) e
