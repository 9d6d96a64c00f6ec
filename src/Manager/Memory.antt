-- ===== src/Manager/Memory.antt =====
-- The store in memory of volatile.go as a store of the manager.
use swift_go.Prelude.{refl, List, [], ◌∷◌, ok, ap}
use swift_go.Node.{Node}
use swift_go.Stores.{Map, Volatile, get_nodes, set_node}
use swift_go.Stores.Lookup.{set_node_added}
use swift_go.Manager.{StoreOps}

-- the nodes that `iterateNodes` visits, in the order in which a `range` over the map runs
unfoldable pub iterate_nodes : Map Node → List Node
iterate_nodes [] = []
iterate_nodes ((k, n) ∷ m) = n ∷ iterate_nodes m

abbrev pub volatile_ops : StoreOps Volatile
volatile_ops = record {
  get_name = λ v. v.name;
  get_read_only = λ v. v.read_only;
  get_nodes = λ network v. ok (get_nodes network v);
  nodes_of = λ v. ok (iterate_nodes (v.common.nodes));
  set_node = set_node;
  of_volatile = λ v. v;
  get_name-set_node = λ s t n e. ap (λ v. v.name) (set_node_added s t n e);
  get_read_only-set_node = λ s t n e. ap (λ v. v.read_only) (set_node_added s t n e);
  get_read_only-of_volatile = λ v. refl;
}
