-- ===== src/Stores.antt =====
-- common.go and volatile.go: the nodes in memory, by domain and by network; and `addNode` of
-- storageManager.go, with which a manager gathers the nodes of its stores.
pub mod Lookup
pub mod Newest
pub mod Refinement
use swift_go.Prelude.{
  Bool, Option, none, some, List, [], ◌∷◌, ◌++◌, foldl, Result, ok, err, Bytes, equal,
  if◌then◌else◌, read_only_store,
}
use swift_go.Io.{Time, after}
use swift_go.Node.{Node}
use swift_go.Nodes.{Nodes, new_nodes, order}

-- a map of Go with text keys
abbrev pub Map : Type 0 → Type 0
Map V = List (Bytes × V)

-- `m[key]`, `none` where the key is missing
unfoldable pub find : {V : Type 0} → Bytes → Map V → Option V
find key [] = none
find key ((k, v) ∷ m) = let rest = find key m in if equal key k then some v else rest

-- `m[key] = value`
unfoldable pub put : {V : Type 0} → Bytes → V → Map V → Map V
put key value [] = (key, value) ∷ []
put key value ((k, v) ∷ m) =
    let rest = put key value m in if equal key k then (k, value) ∷ m else (k, v) ∷ rest

pub record Common : Type 0 where
  pub nodes : Map Node
  pub networks : Map Nodes

abbrev pub or_new : Option Nodes → Nodes
or_new none = new_nodes
or_new (some net) = net

unfoldable pub with_node : Node → Nodes → Nodes
with_node n net = record net { all = net.all ++ n ∷ []; dict = put n.domain n net.dict }

-- The node in the map of nodes and in its network, which is made where it is missing; the lists of
-- active nodes and of hashes stay.
unfoldable pub add : Common → Node → Common
unfolding put with_node
add c n = record {
  nodes = put n.domain n c.nodes;
  networks = put n.network (with_node n (or_new (find n.network c.networks))) c.networks;
}

abbrev pub empty : Common
empty = record { nodes = []; networks = [] }

unfoldable pub order_all : Time → Map Nodes → Map Nodes
order_all now [] = []
order_all now ((k, net) ∷ m) = (k, order now net) ∷ order_all now m

unfoldable pub init : Time → List Node → Common
unfolding add order_all
init now ns = let c = foldl add empty ns in record c { networks = order_all now c.networks }

pub record Volatile : Type 0 where
  pub name : Bytes
  pub read_only : Bool
  pub common : Common

unfoldable pub new_volatile : Time → Bytes → Bool → List Node → Volatile
new_volatile now name read_only ns = record {
  name = name;
  read_only = read_only;
  common = init now ns;
}

unfoldable pub get_node : Bytes → Volatile → Option Node
get_node domain v = find domain v.common.nodes

unfoldable pub get_nodes : Bytes → Volatile → Option Nodes
get_nodes network v = find network v.common.networks

unfoldable pub set_node : Volatile → Node → Result Volatile
set_node v n =
    if v.read_only then err read_only_store else ok (record v { common = add (v.common) n })

-- `addNode`: a node that is older than the one in the map is ignored
abbrev pub unless_newer : Option Node → Node → Map Node → Map Node
unless_newer none n m = put n.domain n m
unless_newer (some e) n m = if after e.created n.created then m else put n.domain n m

unfoldable pub add_node : Map Node → Node → Map Node
unfolding find
add_node m n = unless_newer (find n.domain m) n m
