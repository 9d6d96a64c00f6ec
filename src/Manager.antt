-- ===== src/Manager.antt =====
-- storageManager.go: the stores of a node and the map of all their nodes; and `GetStoreNames` of
-- storageService.go, which asks the configured stores.
pub mod Memory
pub mod Setting
pub mod Sharing
pub mod Loading
pub mod Bound
pub mod Growth
pub mod Gathering
use swift_go.Prelude.{
  ℕ, ◌≡◌, Bool, true, false, ◌&&◌, ◌||◌, not, Option, none, some, List, [], ◌∷◌, ◌++◌, Result, ok,
  err, Error, bind, Bytes, equal, if◌then◌else◌, ◌==◌, no_access_nodes, no_access_node,
  no_nodes_given, no_writable_store, several_writable_stores,
}
use swift_go.Io.{Time, before}
use swift_go.Node.{Node, role_access}
use swift_go.Nodes.{Nodes, get_random_node}
use swift_go.Stores.{Map, Volatile, find}

-- The interface `Store`, on the states of a store. `nodes_of` are the nodes that `iterateNodes`
-- visits, in the order in which it does; what `getNodes` of a store in a file or in a database reads
-- again on its way is not part of the state. A store that takes a node keeps its name and stays as
-- writable as it was, and a store in memory is a store.
pub record StoreOps (S : Type 0) : Type 0 where
  pub get_name : S → Bytes
  pub get_read_only : S → Bool
  pub get_nodes : Bytes → S → Result (Option Nodes)
  pub nodes_of : S → Result (List Node)
  pub set_node : S → Node → Result S
  pub of_volatile : Volatile → S
  pub get_name-set_node : (s t : S) (n : Node) → set_node s n ≡ ok t → get_name t ≡ get_name s
  pub get_read_only-set_node :
      (s t : S) (n : Node) → set_node s n ≡ ok t → get_read_only t ≡ get_read_only s
  pub get_read_only-of_volatile : (v : Volatile) → get_read_only (of_volatile v) ≡ v.read_only

-- The alive service of a manager, which runs beside it, is not a field here.
pub record Manager (S : Type 0) : Type 0 where
  pub stores : List S
  pub nodes : Map Node

-- what a call of `setNodes` returns and leaves
pub record Change (S : Type 0) : Type 0 where
  pub error : Option Error
  pub stores : List S

abbrev is_nil : Bytes → Bool
is_nil [] = true
is_nil (x ∷ s) = false

abbrev random_access : Option Node → Result Bytes
random_access none = err no_access_node
random_access (some n) = ok n.domain

abbrev access_among : (ℕ → ℕ) → Option Nodes → Result Bytes
access_among intn none = err no_access_nodes
access_among intn (some ns) = random_access (get_random_node intn ns (λ n. n.role == role_access))

abbrev nodes_or : {A : Type 0} → Option A → Result (Option A) → Result (Option A)
nodes_or none rest = rest
nodes_or (some ns) rest = ok (some ns)

-- the callback of `getAllActiveNodes`
unfoldable pub alive_and_started : Time → List Node → List Node
alive_and_started now [] = []
alive_and_started now (n ∷ ns) =
    let rest = alive_and_started now ns in if n.alive && before n.starts now then n ∷ rest else rest

module _ {S : Type 0} (ops : StoreOps S) where
  unfoldable pub get_node : Bytes → Manager S → Option Node
  get_node domain sm = find domain sm.nodes

  -- the loop of `getNodes`
  unfoldable pub nodes_in : Bytes → List S → Result (Option Nodes)
  nodes_in network [] = ok none
  nodes_in network (s ∷ stores) =
      let rest = nodes_in network stores in
      bind (ops.get_nodes network s) λ nets. nodes_or nets rest

  unfoldable pub get_nodes : Bytes → Manager S → Result (Option Nodes)
  unfolding nodes_in
  get_nodes network sm = nodes_in network sm.stores

  -- `intn` are the draws of `getRandomNode`.
  unfoldable pub get_access_node : (ℕ → ℕ) → Bytes → Manager S → Result Bytes
  unfolding get_nodes
  get_access_node intn network sm = bind (get_nodes network sm) (access_among intn)

  -- the nodes that the callbacks of `getAllNodes` collect
  unfoldable pub all_nodes : List S → Result (List Node)
  all_nodes [] = ok []
  all_nodes (s ∷ stores) =
      let rest = all_nodes stores in bind (ops.nodes_of s) λ ns. bind rest λ more. ok (ns ++ more)

  unfoldable pub get_all_nodes : Manager S → Result (List Node)
  unfolding all_nodes
  get_all_nodes sm = all_nodes sm.stores

  unfoldable pub all_active : Time → List S → Result (List Node)
  unfolding alive_and_started
  all_active now [] = ok []
  all_active now (s ∷ stores) =
      let rest = all_active now stores in
      bind (ops.nodes_of s) λ ns. bind rest λ more. ok (alive_and_started now ns ++ more)

  unfoldable pub get_all_active_nodes : Time → Manager S → Result (List Node)
  unfolding all_active
  get_all_active_nodes now sm = all_active now sm.stores

  -- the stores that `setNodes` would write to
  unfoldable pub selected : Bytes → S → Bool
  selected store s = not (ops.get_read_only s) && (is_nil store || equal (ops.get_name s) store)

  unfoldable pub candidates : Bytes → List S → List S
  unfolding selected
  candidates store [] = []
  candidates store (s ∷ stores) =
      let rest = candidates store stores in if selected store s then s ∷ rest else rest

  abbrev set_next : S → Result S → (S → S × Option Error) → S × Option Error
  set_next s (ok t) next = next t
  set_next s (err e) next = (s, some e)

  -- The nodes before the first error stay set.
  unfoldable pub set_each : List Node → S → S × Option Error
  set_each [] s = (s, none)
  set_each (n ∷ ns) s = set_next s (ops.set_node s n) (set_each ns)

  -- The stores are shared by pointer: the one that is selected is changed in its place.
  unfoldable pub replace : Bytes → S → List S → List S
  unfolding selected
  replace store t [] = []
  replace store t (s ∷ stores) =
      let rest = replace store t stores in if selected store s then t ∷ rest else s ∷ rest

  unfoldable pub set_in : Bytes → List Node → List S → List S → Change S
  unfolding set_each replace
  set_in store ns stores [] = record { error = some no_writable_store; stores = stores }
  set_in store ns stores (s ∷ []) =
      let (t, e) = set_each ns s in record { error = e; stores = replace store t stores }
  set_in store ns stores (s ∷ t ∷ more) = record {
    error = some several_writable_stores;
    stores = stores;
  }

  unfoldable pub set_nodes : Bytes → List Node → List S → Change S
  unfolding set_in candidates
  set_nodes store [] stores = record { error = some no_nodes_given; stores = stores }
  set_nodes store (n ∷ ns) stores = set_in store (n ∷ ns) stores (candidates store stores)

  -- the names of the writable ones of the configured stores
  unfoldable pub get_store_names : List S → List Bytes
  get_store_names [] = []
  get_store_names (s ∷ stores) =
      let rest = get_store_names stores in
      if ops.get_read_only s then rest else ops.get_name s ∷ rest
