-- ===== src/Manager/Loading.antt =====
-- storageManager.go: `newStorageManager`, whose list of stores grows while it runs along it.
use swift_go.Prelude.{
  ℕ, zero, suc, Bool, true, false, ◌||◌, Option, none, some, List, [], ◌∷◌, ◌++◌, foldl, Result, ok,
  err, runtime_panic, too_many_stores, bind, ltb, if◌then◌else◌, Bytes, codes, equal, length,
  get_elem?, ℤ, pos, negsuc,
}
use swift_go.Io.{Time}
use swift_go.Node.{Node, Gcm, Zlib}
use swift_go.Configuration.{Configuration}
use swift_go.Stores.{Map, new_volatile, add_node}
use swift_go.Manager.{StoreOps, Manager}
use swift_go.Manager.Sharing.{Remote, get_sharing_nodes_from_store, shared_nodes, has_storage}

-- The variables of the loop: the stores to look at, the domains of `checkedNodes`, and the fields of
-- the manager.
pub record Loading (S : Type 0) : Type 0 where
  pub sts : List S
  pub checked : List Bytes
  pub nodes : Map Node
  pub stores : List S

unfoldable pub is_checked : Bytes → List Bytes → Bool
is_checked d [] = false
is_checked d (x ∷ xs) = equal d x || is_checked d xs

-- `n > c.MaxStores`
abbrev pub exceeds : ℕ → ℤ → Bool
exceeds n (pos m) = ltb m n
exceeds n (negsuc m) = true

abbrev pub bound_of : ℤ → ℕ
bound_of (pos m) = m
bound_of (negsuc m) = 0

-- the next round, if there is one
abbrev pub and_then : {A B : Type 0} → Result A → (A → Option (Result B)) → Option (Result B)
and_then (ok a) next = next a
and_then (err e) next = some (err e)

-- an error of `iterateNodes` is a panic
abbrev pub or_panic : {A : Type 0} → Result A → Result A
or_panic (ok a) = ok a
or_panic (err e) = err runtime_panic

abbrev pub manager_of : {S : Type 0} → Option (Result (Loading S)) → Option (Result (Manager S))
manager_of none = none
manager_of (some r) = some (bind r λ st. ok (record { stores = st.stores; nodes = st.nodes }))

abbrev pub start : {S : Type 0} → List S → Loading S
start sts = record { sts = sts; checked = []; nodes = []; stores = [] }

module _ {S : Type 0} (ops : StoreOps S) (x : Remote) (g : Gcm) (z : Zlib) (c : Configuration)
    (now : Time) where
  -- A store is added where the shared nodes have a storage node among them.
  unfoldable pub with_shared : ℕ → List Node → List S → List S
  unfolding has_storage
  with_shared i ns sts =
      if has_storage ns
      then sts ++ ops.of_volatile (new_volatile now (codes "v-" ++ x.print_int i) true ns) ∷ []
      else sts

  -- the round of the inner loop for a sharing node
  unfoldable pub ask : ℕ → Loading S → Node → Result (Loading S)
  unfolding is_checked with_shared
  ask i st n =
      if is_checked n.domain st.checked
      then ok st
      else bind (shared_nodes x g z c.scheme n)
          λ ns. ok (record st { sts = with_shared i ns st.sts; checked = n.domain ∷ st.checked })

  unfoldable pub ask_each : ℕ → List Node → Loading S → Result (Loading S)
  unfolding ask
  ask_each i [] st = ok st
  ask_each i (n ∷ ns) st = bind (ask i st n) (ask_each i ns)

  -- the nodes of the store in the map, and the store among those of the manager
  unfoldable pub take_in : S → Loading S → Result (Loading S)
  take_in s st =
      bind (or_panic (ops.nodes_of s))
        λ ns. ok (record st { nodes = foldl add_node st.nodes ns; stores = st.stores ++ s ∷ [] })

  -- the round of the outer loop for the store `s` with the number `i`
  unfoldable pub round : ℕ → S → Loading S → Result (Loading S)
  unfolding ask_each take_in
  round i s st =
      if exceeds (length st.sts) c.max_stores
      then err too_many_stores
      else bind (ask_each i (get_sharing_nodes_from_store ops s) st) (take_in s)

  -- The loop on fuel; `none` is the end of the fuel.
  unfoldable pub load : ℕ → ℕ → Loading S → Option (Result (Loading S))
  unfolding round
  load zero i st = none
  load (suc f) i st = elim (get_elem? st.sts i) [
    | none ↦ some (ok st)
    | some s ↦ and_then (round i s st) (load f (suc i))
  ]

  -- One more than the greatest number of stores is enough.
  unfoldable pub new_storage_manager : List S → Option (Result (Manager S))
  unfolding load
  new_storage_manager sts = manager_of (load (suc (bound_of c.max_stores)) 0 (start sts))
