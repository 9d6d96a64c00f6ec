-- ===== src/StorageService.antt =====
-- storageService.go: the service in front of the storage managers. `NewStorageService` returns a copy
-- of the variable that its goroutine goes on to change: the two share the configured stores, which are
-- pointers, and each has a reference to a manager of its own.
pub mod Alike
pub mod Steps
use swift_go.Prelude.{
  ℕ, ◌*◌, Option, none, some, List, ◌++◌, Result, ok, err, Error, runtime_panic, is_panic,
  is_positive, ℤ, pos, negsuc, Bytes, length, take, drop, if◌then◌else◌,
}
use swift_go.Io.{Time, second}
use swift_go.Node.{Node, Gcm, Zlib}
use swift_go.Nodes.{Nodes}
use swift_go.Configuration.{Configuration}
use swift_go.Stores.{Map}
use swift_go.Manager.{StoreOps, Manager}
use swift_go.Manager as Manager
use swift_go.Manager.Sharing.{Remote}
use swift_go.Manager.Loading.{new_storage_manager}

-- A manager without the configured stores, which its list of stores starts with.
pub record View (S : Type 0) : Type 0 where
  pub shared : List S
  pub nodes : Map Node

-- `served` is the manager of the copy, which the requests use, and `running` that of the goroutine.
pub record StorageService (S : Type 0) : Type 0 where
  pub stores : List S
  pub served : View S
  pub running : View S

unfoldable pub view_of : {S : Type 0} → List S → Manager S → View S
view_of sts sm = record { shared = drop (length sts) sm.stores; nodes = sm.nodes }

abbrev pub manager : {S : Type 0} → List S → View S → Manager S
manager sts v = record { stores = sts ++ v.shared; nodes = v.nodes }

abbrev pub served_manager : {S : Type 0} → StorageService S → Manager S
served_manager sv = manager sv.stores sv.served

-- `time.Duration(c.StorageManagerRefreshMinutes) * time.Minute`
abbrev minutes_of : ℤ → ℕ
minutes_of (pos n) = n * (60 * second)
minutes_of (negsuc n) = 0

-- the period of the ticker of `startStorageService`
unfoldable pub refresh_period : Configuration → Result ℕ
refresh_period c =
    if is_positive c.storage_manager_refresh_minutes
    then ok (minutes_of c.storage_manager_refresh_minutes)
    else err runtime_panic

-- An error of `newStorageManager` is a panic here.
abbrev served_first : {S : Type 0} → List S → Result (Manager S) → Result (StorageService S)
served_first sts (err e) = err runtime_panic
served_first sts (ok sm) =
    ok (record { stores = sts; served = view_of sts sm; running = view_of sts sm })

-- The manager of the copy stays what it is.
abbrev pub with_running : {S : Type 0} → StorageService S → Manager S → StorageService S
with_running sv sm = record sv { running = view_of sv.stores sm }

-- an error is logged, and a panic ends the program
abbrev pub after_tick :
    {S : Type 0} → StorageService S → Result (Manager S) → Result (StorageService S)
after_tick sv (ok sm) = ok (with_running sv sm)
after_tick sv (err e) = if is_panic e then err e else ok sv

abbrev pub on_manager : {A B : Type 0} → (A → B) → Option A → Option B
on_manager f none = none
on_manager f (some a) = some (f a)

module _ {S : Type 0} (ops : StoreOps S) where
  -- The loops of `newStorageManager` are on fuel; `none` is the end of the fuel.
  module _ (x : Remote) (g : Gcm) (z : Zlib) (c : Configuration) (now : Time) where
    unfoldable pub new_storage_service : List S → Option (Result (StorageService S))
    unfolding new_storage_manager view_of
    new_storage_service sts =
        on_manager (served_first sts) (new_storage_manager ops x g z c now sts)

    -- the round of `startStorageService` for a tick
    unfoldable pub tick : StorageService S → Option (Result (StorageService S))
    unfolding new_storage_manager view_of
    tick sv = on_manager (after_tick sv) (new_storage_manager ops x g z c now sv.stores)

  unfoldable pub get_node : Bytes → StorageService S → Option Node
  unfolding Manager.get_node
  get_node domain sv = Manager.get_node ops domain (served_manager sv)

  unfoldable pub get_nodes : Bytes → StorageService S → Result (Option Nodes)
  unfolding Manager.get_nodes
  get_nodes network sv = Manager.get_nodes ops network (served_manager sv)

  unfoldable pub get_all_nodes : StorageService S → Result (List Node)
  unfolding Manager.get_all_nodes
  get_all_nodes sv = Manager.get_all_nodes ops (served_manager sv)

  unfoldable pub get_all_active_nodes : Time → StorageService S → Result (List Node)
  unfolding Manager.get_all_active_nodes
  get_all_active_nodes now sv = Manager.get_all_active_nodes ops now (served_manager sv)

  -- the stores after a call, the configured ones and those of shared nodes
  abbrev pub with_stores : StorageService S → List S → StorageService S
  with_stores sv sts = record sv {
    stores = take (length sv.stores) sts;
    served = record (sv.served) { shared = drop (length sv.stores) sts };
  }

  unfoldable pub set_nodes : Bytes → List Node → StorageService S → Option Error × StorageService S
  unfolding Manager.set_nodes
  set_nodes store ns sv =
      let c = Manager.set_nodes ops store ns (sv.stores ++ sv.served.shared) in
      (c.error, with_stores sv c.stores)

  unfoldable pub get_store_names : StorageService S → List Bytes
  unfolding Manager.get_store_names
  get_store_names sv = Manager.get_store_names ops sv.stores
