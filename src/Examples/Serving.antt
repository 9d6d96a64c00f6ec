-- ===== src/Examples/Serving.antt =====
-- The opening of stores, the service in front of them, and the creation endpoint.
use swift_go.Prelude.{
  ℕ, ◌≡◌, ◌⊎◌, ◌↔◌, refl, Bool, true, some, [], ◌∷◌, Result, ok, err, Error, library_error,
  is_panic, Bytes, codes, equal,
}
use swift_go.Operation.{Operation}
use swift_go.Stores.{Volatile}
use swift_go.Manager as Manager
use swift_go.Manager.{Manager}
use swift_go.Manager.Memory.{volatile_ops}
use swift_go.StorageService.{
  StorageService, view_of, new_storage_service, tick, get_node, set_nodes, get_store_names,
}
use swift_go.StorageService.Steps.{Steps, Renewed, tick_ends, get_node-Steps}
use swift_go.Opened.{Settings, Makers, new_store, Opened, new_store-Opened}
use swift_go.HandlerCreate.{Values}
use swift_go.HandlerStore.{Url}
use swift_go.Api.{Request, fresh}
use swift_go.Api.Creating.{handler_create, Answered, handler_create_iff}
use swift_go.Examples.{plain_gcm, plain_zlib, node_b, network, settings, world, parsers}
use swift_go.Examples.Gathered.{open_store, remote, shared, manager, gathered}
use swift_go.Examples.Started.{form, access_node}

abbrev service : StorageService Volatile
service = record {
  stores = open_store ∷ [];
  served = record { shared = shared ∷ []; nodes = manager.nodes };
  running = record { shared = shared ∷ []; nodes = manager.nodes };
}

served :
    new_storage_service volatile_ops remote plain_gcm plain_zlib settings 50 (open_store ∷ [])
    ≡ some (ok service)
unfolding new_storage_service view_of
served = rw gathered refl

ticked : tick volatile_ops remote plain_gcm plain_zlib settings 50 service ≡ some (ok service)
unfolding tick view_of
ticked = rw gathered refl

abbrev later : StorageService Volatile
later = (set_nodes volatile_ops (codes "new") (node_b ∷ []) service).1

steps : Steps volatile_ops remote plain_gcm plain_zlib settings service later
steps = Steps.set (codes "new") (node_b ∷ []) (Steps.ticked 50 Steps.start ticked)

get_node-Steps_example :
    (get_node volatile_ops node_b.domain later ≡ get_node volatile_ops node_b.domain service)
    × (get_store_names volatile_ops later ≡ Manager.get_store_names volatile_ops (open_store ∷ []))
get_node-Steps_example =
    get_node-Steps volatile_ops remote plain_gcm plain_zlib settings 50 (open_store ∷ []) service
      later node_b.domain served steps

tick_ends_example :
    ((e : Error) × (tick volatile_ops remote plain_gcm plain_zlib settings 50 later ≡ some (err e))
      × (is_panic e ≡ true))
    ⊎ ((tick volatile_ops remote plain_gcm plain_zlib settings 50 later ≡ some (ok later))
        ⊎ ((w : StorageService Volatile) × (tick volatile_ops remote plain_gcm plain_zlib settings
                50 later
              ≡ some (ok w))
            × Renewed volatile_ops remote plain_gcm plain_zlib settings later w))
tick_ends_example = tick_ends volatile_ops remote plain_gcm plain_zlib settings 50 later

abbrev makers : Makers ℕ
makers = record {
  new_azure = λ account key. ok 1;
  new_firebase = λ project. err library_error;
  new_local_store = λ file. ok 3;
  new_aws = ok 4;
}

abbrev two_stores : Settings
two_stores = record {
  azure_storage_account = [];
  azure_storage_access_key = [];
  gcp_project = [];
  swift_file = codes "nodes.json";
  aws_enabled = true;
}

opened : new_store makers two_stores ≡ ok (3 ∷ 4 ∷ [])
unfolding new_store
opened = refl

new_store-Opened_example : Opened makers two_stores (3 ∷ 4 ∷ [])
new_store-Opened_example = new_store-Opened makers two_stores (3 ∷ 4 ∷ []) opened

abbrev allowing : Bytes → Result Bool
allowing key = ok (equal key (codes "k"))

abbrev request : Request
request = record { host = codes "c"; form = ok ((codes "accessKey", codes "k" ∷ []) ∷ form) }

handler_create_iff_example :
    (handler_create allowing world parsers settings plain_gcm plain_zlib 60 access_node
        (λ n. ok network)
        (λ seed. 5)
        request
        fresh).status
      ≡ some 200
    ↔ ((q : Values) × (o : Operation) × (u : Url) × Answered allowing world parsers settings
          plain_gcm plain_zlib 60 access_node
          (λ n. ok network)
          (λ seed. 5)
          request
          q
          o
          u)
handler_create_iff_example =
    handler_create_iff allowing world parsers settings plain_gcm plain_zlib 60 access_node
      (λ n. ok network) (λ seed. 5) request
