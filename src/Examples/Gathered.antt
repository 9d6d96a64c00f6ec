-- ===== src/Examples/Gathered.antt =====
-- A manager that asks a sharing node, stores that are written to, and a registration.
use swift_go.Prelude.{
  ◌≡◌, refl, true, false, Option, none, some, [], ◌∷◌, ok, Bytes, codes, equal, foldl,
}
use swift_go.Node.{Node, decode, supports_crypto, make_nonce, add_secret}
use swift_go.Node.Making.{
  new_node, make_scrambler, or_panic, new_secret_from_key, new_crypto, new_secret,
}
use swift_go.Node.Json.{get_field, unmarshal_node, unmarshal_secrets, secret_of_item, time_field}
use swift_go.Nodes.{get_hash}
use swift_go.Stores.{Volatile, new_volatile, init, add, put, find, add_node, with_node, set_node}
use swift_go.Manager.{Manager, Change, set_nodes, set_in, candidates, selected, set_each}
use swift_go.Manager.Memory.{volatile_ops, iterate_nodes}
use swift_go.Manager.Setting.{Written, set_nodes-Written}
use swift_go.Manager.Sharing.{
  Remote, get_sharing_nodes_from_store, sharing_of, shared_nodes, call_share,
  get_nodes_from_byte_array, elements, present, has_storage,
}
use swift_go.Manager.Loading.{
  new_storage_manager, load, round, ask_each, ask, take_in, is_checked, with_shared,
}
use swift_go.Manager.Gathering.{Gathered, new_storage_manager-Gathered}
use swift_go.HandlerCreate.{Values, value_of, values_of}
use swift_go.Register.{
  Register, shown, register_of, handle_register, registered, store_node, store, node_of,
  scrambler_key, with_secret,
}
use swift_go.Register.Stored.{Admitted, Stored, handle_register-Stored}
use swift_go.Examples.{plain_gcm, plain_zlib, node_with, node_a, node_b, settings}
use swift_go.Examples.Trips.{clock_text, plain_key, key_a, tools, registered_ab, registered_json}

abbrev sharing : Node
sharing = node_with 5 50 2 (codes "sh") []

abbrev closed : Volatile
closed = new_volatile 50 (codes "old") true (node_a ∷ [])

abbrev pub open_store : Volatile
open_store = new_volatile 50 (codes "new") false (sharing ∷ [])

abbrev changed : Change Volatile
changed = set_nodes volatile_ops (codes "new") (node_b ∷ []) (closed ∷ open_store ∷ [])

no_error : changed.error ≡ none
unfolding set_nodes set_in candidates selected equal set_each set_node new_volatile
no_error = refl

set_nodes-Written_example :
    Written volatile_ops (codes "new") (node_b ∷ []) (closed ∷ open_store ∷ []) changed
set_nodes-Written_example =
    set_nodes-Written volatile_ops (codes "new") (node_b ∷ []) (closed ∷ open_store ∷ []) no_error

-- Every sharing node shares one storage node.
abbrev pub remote : Remote
remote = record {
  get_share = λ scheme host. ok (1 ∷ []);
  array_of = λ b. ok (registered_json ∷ []);
  place = λ k. 9;
  print_int = λ i. codes "0";
  decode_key = plain_key;
  form = clock_text;
  draw = λ s. 7;
}

abbrev pub shared : Volatile
shared = new_volatile 50 (codes "v-0") true (registered_ab ∷ [])

abbrev pub manager : Manager Volatile
manager = record {
  stores = open_store ∷ shared ∷ [];
  nodes =
      foldl add_node (foldl add_node [] (iterate_nodes open_store.common.nodes))
        (iterate_nodes shared.common.nodes);
}

pub gathered :
    new_storage_manager volatile_ops remote plain_gcm plain_zlib settings 50 (open_store ∷ [])
    ≡ some (ok manager)
unfolding new_storage_manager load round ask_each ask take_in is_checked with_shared
    get_sharing_nodes_from_store sharing_of shared_nodes call_share get_nodes_from_byte_array
    elements present has_storage decode supports_crypto unmarshal_node unmarshal_secrets
    secret_of_item time_field get_field equal new_node make_scrambler or_panic make_nonce
    new_secret_from_key new_crypto get_hash new_volatile init add put find with_node iterate_nodes
gathered = refl

new_storage_manager-Gathered_example : Gathered volatile_ops 10 (open_store ∷ []) manager
new_storage_manager-Gathered_example =
    new_storage_manager-Gathered volatile_ops remote plain_gcm plain_zlib settings 50
      (open_store ∷ []) manager gathered

abbrev nobody : Bytes → Option Node
nobody d = none

abbrev filled : Values
filled =
    (codes "network", codes "netw" ∷ [])
    ∷ (codes "store", codes "new" ∷ [])
    ∷ (codes "expires", codes "2030-01-01" ∷ [])
    ∷ (codes "secret", codes "yes" ∷ [])
    ∷ []

abbrev filled_register : Register
filled_register = register_of tools [] 3 (codes "ab") filled

abbrev made : Node
made = record registered_ab { network = codes "netw"; starts = 4; cookie_domain = codes "ab" }

abbrev after_ab : Change Volatile
after_ab = set_nodes volatile_ops (codes "new") (made ∷ []) (closed ∷ open_store ∷ [])

stored :
    handle_register tools volatile_ops nobody [] 9
      (ok key_a)
      (ok key_a)
      3
      (codes "ab")
      (ok filled)
      (closed ∷ open_store ∷ [])
    ≡ ok (shown (record filled_register { read_only = true }) after_ab.stores)
unfolding handle_register registered store_node store register_of node_of scrambler_key with_secret
    new_secret new_crypto add_secret new_node make_scrambler or_panic make_nonce get_hash value_of
    values_of equal set_nodes set_in candidates selected set_each set_node new_volatile
stored = refl

handle_register-Stored_example :
    (nobody (codes "ab") ≡ none)
    × Admitted 3 filled_register
    × Stored tools volatile_ops
        (node_of tools 9 (ok key_a) (ok key_a) 3 filled_register)
        filled_register
        (record filled_register { read_only = true })
        (closed ∷ open_store ∷ [])
        after_ab.stores
handle_register-Stored_example =
    handle_register-Stored tools volatile_ops nobody [] 9 (ok key_a) (ok key_a) 3 (codes "ab")
      filled (record filled_register { read_only = true }) (closed ∷ open_store ∷ [])
      after_ab.stores stored refl
