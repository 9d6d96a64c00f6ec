-- ===== src/Examples/Network.antt =====
-- Nodes and their secrets on concrete networks.
use mathlib.Core.List.{Perm, filter}
use native.Mathlib.Decide.{dec_lt, ℕ_discrete}
use swift_go.Prelude.{
  ℕ, ◌<◌, ◌≡◌, refl, arith, Bool, false, none, some, [], ◌∷◌, ◌++◌, ◌≢◌, ◌↔◌, ok, length, IsOrdered,
  ◌%◌, sort_by, ◌==◌,
}
use swift_go.Node.{
  Node, role_access, role_storage, decrypt, decrypt_loop, secret_decrypt, get_secret, sort_secrets,
}
use swift_go.Node.Crypto.{Finds, decrypt_iff}
use swift_go.Nodes.{
  order, get_random_node, shuffle, count_up, find_node, node_at_index, swap, get_active_ordered,
  get_hash_ordered, get_home_node, get_remote_addr_hash,
}
use swift_go.Nodes.Order.{order_lem}
use swift_go.Nodes.Home.{IsHome, get_home_node-order}
use swift_go.Stores.{Volatile, find, add, set_node, get_nodes}
use swift_go.Stores.Lookup.{set_node-get_nodes}
use swift_go.Nodes.{Nodes}
use swift_go.Examples.{node_a}
use swift_go.Prelude.{equal, Bytes}
use swift_go.Examples.{plain_gcm, one_nonce, node_b, node_c, network, old_secret}

two_secrets : (decrypt plain_gcm node_b (one_nonce ++ 5 ∷ []) ≡ ok (5 ∷ []))
unfolding decrypt decrypt_loop secret_decrypt
two_secrets = refl

abbrev five : Bytes
five = 5 ∷ []

decrypt_iff_example :
    (decrypt plain_gcm node_b (one_nonce ++ 5 ∷ []) ≡ ok (5 ∷ []))
    ↔ ((five ≢ []) × Finds plain_gcm (one_nonce ++ 5 ∷ []) (5 ∷ []) node_b.secrets)
decrypt_iff_example = decrypt_iff plain_gcm node_b (one_nonce ++ 5 ∷ []) (5 ∷ [])

oldest : get_secret (sort_secrets node_b) ≡ ok old_secret
unfolding get_secret sort_secrets sort_by
oldest = refl

order_lem_example :
    Perm (order 100 network).active (filter (λ (n : Node). dec_lt 100 n.expires) network.all)
    × IsOrdered (λ (n : Node). n.created) (order 100 network).active
    × Perm (order 100 network).hash (
        filter
          (λ (n : Node). ℕ_discrete n.role role_storage)
          (filter (λ (n : Node). dec_lt 100 n.expires) network.all))
    × IsOrdered (λ (n : Node). n.hash) (order 100 network).hash
order_lem_example = order_lem 100 network

some_storage : 0 < length (order 100 network).hash
unfolding order get_active_ordered get_hash_ordered sort_by dec_lt ℕ_discrete
some_storage = omega arith

get_home_node-order_example :
    (i : ℕ) × (home : IsHome
      (order 100 network).hash
      (get_remote_addr_hash (λ seed. seed % 40) [] (b'1' ∷ []))
      i)
    × (get_home_node (λ seed. seed % 40) (order 100 network) [] (b'1' ∷ []) ≡ ok home.0)
get_home_node-order_example =
    get_home_node-order (λ seed. seed % 40) 100 network [] (b'1' ∷ []) some_storage

abbrev is_access : Node → Bool
is_access n = n.role == role_access

found_access : get_random_node (λ i. 0) network is_access ≡ some node_c
unfolding get_random_node shuffle count_up find_node node_at_index swap
found_access = refl

abbrev is_share : Node → Bool
is_share n = n.role == 2

no_share : get_random_node (λ i. 0) network is_share ≡ none
unfolding get_random_node shuffle count_up find_node node_at_index swap
no_share = refl

abbrev store : Volatile
store = record {
  name = b'v' ∷ [];
  read_only = false;
  common = record { nodes = (b'a' ∷ [], node_a) ∷ []; networks = (b'n' ∷ [], network) ∷ [] };
}

abbrev grown : Volatile
grown = record store { common = add (store.common) node_b }

taken : set_node store node_b ≡ ok grown
unfolding set_node
taken = refl

has_network : get_nodes (b'n' ∷ []) store ≡ some network
unfolding get_nodes find equal
has_network = refl

set_node-get_nodes_example :
    (after : Nodes) × (get_nodes (b'n' ∷ []) grown ≡ some after)
    × (after.active ≡ network.active)
    × (after.hash ≡ network.hash)
set_node-get_nodes_example =
    set_node-get_nodes store grown node_b (b'n' ∷ []) network taken has_network
