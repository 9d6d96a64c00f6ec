-- ===== src/Services.antt =====
-- services.go and accessSimple.go: the node of a request, the home node of a browser, and the keys
-- that give access.
use swift_go.Prelude.{
  ℕ, ◌%◌, ◌^◌, Bool, true, false, Option, none, some, List, [], ◌∷◌, Result, ok, err, bind,
  runtime_panic, no_node_for_host, incorrect_type, ◌==◌, if◌then◌else◌, Bytes, codes, length,
}
use swift_go.Node.{Node, role_access}
use swift_go.Nodes.{Nodes, get_home_node}
use swift_go.Stores.{Map, find, put}
use swift_go.HandlerCreate.{Values, value_of}

-- The keys of `validKeys`.
pub record AccessSimple : Type 0 where
  pub valid_keys : Map Bool

unfoldable pub keys_of : List Bytes → Map Bool → Map Bool
keys_of [] m = m
keys_of (k ∷ ks) m = keys_of ks (put k true m)

unfoldable pub new_access_simple : List Bytes → AccessSimple
unfolding keys_of
new_access_simple ks = record { valid_keys = keys_of ks [] }

-- a missing key is false
abbrev or_false : Option Bool → Bool
or_false none = false
or_false (some b) = b

unfoldable pub get_allowed : AccessSimple → Bytes → Result Bool
get_allowed a key = ok (or_false (find key a.valid_keys))

abbrev of_role : Option Node → ℕ → Result Node
of_role none q = err no_node_for_host
of_role (some n) q = if n.role == q then ok n else err incorrect_type

-- a nil pointer to the nodes of a network
abbrev pub present_network : Option Nodes → Result Nodes
present_network none = err runtime_panic
present_network (some ns) = ok ns

-- `get_node` and `get_nodes` are those of the storage service.
module _ (get_node : Bytes → Option Node) where
  unfoldable pub get_node_from_request : Bytes → ℕ → Result Node
  get_node_from_request h q = of_role (get_node h) q

  unfoldable pub get_access_node_for_host : Bytes → Result Node
  unfolding get_node_from_request
  get_access_node_for_host h = get_node_from_request h role_access

  -- `GetHomeNode` of a request, which has been parsed before
  unfoldable pub get_home_node_of_request :
      (Bytes → Result (Option Nodes)) → (ℕ → ℕ) → Bytes → Values → Result Node
  unfolding get_access_node_for_host
  get_home_node_of_request get_nodes draw host q = bind (get_access_node_for_host host) λ h.
      bind (bind (get_nodes h.network) present_network) λ n.
        get_home_node draw n (value_of (codes "X-Forwarded-For") q)
          (value_of (codes "remoteAddr") q)

-- `uint32(len(n))` of the active nodes
unfoldable pub get_alive_nodes_count : Result (List Node) → Result ℕ
get_alive_nodes_count r = bind r λ ns. ok (length ns % 2 ^ 32)
