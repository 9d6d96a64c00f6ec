-- ===== src/Database.antt =====
-- aws.go, azure.go and gcp.go: what the three stores in databases share. Each keeps the nodes of its
-- last reading of the database in memory, and reads again where a node or a network is missing.
pub mod Seconds
pub mod Rows
pub mod Attached
pub mod Orders
pub mod Trip
pub mod Dynamo
pub mod Tables
pub mod Documents
use swift_go.Prelude.{
  ℕ, ◌+◌, ◌-◌, ◌*◌, ◌/◌, ◌%◌, ◌^◌, Option, none, some, List, [], ◌∷◌, Result, ok, bind,
  if◌then◌else◌, Bytes, equal,
}
use swift_go.Io.{Time, second}
use swift_go.Node.{Secret, Node, get_scrambler_key, add_secret, sort_secrets}
use swift_go.Node.Making.{new_node, new_secret_from_key}
use swift_go.Nodes.{Nodes}
use swift_go.Stores.{Map, Common, find, put, order_all}
use swift_go.Local.{networks_of}
use swift_go.Manager.Memory.{iterate_nodes}

-- Seconds between the zero time and 1970, `unixToInternal` of Go.
abbrev pub unix_epoch : ℕ
unix_epoch = 62_135_596_800

-- `t.Unix()`, as the 64 bits of its two's complement
unfoldable pub unix : Time → ℕ
unix t = (t / second + (2 ^ 63 - unix_epoch)) % 2 ^ 64

-- `time.Unix(seconds, nanoseconds)`, whose sum of the seconds wraps around
unfoldable pub from_unix : ℕ → ℕ → Time
from_unix seconds nanoseconds = (seconds + (2 ^ 63 + unix_epoch)) % 2 ^ 64 * second + nanoseconds

-- The rows of the two tables. `expires` is an int64 of seconds.
pub record NodeItem : Type 0 where
  pub network : Bytes
  pub domain : Bytes
  pub created : Time
  pub starts : Time
  pub expires : ℕ
  pub role : ℕ
  pub scrambler_key : Bytes
  pub cookie_domain : Bytes

pub record SecretItem : Type 0 where
  pub domain : Bytes
  pub time_stamp : Time
  pub expires : ℕ
  pub scrambler_key : Bytes

unfoldable pub node_item : Node → NodeItem
unfolding unix
node_item n = record {
  network = n.network;
  domain = n.domain;
  created = n.created;
  starts = n.starts;
  expires = unix n.expires;
  role = n.role;
  scrambler_key = get_scrambler_key n;
  cookie_domain = n.cookie_domain;
}

unfoldable pub secret_items : Node → List Secret → List SecretItem
unfolding unix
secret_items n [] = []
secret_items n (s ∷ ss) =
    record {
      domain = n.domain;
      time_stamp = s.time_stamp;
      expires = unix n.expires;
      scrambler_key = s.key;
    }
    ∷ secret_items n ss

-- What the three stores read of a secret.
pub record SecretRow : Type 0 where
  pub domain : Bytes
  pub key : Bytes
  pub time_stamp : Time

unfoldable pub rows_of_items : List SecretItem → List SecretRow
rows_of_items [] = []
rows_of_items (i ∷ is) =
    record { domain = i.domain; key = i.scrambler_key; time_stamp = i.time_stamp }
    ∷ rows_of_items is

-- `ns[d].addSecret(s)` where `ns[d]` is not nil
unfoldable pub give : Bytes → Secret → Map Node → Map Node
unfolding add_secret
give d s [] = []
give d s ((k, n) ∷ m) =
    let rest = give d s m in if equal d k then (k, add_secret s n) ∷ m else (k, n) ∷ rest

unfoldable pub sort_all : Map Node → Map Node
unfolding sort_secrets
sort_all [] = []
sort_all ((k, n) ∷ m) = (k, sort_secrets n) ∷ sort_all m

unfoldable pub common_of : Time → Map Node → Common
unfolding networks_of order_all
common_of now ns = record { nodes = ns; networks = order_all now (networks_of ns []) }

-- `decode_key` is the decoder of base64.RawURLEncoding.
module _ (decode_key : Bytes → Result Bytes) where
  -- the first loop of `addSecrets`
  unfoldable pub give_each : List SecretRow → Map Node → Result (Map Node)
  unfolding give new_secret_from_key
  give_each [] ns = ok ns
  give_each (r ∷ rs) ns =
      bind (new_secret_from_key decode_key r.key r.time_stamp)
        λ s. give_each rs (give r.domain s ns)

  unfoldable pub add_secrets : List SecretRow → Map Node → Result (Map Node)
  unfolding give_each sort_all
  add_secrets rs ns = bind (give_each rs ns) λ given. ok (sort_all given)

  -- `refresh` of what `fetchNodes` returns and of the rows that the query of `addSecrets` does
  unfoldable pub refreshed : Time → Result (Map Node) → Result (List SecretRow) → Result Common
  unfolding add_secrets common_of
  refreshed now fetched queried =
      bind fetched λ ns. bind queried λ rs. bind (add_secrets rs ns) λ ms. ok (common_of now ms)

-- `draw` is that of `getHash`, and `place` where the allocator puts the node of a domain.
module _ (decode_key : Bytes → Result Bytes) (draw : ℕ → ℕ) (place : Bytes → ℕ) where
  unfoldable pub node_of_item : NodeItem → Result Node
  unfolding from_unix new_node
  node_of_item i =
      new_node decode_key draw (place i.domain) i.network i.domain i.created i.starts
        (from_unix i.expires 0) i.role i.scrambler_key i.cookie_domain

  -- the loop of `fetchNodes`
  unfoldable pub nodes_of_items : List NodeItem → Map Node → Result (Map Node)
  unfolding node_of_item put
  nodes_of_items [] ns = ok ns
  nodes_of_items (i ∷ is) ns = bind (node_of_item i) λ n. nodes_of_items is (put i.domain n ns)

-- The lookups of a store whose `refresh` gives `fresh`. They return what the store has in memory
-- afterwards.
module _ (fresh : Result Common) where
  abbrev or_refreshed {ℓ} :
      {A : Type ℓ} → Option A → Common → (Common → Option A) → Result (Option A × Common)
  or_refreshed none c look = bind fresh λ c'. ok (look c', c')
  or_refreshed (some a) c look = ok (some a, c)

  unfoldable pub get_node : Bytes → Common → Result (Option Node × Common)
  unfolding find
  get_node domain c = or_refreshed (find domain c.nodes) c (λ c'. find domain c'.nodes)

  unfoldable pub get_nodes : Bytes → Common → Result (Option Nodes × Common)
  unfolding find
  get_nodes network c = or_refreshed (find network c.networks) c (λ c'. find network c'.networks)

  unfoldable pub get_all_nodes : Result (List Node × Common)
  unfolding iterate_nodes
  get_all_nodes = bind fresh λ c'. ok (iterate_nodes c'.nodes, c')
