-- ===== src/Database/Tables.antt =====
-- azure.go: the store in the tables of Azure.
pub mod Expiry
pub mod Twice
use swift_go.Prelude.{
  ℕ, ◌-◌, ◌^◌, Option, none, some, List, [], ◌∷◌, Result, ok, err, bind, runtime_panic,
  library_error, if◌then◌else◌, Bytes, equal, codes,
}
use swift_go.Io.{Time, zero_time}
use swift_go.Node.{Secret, Node, get_scrambler_key}
use swift_go.Node.Making.{new_node}
use swift_go.Stores.{Map, Common, find, put}
use swift_go.Database
use swift_go.Nodes.{Nodes}
use swift_go.Database.{from_unix, SecretRow, refreshed}

-- A value of a property, by its type in Go: time.Time, float64 of a whole number, int, string.
pub data Value : Type 0 where
  moment : Time → Value
  number : ℕ → Value
  whole : ℕ → Value
  words : Bytes → Value

pub record Entity : Type 0 where
  pub partition_key : Bytes
  pub row_key : Bytes
  pub time_stamp : Time
  pub properties : Map Value

abbrev pub starts_field : Bytes
starts_field = codes "starts"

abbrev pub expires_field : Bytes
expires_field = codes "expires"

abbrev pub role_field : Bytes
role_field = codes "role"

abbrev pub scrambler_key_field : Bytes
scrambler_key_field = codes "ScramblerKey"

abbrev pub cookie_domain_field : Bytes
cookie_domain_field = codes "CookieDomain"

-- The assertions of the type of a value panic on another type; on nil too, but where the code tests
-- for it first.
abbrev as_time_or : Time → Option Value → Result Time
as_time_or t none = ok t
as_time_or t (some (moment u)) = ok u
as_time_or t (some v) = err runtime_panic

abbrev pub as_number : Option Value → Result ℕ
as_number (some (number k)) = ok k
as_number v = err runtime_panic

abbrev pub as_words : Option Value → Result Bytes
as_words (some (words w)) = ok w
as_words v = err runtime_panic

unfoldable pub get_node_end_time : Map Value → Result Time
unfolding find from_unix
get_node_end_time m = as_time_or (from_unix (2 ^ 63 - 1) 999_999_999) (find expires_field m)

unfoldable pub get_node_start_time : Map Value → Time → Result Time
unfolding find
get_node_start_time m d = as_time_or d (find starts_field m)

-- The properties that `setNode` gives a node.
unfoldable pub properties_of : Node → Map Value
unfolding get_scrambler_key
properties_of n =
    (starts_field, moment n.starts)
    ∷ (expires_field, moment n.expires)
    ∷ (role_field, whole n.role)
    ∷ (scrambler_key_field, words (get_scrambler_key n))
    ∷ (cookie_domain_field, words n.cookie_domain)
    ∷ []

-- An error of the table service has a code.
pub data TableError : Type 0 where
  service_error : Bytes → TableError
  other_error : TableError

pub data Creation (T : Type 0) : Type 0 where
  created : T → Creation T
  refused : TableError → Creation T

-- The calls on a table, on its state `T`. A row is inserted with its keys, the time that the code
-- gives it, and its properties.
pub record TableOps (T : Type 0) : Type 0 where
  pub create : T → Creation T
  pub query_entities : T → Result (List Entity)
  pub insert : T → Entity → Result T

pub record Azure (T : Type 0) : Type 0 where
  pub nodes_table : T
  pub secrets_table : T
  pub common : Common

unfoldable pub azure_create_table : {T : Type 0} → T → Creation T → Result T
azure_create_table t (created u) = ok u
azure_create_table t (refused (service_error c)) =
    if equal c (codes "TableAlreadyExists") then ok t else err library_error
azure_create_table t (refused other_error) = err library_error

unfoldable pub rows_of_entities : List Entity → List SecretRow
rows_of_entities [] = []
rows_of_entities (i ∷ is) =
    record { domain = i.partition_key; key = i.row_key; time_stamp = i.time_stamp }
    ∷ rows_of_entities is

module _ (decode_key : Bytes → Result Bytes) (draw : ℕ → ℕ) (place : Bytes → ℕ) where
  -- the call of `newNode` in `fetchNodes`
  unfoldable pub node_of_entity : Entity → Result Node
  unfolding get_node_start_time get_node_end_time
  node_of_entity i = bind (get_node_start_time i.properties i.time_stamp) λ starts.
      bind (get_node_end_time i.properties) λ expires.
        bind (as_number (find role_field i.properties)) λ role.
          bind (as_words (find scrambler_key_field i.properties)) λ key.
            bind (as_words (find cookie_domain_field i.properties)) λ cookie_domain.
              new_node decode_key draw (place i.row_key) i.partition_key i.row_key i.time_stamp
                starts expires role key cookie_domain

  -- the loop of `fetchNodes`
  unfoldable pub nodes_of_entities : List Entity → Map Node → Result (Map Node)
  unfolding node_of_entity put
  nodes_of_entities [] ns = ok ns
  nodes_of_entities (i ∷ is) ns =
      bind (node_of_entity i) λ n. nodes_of_entities is (put i.row_key n ns)

abbrev pub node_entity : Node → Entity
node_entity n = record {
  partition_key = n.network;
  row_key = n.domain;
  time_stamp = zero_time;
  properties = properties_of n;
}

abbrev pub secret_entity : Node → Secret → Entity
secret_entity n s = record {
  partition_key = n.domain;
  row_key = s.key;
  time_stamp = s.time_stamp;
  properties = [];
}

module _ {T : Type 0} (ops : TableOps T) where
  unfoldable pub set_node_secrets : Node → List Secret → T → Result T
  set_node_secrets n [] t = ok t
  set_node_secrets n (s ∷ ss) t = bind (ops.insert t (secret_entity n s)) (set_node_secrets n ss)

  -- what is written of the secrets before an error is dropped with it
  unfoldable pub set_node : Azure T → Node → Result (Azure T)
  unfolding set_node_secrets properties_of
  set_node a n = bind (set_node_secrets n n.secrets a.secrets_table) λ secrets.
      bind (ops.insert a.nodes_table (node_entity n))
        λ nodes. ok (record a { nodes_table = nodes; secrets_table = secrets })

  module _ (decode_key : Bytes → Result Bytes) (draw : ℕ → ℕ) (place : Bytes → ℕ) where
    unfoldable pub fetch_nodes : T → Result (Map Node)
    unfolding nodes_of_entities
    fetch_nodes t = bind (ops.query_entities t) λ is. nodes_of_entities decode_key draw place is []

    abbrev secret_rows : T → Result (List SecretRow)
    secret_rows t = bind (ops.query_entities t) λ is. ok (rows_of_entities is)

    unfoldable pub refresh : Time → Azure T → Result (Azure T)
    unfolding fetch_nodes refreshed rows_of_entities
    refresh now a =
        bind (refreshed decode_key now (fetch_nodes a.nodes_table) (secret_rows a.secrets_table))
          λ c. ok (record a { common = c })

    unfoldable pub new_azure : Time → T → T → Result (Azure T)
    unfolding azure_create_table refresh
    new_azure now nodes secrets = bind (azure_create_table nodes (ops.create nodes)) λ n.
        bind (azure_create_table secrets (ops.create secrets)) λ s. refresh now (record {
          nodes_table = n;
          secrets_table = s;
          common = record { nodes = []; networks = [] };
        })

    -- What the store has in memory after a look at it; the database is the same.
    abbrev pub remembered : {A : Type 0} → Azure T → Result (A × Common) → Result (A × Azure T)
    remembered a r = bind r λ (x, c). ok (x, record a { common = c })

    abbrev fresh : Time → Azure T → Result Common
    fresh now a = bind (refresh now a) λ b. ok b.common

    unfoldable pub get_node : Time → Bytes → Azure T → Result (Option Node × Azure T)
    unfolding refresh Database.get_node
    get_node now domain a = remembered a (Database.get_node (fresh now a) domain a.common)

    unfoldable pub get_nodes : Time → Bytes → Azure T → Result (Option Nodes × Azure T)
    unfolding refresh Database.get_nodes
    get_nodes now network a = remembered a (Database.get_nodes (fresh now a) network a.common)

    unfoldable pub get_all_nodes : Time → Azure T → Result (List Node × Azure T)
    unfolding refresh Database.get_all_nodes
    get_all_nodes now a = remembered a (Database.get_all_nodes (fresh now a))
