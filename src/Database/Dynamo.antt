-- ===== src/Database/Dynamo.antt =====
-- aws.go: the store in the tables of DynamoDB.
pub mod Opening
pub mod Kept
use swift_go.Prelude.{
  ℕ, zero, suc, Bool, true, false, Option, none, some, List, [], ◌∷◌, Result, ok, err, bind,
  library_error, if◌then◌else◌, Bytes, equal, codes,
}
use swift_go.Io.{Time}
use swift_go.Node.{Node}
use swift_go.Stores.{Map, Common}
use swift_go.Database
use swift_go.Nodes.{Nodes}
use swift_go.Database.{
  NodeItem, SecretItem, node_item, secret_items, rows_of_items, SecretRow, nodes_of_items,
  refreshed,
}

-- the names of the tables and of their attributes
abbrev pub nodes_table_name : Bytes
nodes_table_name = codes "swiftnodes"

abbrev pub secrets_table_name : Bytes
secrets_table_name = codes "swiftsecrets"

abbrev pub domain_field : Bytes
domain_field = codes "Domain"

abbrev pub network_field : Bytes
network_field = codes "Network"

abbrev pub expires_field : Bytes
expires_field = codes "expires"

abbrev pub scrambler_key_field : Bytes
scrambler_key_field = codes "ScramblerKey"

abbrev pub cookie_domain_field : Bytes
cookie_domain_field = codes "CookieDomain"

-- The input of `CreateTable`: the attributes with their types, the key, and the one index with its
-- name and its key.
pub data KeyType : Type 0 where
  hash range : KeyType

pub record Index : Type 0 where
  pub name : Bytes
  pub keys : List (Bytes × KeyType)
  pub projection_type : Bytes

pub record TableInput : Type 0 where
  pub attributes : List (Bytes × Bytes)
  pub keys : List (Bytes × KeyType)
  pub index : Index
  pub billing_mode : Bytes
  pub table_name : Bytes

unfoldable pub nodes_table_input : TableInput
nodes_table_input = record {
  attributes =
      (network_field, codes "S") ∷ (domain_field, codes "S") ∷ (expires_field, codes "N") ∷ [];
  keys = (network_field, hash) ∷ (domain_field, range) ∷ [];
  index = record {
    name = codes "Expires-index";
    keys = (network_field, hash) ∷ (expires_field, range) ∷ [];
    projection_type = codes "KEYS_ONLY";
  };
  billing_mode = codes "PAY_PER_REQUEST";
  table_name = nodes_table_name;
}

unfoldable pub secrets_table_input : TableInput
secrets_table_input = record {
  attributes =
      (domain_field, codes "S")
      ∷ (scrambler_key_field, codes "S")
      ∷ (expires_field, codes "N")
      ∷ (cookie_domain_field, codes "S")
      ∷ [];
  keys = (domain_field, hash) ∷ (scrambler_key_field, range) ∷ [];
  index = record {
    name = codes "Expires-index";
    keys = (domain_field, hash) ∷ (expires_field, range) ∷ [];
    projection_type = codes "KEYS_ONLY";
  };
  billing_mode = codes "PAY_PER_REQUEST";
  table_name = secrets_table_name;
}

-- An error of the service has a code; of the codes two mean that the table is there.
pub data AwsError : Type 0 where
  table_already_exists resource_in_use other_code no_code : AwsError

pub data Creation (D : Type 0) : Type 0 where
  created : D → Creation D
  refused : AwsError → Creation D

-- The calls of the client, on the state `D` of the database. `describe_table` is the status of a
-- table at one of the looks of a loop; a scan gives its rows as `UnmarshalMap` reads them.
pub record DynamoOps (D : Type 0) : Type 0 where
  pub create_table : TableInput → D → Creation D
  pub describe_table : ℕ → Bytes → D → Result Bytes
  pub update_time_to_live : Bytes → Bytes → D → Result D
  pub scan_nodes : D → Result (List NodeItem)
  pub scan_secrets : D → Result (List SecretItem)
  pub put_item : D → NodeItem → Result D
  pub batch_write_item : D → List SecretItem → Result D

pub record Dynamo (D : Type 0) : Type 0 where
  pub tables : D
  pub common : Common

abbrev pub refusal : {D : Type 0} → Creation D → Option AwsError
refusal (created d) = none
refusal (refused e) = some e

abbrev pub tables_after : {D : Type 0} → D → Creation D → D
tables_after d (created t) = t
tables_after d (refused e) = d

-- whether the table was there before
unfoldable pub check_table_exists : Option AwsError → Result Bool
check_table_exists none = ok false
check_table_exists (some table_already_exists) = ok true
check_table_exists (some resource_in_use) = ok true
check_table_exists (some e) = err library_error

-- A chain of results whose loops are on fuel; `none` is the end of the fuel.
abbrev pub chain {ℓ κ} :
    {A : Type ℓ} {B : Type κ} → Option (Result A) → (A → Option (Result B)) → Option (Result B)
chain none f = none
chain (some (ok a)) f = f a
chain (some (err e)) f = some (err e)

module _ {D : Type 0} (ops : DynamoOps D) where
  -- `look` counts the calls of `DescribeTable`.
  unfoldable pub wait_until_table_active : ℕ → ℕ → Bytes → D → Option (Result D)
  wait_until_table_active zero look name d = none
  wait_until_table_active (suc f) look name d =
      let rest = wait_until_table_active f (suc look) name d in
      chain (some (ops.describe_table look name d))
        λ status. if equal status (codes "ACTIVE") then some (ok d) else rest

  unfoldable pub set_table_ttl : Bytes → D → Result D
  set_table_ttl name d = ops.update_time_to_live name expires_field d

  -- what is done where the table is new
  abbrev pub prepared : ℕ → Bool → Bytes → D → Option (Result D)
  prepared f existed name d =
      if existed
      then some (ok d)
      else chain (wait_until_table_active f 0 name d) λ e. some (set_table_ttl name e)

  unfoldable pub aws_create_tables : ℕ → D → Option (Result D)
  unfolding nodes_table_input secrets_table_input check_table_exists
  aws_create_tables f d =
      let nodes = ops.create_table nodes_table_input d in
      let with_nodes = tables_after d nodes in
      let secrets = ops.create_table secrets_table_input with_nodes in
      let with_secrets = tables_after with_nodes secrets in
      chain (some (check_table_exists (refusal nodes))) λ nodes_existed.
        chain (some (check_table_exists (refusal secrets))) λ secrets_existed.
          chain (prepared f nodes_existed nodes_table_name with_secrets)
            λ e. prepared f secrets_existed secrets_table_name e

  -- the node is written behind its secrets
  unfoldable pub set_node : D → Node → Result D
  unfolding node_item secret_items
  set_node d n =
      bind (ops.batch_write_item d (secret_items n n.secrets)) λ e. ops.put_item e (node_item n)

  module _ (decode_key : Bytes → Result Bytes) (draw : ℕ → ℕ) (place : Bytes → ℕ) where
    unfoldable pub fetch_nodes : D → Result (Map Node)
    fetch_nodes d = bind (ops.scan_nodes d) λ is. nodes_of_items decode_key draw place is []

    abbrev pub secret_rows : D → Result (List SecretRow)
    secret_rows d = bind (ops.scan_secrets d) λ is. ok (rows_of_items is)

    unfoldable pub refresh : Time → D → Result Common
    unfolding fetch_nodes refreshed
    refresh now d = refreshed decode_key now (fetch_nodes d) (secret_rows d)

    unfoldable pub new_aws : ℕ → Time → D → Option (Result (Dynamo D))
    unfolding aws_create_tables
    new_aws f now d =
        chain (aws_create_tables f d)
          λ e. some (bind (refresh now e) λ c. ok (record { tables = e; common = c }))

    -- What the store has in memory after a look at it; the database is the same.
    abbrev pub remembered : {A : Type 0} → Dynamo D → Result (A × Common) → Result (A × Dynamo D)
    remembered a r = bind r λ (x, c). ok (x, record a { common = c })

    abbrev fresh : Time → Dynamo D → Result Common
    fresh now a = refresh now a.tables

    unfoldable pub get_node : Time → Bytes → Dynamo D → Result (Option Node × Dynamo D)
    unfolding refresh Database.get_node
    get_node now domain a = remembered a (Database.get_node (fresh now a) domain a.common)

    unfoldable pub get_nodes : Time → Bytes → Dynamo D → Result (Option Nodes × Dynamo D)
    unfolding refresh Database.get_nodes
    get_nodes now network a = remembered a (Database.get_nodes (fresh now a) network a.common)

    unfoldable pub get_all_nodes : Time → Dynamo D → Result (List Node × Dynamo D)
    unfolding refresh Database.get_all_nodes
    get_all_nodes now a = remembered a (Database.get_all_nodes (fresh now a))
