-- ===== src/Database/Documents.antt =====
-- gcp.go: the store in the documents of Firestore.
pub mod Copies
pub mod Rules
use swift_go.Prelude.{ℕ, Option, List, [], ◌∷◌, Result, ok, err, bind, Bytes}
use swift_go.Io.{Time}
use swift_go.Node.{Node}
use swift_go.Node.Making.{new_secret_from_key}
use swift_go.Stores.{Map, Common, put}
use swift_go.Database
use swift_go.Nodes.{Nodes}
use swift_go.Database.{
  NodeItem, SecretItem, node_item, secret_items, node_of_item, give, sort_all, common_of,
}

-- The calls of the client, on the state `D` of the database. The documents of a collection are what
-- `Next` returns up to its end, each as `DataTo` fills in the item, whose error the code drops. A
-- document of a node is set under the name of its domain; one of a secret is added under a new name.
pub record FirestoreOps (D : Type 0) : Type 0 where
  pub node_documents : D → List (Result NodeItem)
  pub secret_documents : D → List (Result SecretItem)
  pub set_document : D → Bytes → NodeItem → Result D
  pub add_document : D → SecretItem → Result D

pub record Firebase (D : Type 0) : Type 0 where
  pub client : D
  pub common : Common

-- the loop of `addSecrets`
module _ (decode_key : Bytes → Result Bytes) where
  unfoldable pub give_documents : List (Result SecretItem) → Map Node → Result (Map Node)
  unfolding give new_secret_from_key
  give_documents [] ns = ok ns
  give_documents (err e ∷ ds) ns = err e
  give_documents (ok i ∷ ds) ns =
      bind (new_secret_from_key decode_key i.scrambler_key i.time_stamp)
        λ s. give_documents ds (give i.domain s ns)

-- the loop of `fetchNodes`
module _ (decode_key : Bytes → Result Bytes) (draw : ℕ → ℕ) (place : Bytes → ℕ) where
  unfoldable pub nodes_of_documents : List (Result NodeItem) → Map Node → Result (Map Node)
  unfolding node_of_item put
  nodes_of_documents [] ns = ok ns
  nodes_of_documents (err e ∷ ds) ns = err e
  nodes_of_documents (ok i ∷ ds) ns =
      bind (node_of_item decode_key draw place i) λ n. nodes_of_documents ds (put i.domain n ns)

module _ {D : Type 0} (ops : FirestoreOps D) where
  -- the loop of `setNodeSecrets`; what it has added before an error is dropped with it
  unfoldable pub add_documents : List SecretItem → D → Result D
  add_documents [] d = ok d
  add_documents (i ∷ is) d = bind (ops.add_document d i) (add_documents is)

  unfoldable pub set_node : D → Node → Result D
  unfolding add_documents node_item secret_items
  set_node d n =
      bind (add_documents (secret_items n n.secrets) d)
        λ e. ops.set_document e n.domain (node_item n)

  module _ (decode_key : Bytes → Result Bytes) (draw : ℕ → ℕ) (place : Bytes → ℕ) where
    unfoldable pub add_secrets : D → Map Node → Result (Map Node)
    unfolding give_documents sort_all
    add_secrets d ns =
        bind (give_documents decode_key (ops.secret_documents d) ns) λ given. ok (sort_all given)

    unfoldable pub fetch_nodes : D → Result (Map Node)
    unfolding nodes_of_documents
    fetch_nodes d = nodes_of_documents decode_key draw place (ops.node_documents d) []

    unfoldable pub refresh : Time → D → Result Common
    unfolding fetch_nodes add_secrets common_of
    refresh now d = bind (fetch_nodes d) λ ns. bind (add_secrets d ns) λ ms. ok (common_of now ms)

    -- `client` is that of the project; a project without one ends the program.
    unfoldable pub new_firebase : Time → D → Result (Firebase D)
    unfolding refresh
    new_firebase now client =
        bind (refresh now client) λ c. ok (record { client = client; common = c })

    -- What the store has in memory after a look at it; the database is the same.
    abbrev pub remembered :
        {A : Type 0} → Firebase D → Result (A × Common) → Result (A × Firebase D)
    remembered a r = bind r λ (x, c). ok (x, record a { common = c })

    abbrev fresh : Time → Firebase D → Result Common
    fresh now a = refresh now a.client

    unfoldable pub get_node : Time → Bytes → Firebase D → Result (Option Node × Firebase D)
    unfolding refresh Database.get_node
    get_node now domain a = remembered a (Database.get_node (fresh now a) domain a.common)

    unfoldable pub get_nodes : Time → Bytes → Firebase D → Result (Option Nodes × Firebase D)
    unfolding refresh Database.get_nodes
    get_nodes now network a = remembered a (Database.get_nodes (fresh now a) network a.common)

    unfoldable pub get_all_nodes : Time → Firebase D → Result (List Node × Firebase D)
    unfolding refresh Database.get_all_nodes
    get_all_nodes now a = remembered a (Database.get_all_nodes (fresh now a))
