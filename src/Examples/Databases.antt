-- ===== src/Examples/Databases.antt =====
-- The stores in databases, over databases in memory.
use mathlib.Core.List.Permᴰ
use swift_go.Prelude.{
  ℕ, ◌≡◌, ◌≢◌, refl, arith, Bool, true, false, some, List, [], ◌∷◌, ◌++◌, map, Result, ok, err,
  library_error, Bytes, codes, equal, eq_of_equal, Bool-cases, inl, inr, if◌then◌else◌,
  ok_injective, length, ◌≤◌,
}
use swift_go.Node.{Secret, Node, get_scrambler_key, make_nonce, nonce_loop}
use swift_go.Node.Making.{new_node, make_scrambler, new_secret_from_key, new_crypto, or_panic}
use swift_go.Nodes.{get_hash}
use swift_go.Stores.{Common, empty, find}
use swift_go.Database.{NodeItem, SecretItem, node_item, secret_items, rows_of_items}
use swift_go.Database.Attached.{secrets_of}
use swift_go.Database.Rows.{IsMade}
use swift_go.Database.Trip.{Returned, HasKeys}
use swift_go.Database.Dynamo.{
  DynamoOps, TableInput, created, refused, other_code, new_aws, get_node, set_node,
}
use swift_go.Database.Dynamo.Opening.{has_unused, new_aws-refused}
use swift_go.Database.Dynamo.Kept.{
  Documented, other_nodes, other_secrets, earlier, get_node-set_node,
}
use swift_go.Database.Documents as Documents
use swift_go.Database.Documents.{FirestoreOps, add_documents}
use swift_go.Database.Documents.Rules as Rules
use swift_go.Database.Documents.Copies.{refresh-set_node_twice}
use swift_go.Database.Documents.Rules.{other_documents, cut_node, cut_secret}
use swift_go.Database.Documents.Copies.{IsCut}
use swift_go.Examples.Trips.{
  plain_key, secret_a, secret_b, scrambling, scrambling_made, secret-made,
}

abbrev stored_node : Node
stored_node = record scrambling { secrets = secret_b ∷ secret_a ∷ [] }

abbrev place : Bytes → ℕ
place d = 9

abbrev draw : ℕ → ℕ
draw s = 7

stored_node-IsMade : IsMade plain_key draw place stored_node
unfolding get_scrambler_key
stored_node-IsMade = record { is_new = scrambling_made; in_place = refl; fits = omega arith }

stored_node-HasKeys : HasKeys plain_key stored_node.secrets
stored_node-HasKeys = ((_, secret-made 4), ((_, secret-made 3), tt))

-- A database in memory.
record Tables : Type 0 where
  tables : List Bytes
  nodes : List NodeItem
  secrets : List SecretItem

abbrev no_rows : Tables
no_rows = record { tables = []; nodes = []; secrets = [] }

abbrev holds : Bytes → List Bytes → Bool
holds name [] = false
holds name (t ∷ ts) = let rest = holds name ts in if equal name t then true else rest

abbrev dynamo : DynamoOps Tables
dynamo = record {
  create_table = λ t d.
      if has_unused t
      then refused other_code
      else created (record d { tables = t.table_name ∷ d.tables });
  describe_table = λ look name d. ok (codes "ACTIVE");
  update_time_to_live = λ name field d. ok d;
  scan_nodes = λ d. ok d.nodes;
  scan_secrets = λ d. ok d.secrets;
  put_item = λ d i. ok (record d { nodes = i ∷ other_nodes i d.nodes });
  batch_write_item = λ d is. ok (record d { secrets = is ++ other_secrets is d.secrets });
}

abbrev IsBatch : Tables → List SecretItem → Type 0
IsBatch d is = length is ≤ 25

abbrev IsHere : Tables → Type 0
IsHere d = Unit {0}

abbrev documented : Documented dynamo IsBatch IsHere
documented = record {
  nodes = λ d. d.nodes;
  secrets = λ d. d.secrets;
  scan_nodes-nodes = λ d here. (d.nodes, refl, Permᴰ.refl _);
  scan_secrets-secrets = λ d here. (d.secrets, refl, Permᴰ.refl _);
  put_item-nodes = λ d e i put. rw⁻¹ (ok_injective put) (Permᴰ.refl _);
  put_item-secrets = λ d e i put. rw⁻¹ (ok_injective put) refl;
  batch_write_item-secrets = λ d e is put whole. rw⁻¹ (ok_injective put) (Permᴰ.refl _);
  batch_write_item-nodes = λ d e is put. rw⁻¹ (ok_injective put) refl;
}

abbrev or_no_rows : Result Tables → Tables
or_no_rows (ok d) = d
or_no_rows (err e) = no_rows

abbrev after_setting : Tables
after_setting = or_no_rows (set_node dynamo no_rows stored_node)

is_set : set_node dynamo no_rows stored_node ≡ ok after_setting
unfolding set_node
is_set = refl

get_node-set_node_example :
    (c : Common) × (r : Returned stored_node (earlier stored_node []) c.nodes) × (get_node dynamo
        plain_key draw place 50
        (codes "ab")
        (record { tables = after_setting; common = empty })
      ≡ ok (some r.node, record { tables = after_setting; common = c }))
unfolding rows_of_items find secret_items
get_node-set_node_example =
    get_node-set_node dynamo IsBatch IsHere documented plain_key draw place 50 no_rows after_setting
      empty stored_node (record { rows = tt; keys = tt }) tt stored_node-IsMade stored_node-HasKeys
      is_set (omega arith) tt refl

abbrev Absent : Bytes → Tables → Type 0
Absent name d = holds name d.tables ≡ false

refuses :
    (t : TableInput) (d : Tables)
    → has_unused t ≡ true
    → Absent t.table_name d
    → dynamo.create_table t d ≡ refused other_code
refuses t d unused absent = rw unused refl

adds_one :
    (t : TableInput) (d e : Tables) (name : Bytes)
    → dynamo.create_table t d ≡ created e
    → name ≢ t.table_name
    → Absent name d
    → Absent name e
adds_one t d e name made other absent = elim (Bool-cases (has_unused t)) [
  | inl unused ↦ cc (rw unused at made)
  | inr used ↦
      let is : record d { tables = t.table_name ∷ d.tables } ≡ e = cc (rw used at made) in
      elim (Bool-cases (equal name t.table_name)) [
        | inl same ↦ absurd (other (eq_of_equal name t.table_name same))
        | inr apart ↦ rw⁻¹ is (rw apart absent)
      ]
]

new_aws-refused_example :
    new_aws dynamo plain_key draw place 5 50 no_rows ≡ some (err library_error)
new_aws-refused_example =
    new_aws-refused dynamo Absent refuses adds_one plain_key draw place 5 50 no_rows refl

-- Collections of documents in memory.
abbrev read : {A : Type 0} → List A → List (Result A)
read xs = map ok xs

abbrev firestore : FirestoreOps Tables
firestore = record {
  node_documents = λ d. read d.nodes;
  secret_documents = λ d. read d.secrets;
  set_document = λ d k i. ok (record d { nodes = cut_node i ∷ other_documents k d.nodes });
  add_document = λ d i. ok (record d { secrets = cut_secret i ∷ d.secrets });
}

read-injective : {A : Type 0} (xs ys : List A) → read xs ≡ read ys → xs ≡ ys
read-injective [] [] e = refl
read-injective [] (y ∷ ys) e = cc e
read-injective (x ∷ xs) [] e = cc e
read-injective (x ∷ xs) (y ∷ ys) e =
    let rest : read xs ≡ read ys = cc e in cc (e, read-injective xs ys rest)

firestore-Documented : Rules.Documented firestore
firestore-Documented = record {
  set_document-node_documents = λ d e k i is set had. (
    cut_node i ∷ other_documents k d.nodes,
    rw⁻¹ (ok_injective set) refl,
    rw (read-injective d.nodes is had) (Permᴰ.refl _),
  );
  set_document-secret_documents = λ d e k i set. rw⁻¹ (ok_injective set) refl;
  add_document-secret_documents = λ d e i is added had. (
    cut_secret i ∷ d.secrets,
    rw⁻¹ (ok_injective added) refl,
    rw (read-injective d.secrets is had) (Permᴰ.refl _),
  );
  add_document-node_documents = λ d e i added. rw⁻¹ (ok_injective added) refl;
}

abbrev once : Tables
once = or_no_rows (Documents.set_node firestore no_rows stored_node)

abbrev twice : Tables
twice = or_no_rows (Documents.set_node firestore once stored_node)

set_once : Documents.set_node firestore no_rows stored_node ≡ ok once
unfolding Documents.set_node add_documents
set_once = refl

set_again : Documents.set_node firestore once stored_node ≡ ok twice
unfolding Documents.set_node add_documents
set_again = refl

-- The node with its times in microseconds.
abbrev kept_secret : Secret
kept_secret = record secret_a { time_stamp = 0 }

abbrev kept_node : Node
kept_node = record stored_node {
  created = 0;
  starts = 0;
  scrambler = some kept_secret;
  secrets = kept_secret ∷ kept_secret ∷ [];
}

kept_node-IsCut : IsCut stored_node kept_node
unfolding node_item get_scrambler_key
kept_node-IsCut = record {
  same_domain = refl;
  its_expiry = refl;
  its_item = refl;
  its_secrets = refl;
}

kept_node-IsMade : IsMade plain_key draw place kept_node
unfolding get_scrambler_key new_node make_scrambler new_secret_from_key new_crypto make_nonce
    nonce_loop or_panic get_hash
kept_node-IsMade = record { is_new = refl; in_place = refl; fits = omega arith }

refresh-set_node_twice_example :
    (c : Common) × (Documents.refresh firestore plain_key draw place 50 twice ≡ ok c)
    × Returned kept_node (kept_secret ∷ kept_secret ∷ []) c.nodes
unfolding rows_of_items secrets_of
refresh-set_node_twice_example =
    refresh-set_node_twice firestore plain_key draw place 50 no_rows once twice stored_node
      kept_node [] [] firestore-Documented
      (record { its_nodes = refl; its_secrets = refl; rows = tt; keys = tt }) kept_node-IsCut
      kept_node-IsMade ((_, secret-made 0), ((_, secret-made 0), tt)) set_once set_again
