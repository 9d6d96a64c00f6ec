-- ===== src/Database/Dynamo/Kept.antt =====
-- The node that a store in DynamoDB sets and the nodes of its next reading.
use mathlib.Core.List.Permᴰ.{Permᴰ}
use mathlib.Core.Path.{subst}
use swift_go.Prelude.{
  ℕ, ◌≡◌, refl, Bool, true, false, ◌&&◌, List, [], ◌∷◌, ◌++◌, Result, ok, some, none, bind-eq-ok,
  if◌then◌else◌, Bytes, equal, Bool-cases, inl, inr, All,
}
use swift_go.Io.{Time}
use swift_go.Node.{Secret, Node}
use swift_go.Stores.{Common, find}
use swift_go.Database
use swift_go.Database.{
  NodeItem, SecretItem, SecretRow, node_item, secret_items, rows_of_items, nodes_of_items,
}
use swift_go.Database.Rows.{items_of, IsRow, IsMade}
use swift_go.Database.Attached.{secrets_of, IsKey}
use swift_go.Database.Orders.{rows_of_items-perm, rows_of_items-append}
use swift_go.Database.Trip.{Returned, HasKeys, refreshed-Returned}
use swift_go.Database.Dynamo.{DynamoOps, set_node, refresh, fetch_nodes, get_node}

-- The rows with another key than that of a row: the key of a node is its network and its domain, and
-- that of a secret its domain and its key.
unfoldable pub other_nodes : NodeItem → List NodeItem → List NodeItem
other_nodes i [] = []
other_nodes i (j ∷ js) =
    let rest = other_nodes i js in
    if equal i.domain j.domain && equal i.network j.network then rest else j ∷ rest

abbrev holds_key : SecretItem → List SecretItem → Bool
holds_key j [] = false
holds_key j (i ∷ is) =
    let rest = holds_key j is in
    if equal i.domain j.domain && equal i.scrambler_key j.scrambler_key then true else rest

unfoldable pub other_secrets : List SecretItem → List SecretItem → List SecretItem
other_secrets is [] = []
other_secrets is (j ∷ js) =
    let rest = other_secrets is js in if holds_key j is then rest else j ∷ rest

-- What DynamoDB documents of its tables. Writing an item takes the place of the one with its key. A
-- batch may leave items unprocessed: `IsWhole d is` says that the batch of `is`, written in the state
-- `d`, leaves none. A scan is eventually consistent, and ends after a megabyte: `IsVisible d` says
-- that the scans in the state `d` succeed, give each table in one page, and see every write before
-- them. Only then is it known what they give, in some order.
pub record Documented {D : Type 0} (ops : DynamoOps D) (IsWhole : D → List SecretItem → Type 0)
    (IsVisible : D → Type 0) : Type 0 where
  pub nodes : D → List NodeItem
  pub secrets : D → List SecretItem
  pub scan_nodes-nodes :
      (d : D) → IsVisible d → (is : List NodeItem) × (ops.scan_nodes d ≡ ok is) × Permᴰ is (nodes d)
  pub scan_secrets-secrets :
      (d : D)
      → IsVisible d
      → (ss : List SecretItem) × (ops.scan_secrets d ≡ ok ss) × Permᴰ ss (secrets d)
  pub put_item-nodes :
      (d e : D) (i : NodeItem)
      → ops.put_item d i ≡ ok e
      → Permᴰ (nodes e) (i ∷ other_nodes i (nodes d))
  pub put_item-secrets : (d e : D) (i : NodeItem) → ops.put_item d i ≡ ok e → secrets e ≡ secrets d
  pub batch_write_item-secrets :
      (d e : D) (is : List SecretItem)
      → ops.batch_write_item d is ≡ ok e
      → IsWhole d is
      → Permᴰ (secrets e) (is ++ other_secrets is (secrets d))
  pub batch_write_item-nodes :
      (d e : D) (is : List SecretItem) → ops.batch_write_item d is ≡ ok e → nodes e ≡ nodes d

-- No row of the domain is of another network.
abbrev pub IsAlone : NodeItem → List NodeItem → Type 0
IsAlone i is =
    All (λ (j : NodeItem). equal i.domain j.domain ≡ true → equal i.network j.network ≡ true) is

items_of-other_nodes :
    (i : NodeItem) (is : List NodeItem) → IsAlone i is → items_of i.domain (other_nodes i is) ≡ []
unfolding items_of other_nodes
items_of-other_nodes i [] alone = refl
items_of-other_nodes i (j ∷ js) (h, hs) =
    let rest = items_of-other_nodes i js hs in
    elim (Bool-cases (equal i.domain j.domain)) [
      | inl same ↦ rw (same, h same) rest
      | inr other ↦ rw (other, other) rest
    ]

All-other_nodes {κ} :
    (P : NodeItem → Type κ) (i : NodeItem) (is : List NodeItem)
    → All P is
    → All P (other_nodes i is)
unfolding other_nodes
All-other_nodes P i [] h = h
All-other_nodes P i (j ∷ js) (h, hs) =
    let rest = All-other_nodes P i js hs in
    elim (Bool-cases (equal i.domain j.domain && equal i.network j.network)) [
      | inl same ↦ rw same rest
      | inr other ↦ rw other (h, rest)
    ]

All-other_secrets {κ} :
    (P : SecretRow → Type κ) (is ss : List SecretItem)
    → All P (rows_of_items ss)
    → All P (rows_of_items (other_secrets is ss))
unfolding other_secrets rows_of_items
All-other_secrets P is [] h = h
All-other_secrets P is (j ∷ js) (h, hs) =
    let rest = All-other_secrets P is js hs in
    elim (Bool-cases (holds_key j is)) [ inl same ↦ rw same rest | inr other ↦ rw other (h, rest) ]

-- The secrets of the node in the database that the setting does not write again.
abbrev pub earlier : Node → List SecretItem → List Secret
earlier n ss = secrets_of n.domain (rows_of_items (other_secrets (secret_items n n.secrets) ss))

module _ {D : Type 0} (ops : DynamoOps D) (IsWhole : D → List SecretItem → Type 0)
    (IsVisible : D → Type 0) (laws : Documented ops IsWhole IsVisible)
    (decode_key : Bytes → Result Bytes) (draw : ℕ → ℕ) (place : Bytes → ℕ) where
  -- The rows of the tables are those of nodes and secrets.
  pub record IsReadable (d : D) : Type 0 where
    pub rows : All (IsRow decode_key draw place) (laws.nodes d)
    pub keys : All (IsKey decode_key) (rows_of_items (laws.secrets d))

  refreshed-set_node :
      (now : Time) (d e : D) (n : Node)
      → IsReadable d
      → IsAlone (node_item n) (laws.nodes d)
      → IsMade decode_key draw place n
      → HasKeys decode_key n.secrets
      → set_node ops d n ≡ ok e
      → IsWhole d (secret_items n n.secrets)
      → IsVisible e
      → (c : Common) × (refresh ops decode_key draw place now e ≡ ok c)
        × Returned n (earlier n (laws.secrets d)) c.nodes
  unfolding set_node refresh fetch_nodes node_item
  refreshed-set_node now d e n can alone made keys set whole visible =
      let is = laws.nodes d in
      let ss = laws.secrets d in
      let others = other_secrets (secret_items n n.secrets) ss in
      let (b, batched, put) =
        bind-eq-ok (ops.batch_write_item d (secret_items n n.secrets)) _ set in
      let (ts, scanned, p) = laws.scan_secrets-secrets e visible in
      let (js, found, q) = laws.scan_nodes-nodes e visible in
      let kept = laws.put_item-secrets b e _ put in
      let written =
        Permᴰ.trans (subst (λ us. Permᴰ ts us) kept p)
          (laws.batch_write_item-secrets d b _ batched whole) in
      let placed =
        subst (λ ks. Permᴰ (laws.nodes e) (node_item n ∷ other_nodes (node_item n) ks))
          (laws.batch_write_item-nodes d b _ batched) (laws.put_item-nodes b e _ put) in
      let (c, done, back) =
        refreshed-Returned decode_key draw place now n js (other_nodes (node_item n) is)
          (rows_of_items ts) (rows_of_items others) made keys
          (All-other_nodes (IsRow decode_key draw place) (node_item n) is can.rows)
          (All-other_secrets (IsKey decode_key) _ ss can.keys) (Permᴰ.trans q placed)
          (items_of-other_nodes (node_item n) is alone)
          (subst (λ rs. Permᴰ (rows_of_items ts) rs) (rows_of_items-append _ others)
            (rows_of_items-perm written)) in
      (c, rw (found, scanned) done, back)

  -- A store in DynamoDB that has set a node and does not have its domain in memory finds it, where the
  -- batch has left no secret unprocessed, and the scans see what was written, whole. The tables had
  -- rows that can be read, and none of the domain in another network, and the node is one that
  -- `newNode` makes, with secrets that can be made of their keys. It comes back with its expiry cut to
  -- seconds and with its secrets and those that the database had for the domain under other keys, in
  -- the order of their times.
  pub get_node-set_node :
      (now : Time) (d e : D) (c : Common) (n : Node)
      → IsReadable d
      → IsAlone (node_item n) (laws.nodes d)
      → IsMade decode_key draw place n
      → HasKeys decode_key n.secrets
      → set_node ops d n ≡ ok e
      → IsWhole d (secret_items n n.secrets)
      → IsVisible e
      → find n.domain c.nodes ≡ none
      → (c' : Common) × (r : Returned n (earlier n (laws.secrets d)) c'.nodes) × (get_node ops
            decode_key draw place now n.domain
            (record { tables = e; common = c })
          ≡ ok (some r.node, record { tables = e; common = c' }))
  unfolding get_node Database.get_node
  get_node-set_node now d e c n can alone made keys set whole visible unknown =
      let (c', done, r) = refreshed-set_node now d e n can alone made keys set whole visible in
      (c', r, rw (unknown, done, r.is_found) refl)
