-- ===== src/Database/Trip.antt =====
-- What a reading of the rows of the two tables makes of the rows of a node.
use mathlib.Core.List.Permᴰ.{Permᴰ}
use mathlib.Core.List.{Perm}
use mathlib.Core.List.Perm
use mathlib.Core.Path.{subst}
use swift_go.Prelude.{
  ℕ, ◌≡◌, refl, some, List, [], ◌∷◌, ◌++◌, Result, ok, Bytes, equal_refl, All, All-append, ap,
  IsOrdered,
}
use swift_go.Io.{Time}
use swift_go.Node.{Secret, Node}
use swift_go.Node.Making.{new_secret_from_key}
use swift_go.Stores.{Map, Common, find}
use swift_go.Database.{
  NodeItem, SecretRow, node_item, secret_items, rows_of_items, node_of_item, nodes_of_items,
  common_of, refreshed,
}
use swift_go.Database.Rows.{
  items_of, IsRow, nodes_of_items_total, find-nodes_of_items, without_fraction, IsMade,
  node_of_item-node_item,
}
use swift_go.Database.Attached.{secrets_of, IsKey, Attached, add_secrets-Attached}
use swift_go.Database.Orders.{All-perm, perm-single, items_of-perm, secrets_of-perm}

-- The rows that `setNodeSecrets` writes are the secrets again.
secrets_of-secret_items :
    (n : Node) (ss : List Secret) (rs : List SecretRow)
    → secrets_of n.domain (rows_of_items (secret_items n ss) ++ rs) ≡ ss ++ secrets_of n.domain rs
unfolding secrets_of rows_of_items secret_items
secrets_of-secret_items n [] rs = refl
secrets_of-secret_items n (s ∷ ss) rs =
    rw (equal_refl n.domain) (ap (λ t. s ∷ t) (secrets_of-secret_items n ss rs))

pub secrets_of-set :
    (n : Node) (rs ts : List SecretRow)
    → Permᴰ rs (rows_of_items (secret_items n n.secrets) ++ ts)
    → Perm (secrets_of n.domain rs) (n.secrets ++ secrets_of n.domain ts)
secrets_of-set n rs ts p =
    subst (λ ss. Perm (secrets_of n.domain rs) ss) (secrets_of-secret_items n n.secrets ts)
      ∣ secrets_of-perm n.domain p ∣₁

-- The node that is found has the fields of `n`, with the expiry cut to seconds; its secrets are
-- those of `n` and the `others`, in the order of their times.
pub record Returned (n : Node) (others : List Secret) (ns : Map Node) : Type 0 where
  pub node : Node
  pub is_found : find n.domain ns ≡ some node
  pub is_same : node ≡ record (without_fraction n) { secrets = node.secrets }
  pub its_secrets : Perm node.secrets (n.secrets ++ others)
  pub in_order : IsOrdered (λ (s : Secret). s.time_stamp) node.secrets

module _ (decode_key : Bytes → Result Bytes) where
  -- The secrets can be made again of their keys.
  abbrev pub HasKeys : List Secret → Type 0
  HasKeys ss =
      All
        (λ (s : Secret). (t : Secret) × (new_secret_from_key decode_key s.key s.time_stamp ≡ ok t))
        ss

  pub secret_items-IsKey :
      (n : Node) (ss : List Secret)
      → HasKeys ss
      → All (IsKey decode_key) (rows_of_items (secret_items n ss))
  unfolding rows_of_items secret_items
  secret_items-IsKey n [] h = tt
  secret_items-IsKey n (s ∷ ss) (h, hs) = (h, secret_items-IsKey n ss hs)

module _ (decode_key : Bytes → Result Bytes) (draw : ℕ → ℕ) (place : Bytes → ℕ) where
  refreshed-Attached :
      (now : Time) (is : List NodeItem) (rs : List SecretRow) (i : NodeItem) (m : Node)
      → All (IsRow decode_key draw place) is
      → All (IsKey decode_key) rs
      → items_of i.domain is ≡ i ∷ []
      → node_of_item decode_key draw place i ≡ ok m
      → (c : Common) × (refreshed decode_key now
            (nodes_of_items decode_key draw place is [])
            (ok rs)
          ≡ ok c)
        × Attached decode_key i.domain rs m c.nodes
  unfolding refreshed common_of
  refreshed-Attached now is rs i m rows keys only made =
      let (ns, fetched) = nodes_of_items_total decode_key draw place is [] rows in
      let at = find-nodes_of_items decode_key draw place i.domain is [] ns i m only made fetched in
      let (ms, added, result) = add_secrets-Attached decode_key i.domain rs ns m keys at in
      (common_of now ms, rw (fetched, added) refl, result)

  -- The tables have the rows of the node, and others that are not of its domain; the reading gives
  -- the node.
  pub refreshed-Returned :
      (now : Time) (n : Node) (is js : List NodeItem) (rs ts : List SecretRow)
      → IsMade decode_key draw place n
      → HasKeys decode_key n.secrets
      → All (IsRow decode_key draw place) js
      → All (IsKey decode_key) ts
      → Permᴰ is (node_item n ∷ js)
      → items_of n.domain js ≡ []
      → Permᴰ rs (rows_of_items (secret_items n n.secrets) ++ ts)
      → (c : Common) × (refreshed decode_key now
            (nodes_of_items decode_key draw place is [])
            (ok rs)
          ≡ ok c)
        × Returned n (secrets_of n.domain ts) c.nodes
  unfolding node_item items_of
  refreshed-Returned now n is js rs ts made keys rows more_keys p other q =
      let again = node_of_item-node_item decode_key draw place n made in
      let only : items_of n.domain (node_item n ∷ js) ≡ node_item n ∷ [] =
        rw (equal_refl n.domain, other) refl in
      let (c, done, a) =
        refreshed-Attached now is rs (node_item n) (without_fraction n)
          (All-perm (IsRow decode_key draw place) p ((without_fraction n, again), rows))
          (All-perm (IsKey decode_key) q (
            All-append (IsKey decode_key) _ ts (secret_items-IsKey decode_key n n.secrets keys)
              more_keys))
          (perm-single (items_of-perm n.domain p) only) again in
      (
        c,
        done,
        record {
          node = a.node;
          is_found = a.is_found;
          is_same = a.is_same;
          its_secrets = Perm.trans a.its_secrets (secrets_of-set n rs ts q);
          in_order = a.in_order;
        },
      )
