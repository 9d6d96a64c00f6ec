-- ===== src/Database/Documents/Copies.antt =====
-- A node that a store in Firestore sets comes back with its secrets, once for each setting.
use mathlib.Core.List.Permᴰ.{Permᴰ}
use mathlib.Core.List.Perm
use mathlib.Core.Path.{subst}
use swift_go.Prelude.{
  refl, map, sym, ℕ, ◌≡◌, List, [], ◌∷◌, ◌++◌, Result, ok, bind, bind-eq-ok, Bytes, All, All-append,
  ap, ◌∙◌,
}
use swift_go.Io.{Time}
use swift_go.Node.{Secret, Node}
use swift_go.Stores.{Common, put}
use swift_go.Database.{
  NodeItem, SecretItem, SecretRow, unix, node_item, secret_items, rows_of_items, node_of_item,
  nodes_of_items, give, give_each, refreshed, sort_all, common_of,
}
use swift_go.Database
use swift_go.Database.Rows.{IsRow, IsMade, node_of_item-node_item}
use swift_go.Database.Attached.{secrets_of, IsKey}
use swift_go.Database.Orders.{All-perm, rows_of_items-perm, rows_of_items-append}
use swift_go.Database.Trip.{
  Returned, HasKeys, refreshed-Returned, secret_items-IsKey, secrets_of-set,
}
use swift_go.Database.Documents.{
  FirestoreOps, add_documents, set_node, add_secrets, fetch_nodes, refresh,
}
use swift_go.Database.Documents.Rules.{
  other_documents, read, Documented, cut, cut_node, cut_secret, items_of-other_documents,
  All-other_documents, nodes_of_documents-ok, give_documents-ok, add_documents-node_documents,
  add_documents-secret_documents,
}

-- The node `m` is `n` with the times of its creation, its start and its secrets cut to microseconds.
pub record IsCut (n m : Node) : Type 0 where
  pub same_domain : m.domain ≡ n.domain
  pub its_expiry : unix m.expires ≡ unix n.expires
  pub its_item : node_item m ≡ cut_node (node_item n)
  pub its_secrets :
      m.secrets ≡ map (λ (s : Secret). record s { time_stamp = cut s.time_stamp }) n.secrets

abbrev cut_of : List Secret → List Secret
cut_of ss = map (λ (s : Secret). record s { time_stamp = cut s.time_stamp }) ss

-- the item of a secret, with its time cut
abbrev item_of : Bytes → ℕ → Secret → SecretItem
item_of domain expires s = record {
  domain = domain;
  time_stamp = cut s.time_stamp;
  expires = expires;
  scrambler_key = s.key;
}

secret_items-cut :
    (n m : Node) (ss : List Secret)
    → m.domain ≡ n.domain
    → unix m.expires ≡ unix n.expires
    → map cut_secret (secret_items n ss) ≡ secret_items m (cut_of ss)
unfolding secret_items
secret_items-cut n m [] d x = refl
secret_items-cut n m (s ∷ ss) d x =
    let same : item_of n.domain (unix n.expires) s ≡ item_of m.domain (unix m.expires) s =
      rw (d, x) refl in
    ap (λ is. item_of n.domain (unix n.expires) s ∷ is) (secret_items-cut n m ss d x)
    ∙ ap (λ i. i ∷ secret_items m (cut_of ss)) same

IsCut-secrets :
    (n m : Node) → IsCut n m → map cut_secret (secret_items n n.secrets) ≡ secret_items m m.secrets
IsCut-secrets n m h =
    secret_items-cut n m n.secrets h.same_domain h.its_expiry
    ∙ ap (secret_items m) (sym h.its_secrets)

module _ {D : Type 0} (ops : FirestoreOps D) (decode_key : Bytes → Result Bytes) (draw : ℕ → ℕ)
    (place : Bytes → ℕ) where
  refresh-refreshed :
      (now : Time) (d : D) (is : List NodeItem) (ss : List SecretItem)
      → ops.node_documents d ≡ read is
      → ops.secret_documents d ≡ read ss
      → refresh ops decode_key draw place now d
        ≡ refreshed decode_key now
            (nodes_of_items decode_key draw place is [])
            (ok (rows_of_items ss))
  unfolding refresh fetch_nodes add_secrets refreshed Database.add_secrets
  refresh-refreshed now d is ss nodes secrets =
      rw (nodes, secrets, nodes_of_documents-ok decode_key draw place is [])
        (ap (bind (nodes_of_items decode_key draw place is [])) (λ t ns.
          bind
            (bind (give_documents-ok decode_key draw place ss ns t) (λ given. ok (sort_all given)))
            (λ ms. ok (common_of now ms))))

  -- The documents that can be read.
  pub record IsReadable (d : D) (is : List NodeItem) (ss : List SecretItem) : Type 0 where
    pub its_nodes : ops.node_documents d ≡ read is
    pub its_secrets : ops.secret_documents d ≡ read ss
    pub rows : All (IsRow decode_key draw place) is
    pub keys : All (IsKey decode_key) (rows_of_items ss)

  -- What `setNode` of a node leaves in the two collections, where `m` is that node with its times cut.
  record Left (m : Node) (is : List NodeItem) (ss : List SecretItem) (e : D) : Type 0 where
    items : List NodeItem
    secrets : List SecretItem
    has_items : ops.node_documents e ≡ read items
    has_secrets : ops.secret_documents e ≡ read secrets
    its_items : Permᴰ items (node_item m ∷ other_documents m.domain is)
    its_secrets : Permᴰ secrets (secret_items m m.secrets ++ ss)

  set_node-Left :
      (d e : D) (n m : Node) (is : List NodeItem) (ss : List SecretItem)
      → Documented ops
      → IsReadable d is ss
      → IsCut n m
      → set_node ops d n ≡ ok e
      → Left m is ss e
  unfolding set_node
  set_node-Left d e n m is ss laws can h set =
      let (b, added, put) = bind-eq-ok (add_documents ops (secret_items n n.secrets) d) _ set in
      let kept = add_documents-node_documents ops _ d b laws added ∙ can.its_nodes in
      let (ts, had, p) = add_documents-secret_documents ops _ ss d b laws can.its_secrets added in
      let (js, has, q) = laws.set_document-node_documents b e n.domain (node_item n) is put kept in
      record {
        items = js;
        secrets = ts;
        has_items = has;
        has_secrets = laws.set_document-secret_documents b e n.domain (node_item n) put ∙ had;
        its_items = rw (h.its_item, h.same_domain) q;
        its_secrets = subst (λ us. Permᴰ ts (us ++ ss)) (IsCut-secrets n m h) p;
      }

  set_node-Returned :
      (now : Time) (d e : D) (n m : Node) (is : List NodeItem) (ss : List SecretItem)
      → Documented ops
      → IsReadable d is ss
      → IsCut n m
      → IsMade decode_key draw place m
      → HasKeys decode_key m.secrets
      → set_node ops d n ≡ ok e
      → (c : Common) × (refresh ops decode_key draw place now e ≡ ok c)
        × Returned m (secrets_of m.domain (rows_of_items ss)) c.nodes
  set_node-Returned now d e n m is ss laws can h made keys set =
      let l = set_node-Left d e n m is ss laws can h set in
      let (c, done, back) =
        refreshed-Returned decode_key draw place now m l.items (other_documents m.domain is)
          (rows_of_items l.secrets) (rows_of_items ss) made keys
          (All-other_documents (IsRow decode_key draw place) m.domain is can.rows) can.keys
          l.its_items (items_of-other_documents m.domain is)
          (subst (λ rs. Permᴰ (rows_of_items l.secrets) rs) (rows_of_items-append _ ss)
            (rows_of_items-perm l.its_secrets)) in
      (c, refresh-refreshed now e l.items l.secrets l.has_items l.has_secrets ∙ done, back)

  -- A node that is set twice in Firestore comes back with each of its secrets twice, and as `m`: the
  -- node with the times of its creation, its start and its secrets cut to microseconds. The documents
  -- can be read, and `m` is a node that `newNode` makes, with secrets that can be made of their keys. The
  -- secrets are those of both settings and those that were there for the domain before, in the order
  -- of their times, and the expiry is cut to seconds.
  pub refresh-set_node_twice :
      (now : Time) (d e f : D) (n m : Node) (is : List NodeItem) (ss : List SecretItem)
      → Documented ops
      → IsReadable d is ss
      → IsCut n m
      → IsMade decode_key draw place m
      → HasKeys decode_key m.secrets
      → set_node ops d n ≡ ok e
      → set_node ops e n ≡ ok f
      → (c : Common) × (refresh ops decode_key draw place now f ≡ ok c)
        × Returned m (m.secrets ++ secrets_of m.domain (rows_of_items ss)) c.nodes
  unfolding node_item
  refresh-set_node_twice now d e f n m is ss laws can h made keys set again =
      let l = set_node-Left d e n m is ss laws can h set in
      let p =
        subst (λ rs. Permᴰ (rows_of_items l.secrets) rs) (rows_of_items-append _ ss)
          (rows_of_items-perm l.its_secrets) in
      let (c, done, back) =
        set_node-Returned now e f n m l.items l.secrets laws
          (record {
            its_nodes = l.has_items;
            its_secrets = l.has_secrets;
            rows = All-perm (IsRow decode_key draw place) l.its_items (
              (_, node_of_item-node_item decode_key draw place m made),
              All-other_documents (IsRow decode_key draw place) m.domain is can.rows,
            );
            keys = All-perm (IsKey decode_key) p (
                All-append (IsKey decode_key) _ _ (secret_items-IsKey decode_key m m.secrets keys)
                  can.keys);
          })
          h made keys again in
      (
        c,
        done,
        record {
          node = back.node;
          is_found = back.is_found;
          is_same = back.is_same;
          its_secrets = Perm.trans back.its_secrets (
              Perm.append_left m.secrets
                (secrets_of-set m (rows_of_items l.secrets) (rows_of_items ss) p));
          in_order = back.in_order;
        },
      )
