-- ===== src/Database/Tables/Twice.antt =====
-- A node that a store in Azure holds is not set again: `Insert` makes rows and changes none.
use swift_go.Prelude.{
  ◌≡◌, refl, List, [], ◌∷◌, Result, ok, err, Error, bind, bind-eq-ok, Bytes, Result-cases, inl, inr,
  ap, ok_injective,
}
use swift_go.Node.{Node}
use swift_go.Database.Tables.{Entity, TableOps, Azure, set_node_secrets, set_node, node_entity}

module _ {T : Type 0} (ops : TableOps T) where
  -- the nodes set one after the other, up to the first error
  unfoldable pub set_all : Azure T → List Node → Result (Azure T)
  unfolding set_node
  set_all a [] = ok a
  set_all a (n ∷ ns) = bind (set_node ops a n) λ b. set_all b ns

-- What the service documents of `Insert`: the row is held under its two keys, the others stay, and a
-- row of keys that are held is refused.
pub record Documented {T : Type 0} (ops : TableOps T) (Held : Bytes → Bytes → T → Type 0)
    : Type 0 where
  pub insert-Held :
      (t u : T) (i : Entity) → ops.insert t i ≡ ok u → Held i.partition_key i.row_key u
  pub Held-insert :
      (t u : T) (i : Entity) (p r : Bytes) → ops.insert t i ≡ ok u → Held p r t → Held p r u
  pub insert-refused :
      (t : T) (i : Entity)
      → Held i.partition_key i.row_key t
      → (e : Error) × (ops.insert t i ≡ err e)

module _ {T : Type 0} (ops : TableOps T) (Held : Bytes → Bytes → T → Type 0)
    (laws : Documented ops Held) where
  -- What a node that was set has left in the tables.
  set_node-inserts :
      (a b : Azure T) (n : Node)
      → set_node ops a n ≡ ok b
      → ops.insert a.nodes_table (node_entity n) ≡ ok b.nodes_table
  unfolding set_node
  set_node-inserts a b n e =
      let (secrets, written, more) =
        bind-eq-ok (set_node_secrets ops n n.secrets a.secrets_table) _ e in
      let (nodes, inserted, whole) = bind-eq-ok (ops.insert a.nodes_table (node_entity n)) _ more in
      let is : nodes ≡ b.nodes_table = ap (λ (x : Azure T). x.nodes_table) (ok_injective whole) in
      rw⁻¹ is inserted

  Held-set_all :
      (a b : Azure T) (ns : List Node) (p r : Bytes)
      → set_all ops a ns ≡ ok b
      → Held p r a.nodes_table
      → Held p r b.nodes_table
  unfolding set_all
  Held-set_all a b [] p r e held = rw⁻¹ (ok_injective e) held
  Held-set_all a b (n ∷ ns) p r e held =
      let (c, set, rest) = bind-eq-ok (set_node ops a n) _ e in
      Held-set_all c b ns p r rest
        (laws.Held-insert _ _ (node_entity n) p r (set_node-inserts a c n set) held)

  set_node-refused :
      (a : Azure T) (m : Node)
      → Held m.network m.domain a.nodes_table
      → (e : Error) × (set_node ops a m ≡ err e)
  unfolding set_node
  set_node-refused a m held =
      let (e, refused) = laws.insert-refused a.nodes_table (node_entity m) held in
      elim (Result-cases (set_node_secrets ops m m.secrets a.secrets_table)) [
        | inl (secrets, written) ↦ (e, rw (written, refused) refl)
        | inr (x, failed) ↦ (x, rw failed refl)
      ]

  -- Once a store in Azure has set a node, and whatever other nodes it has set since, setting a node with
  -- its network and its domain returns an error, where `Insert` refuses the keys of a row that is there.
  pub set_node-never_again :
      (a b c : Azure T) (n m : Node) (ns : List Node)
      → set_node ops a n ≡ ok b
      → set_all ops b ns ≡ ok c
      → m.network ≡ n.network
      → m.domain ≡ n.domain
      → (e : Error) × (set_node ops c m ≡ err e)
  set_node-never_again a b c n m ns first others network domain = set_node-refused c m (
      rw (network, domain)
        (Held-set_all b c ns n.network n.domain others
          (laws.insert-Held _ _ (node_entity n) (set_node-inserts a b n first))))
