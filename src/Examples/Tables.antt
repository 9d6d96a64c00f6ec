-- ===== src/Examples/Tables.antt =====
-- A table of Azure in memory, and the nodes that Azure's store reads from it and refuses to write again.
use swift_go.Prelude.{
  ℕ, ◌-◌, ◌^◌, ◌≡◌, refl, arith, Bool, true, false, List, [], ◌∷◌, Result, ok, err, Error,
  library_error, Bytes, codes, equal, equal_refl, Bool-cases, inl, inr, if◌then◌else◌, ok_injective,
}
use swift_go.Io.{zero_time}
use swift_go.Node.{Node, get_scrambler_key, make_nonce, nonce_loop}
use swift_go.Node.Making.{new_node, make_scrambler, new_secret_from_key, new_crypto, or_panic}
use swift_go.Nodes.{get_hash, order}
use swift_go.Stores.{empty, find, with_node}
use swift_go.Database.{from_unix}
use swift_go.Database.Tables.{
  Entity, number, words, TableOps, Azure, created, set_node, set_node_secrets, properties_of,
  get_node_start_time, get_node_end_time, node_of_entity, role_field, scrambler_key_field,
  cookie_domain_field,
}
use swift_go.Database.Tables.Expiry.{order-without_expiry}
use swift_go.Database.Tables.Twice.{Documented, set_all, set_node-never_again}
use swift_go.Examples.{network}
use swift_go.Examples.Trips.{plain_key, key_a, scrambling}

abbrev place : Bytes → ℕ
place d = 9

abbrev draw : ℕ → ℕ
draw s = 7

abbrev without_expiry : Entity
without_expiry = record {
  partition_key = codes "net";
  row_key = codes "ab";
  time_stamp = 1;
  properties =
      (role_field, number 1)
      ∷ (scrambler_key_field, words key_a)
      ∷ (cookie_domain_field, words [])
      ∷ [];
}

abbrev expired : Node
expired = record scrambling { starts = 1; expires = from_unix (2 ^ 63 - 1) 999_999_999 }

expired_made : node_of_entity plain_key draw place without_expiry ≡ ok expired
unfolding node_of_entity get_node_start_time get_node_end_time find equal new_node make_scrambler
    new_secret_from_key new_crypto make_nonce nonce_loop or_panic get_hash
expired_made = refl

order-without_expiry_example :
    ((order zero_time (with_node expired network)).active ≡ (order zero_time network).active)
    × ((order zero_time (with_node expired network)).hash ≡ (order zero_time network).hash)
unfolding find equal
order-without_expiry_example =
    order-without_expiry plain_key draw place zero_time without_expiry expired network expired_made
      refl (omega arith)

-- A table in memory.
abbrev same_key : Bytes → Bytes → Entity → Bool
same_key p r i = if equal p i.partition_key then equal r i.row_key else false

abbrev holds : Bytes → Bytes → List Entity → Bool
holds p r [] = false
holds p r (i ∷ is) = let rest = holds p r is in if same_key p r i then true else rest

abbrev table : TableOps (List Entity)
table = record {
  create = λ t. created t;
  query_entities = λ t. ok t;
  insert = λ t i. if holds i.partition_key i.row_key t then err library_error else ok (i ∷ t);
}

abbrev Held : Bytes → Bytes → List Entity → Type 0
Held p r t = holds p r t ≡ true

inserted : (t u : List Entity) (i : Entity) → table.insert t i ≡ ok u → i ∷ t ≡ u
inserted t u i e = elim (Bool-cases (holds i.partition_key i.row_key t)) [
  | inl held ↦ cc (rw held at e)
  | inr free ↦ ok_injective (rw free at e)
]

Held-cons : (p r : Bytes) (t : List Entity) (i : Entity) → Held p r t → Held p r (i ∷ t)
Held-cons p r t i held = elim (Bool-cases (same_key p r i)) [
  | inl here ↦ rw here refl
  | inr other ↦ rw other held
]

table-Documented : Documented table Held
table-Documented = record {
  insert-Held = λ t u i e.
      rw⁻¹ (inserted t u i e) (rw (equal_refl i.partition_key, equal_refl i.row_key) refl);
  Held-insert = λ t u i p r e held. rw⁻¹ (inserted t u i e) (Held-cons p r t i held);
  insert-refused = λ t i held. (library_error, rw held refl);
}

abbrev no_entities : Azure (List Entity)
no_entities = record { nodes_table = []; secrets_table = []; common = empty }

abbrev or_none : Result (Azure (List Entity)) → Azure (List Entity)
or_none (ok a) = a
or_none (err e) = no_entities

abbrev one_entity : Azure (List Entity)
one_entity = or_none (set_node table no_entities scrambling)

one_set : set_node table no_entities scrambling ≡ ok one_entity
unfolding set_node set_node_secrets properties_of get_scrambler_key
one_set = refl

set_node-never_again_example :
    (e : Error) × (set_node table one_entity (record scrambling { expires = 2000 }) ≡ err e)
unfolding set_all
set_node-never_again_example =
    set_node-never_again table Held table-Documented no_entities one_entity one_entity scrambling
      (record scrambling { expires = 2000 }) [] one_set refl refl refl
