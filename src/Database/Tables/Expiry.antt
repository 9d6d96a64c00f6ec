-- ===== src/Database/Tables/Expiry.antt =====
-- A row of Azure without an expiry.
use mathlib.Core.Logic.{ite}
use mathlib.Core.List.{filter, filter-append}
use native.Mathlib.Decide.{dec_lt}
use swift_go.Prelude.{
  ℕ, ◌^◌, ◌-◌, ◌<◌, ◌≤◌, ◌≡◌, refl, arith, none, List, [], ◌∷◌, ◌++◌, append-nil, Result, ok,
  bind-eq-ok, ok_injective, Bytes, ap, sym, ◌∙◌,
}
use swift_go.Io.{Time, zero_time}
use swift_go.Node.{Node}
use swift_go.Node.Made.{new_node_made}
use swift_go.Nodes.{Nodes, order}
use swift_go.Stores.{find, with_node}
use swift_go.Database.{from_unix}
use swift_go.Database.Tables.{
  Entity, get_node_start_time, get_node_end_time, node_of_entity, expires_field, role_field,
  scrambler_key_field, cookie_domain_field, as_number, as_words,
}

none_kept {ℓ κ} :
    {A : Type ℓ} {P : Type κ} (x : A) (xs : List A) (d : Dec P)
    → ¬ P
    → xs ++ ite {C = List A} d (x ∷ []) [] ≡ xs
none_kept x xs (yes p) h = absurd (h p)
none_kept x xs (no k) h = append-nil xs

module _ (decode_key : Bytes → Result Bytes) (draw : ℕ → ℕ) (place : Bytes → ℕ) where
  node_of_entity-expires :
      (i : Entity) (n : Node)
      → node_of_entity decode_key draw place i ≡ ok n
      → find expires_field i.properties ≡ none
      → n.expires < zero_time
  unfolding node_of_entity get_node_end_time from_unix
  node_of_entity-expires i n made missing =
      let (starts, started, more) =
        bind-eq-ok (get_node_start_time i.properties i.time_stamp) _ made in
      let (expires, expired, more) = bind-eq-ok (get_node_end_time i.properties) _ more in
      let (role, is_role, more) = bind-eq-ok (as_number (find role_field i.properties)) _ more in
      let (key, is_key, more) =
        bind-eq-ok (as_words (find scrambler_key_field i.properties)) _ more in
      let (cookie_domain, is_domain, more) =
        bind-eq-ok (as_words (find cookie_domain_field i.properties)) _ more in
      let (o, nonce, scrambled, is) =
        new_node_made decode_key draw (place i.row_key) i.partition_key i.row_key i.time_stamp
          starts expires role key cookie_domain n more in
      let far : expires ≡ from_unix (2 ^ 63 - 1) 999_999_999 =
        sym (ok_injective (rw missing at expired)) in
      let its : n.expires ≡ expires = ap (λ (m : Node). m.expires) is in omega (arith, far, its)

  -- The node that `fetchNodes` makes of a row of Azure without an expiry is never active: at any time
  -- from year 1 on, `order` of a network with it gives the active nodes and the hashes that it gives
  -- without it. The latest time that `getNodeEndTime` asks for wraps around to one of the earliest.
  pub order-without_expiry :
      (now : Time) (i : Entity) (n : Node) (net : Nodes)
      → node_of_entity decode_key draw place i ≡ ok n
      → find expires_field i.properties ≡ none
      → zero_time ≤ now
      → ((order now (with_node n net)).active ≡ (order now net).active)
        × ((order now (with_node n net)).hash ≡ (order now net).hash)
  unfolding order with_node
  order-without_expiry now i n net made missing late =
      let past = node_of_entity-expires i n made missing in
      let same : filter (λ (m : Node). dec_lt now m.expires) (net.all ++ n ∷ [])
          ≡ filter (λ (m : Node). dec_lt now m.expires) net.all =
        filter-append (λ (m : Node). dec_lt now m.expires) net.all (n ∷ [])
        ∙ none_kept n _ (dec_lt now n.expires) (λ later. omega (arith, past, late, later)) in
      (rw same refl, rw same refl)
