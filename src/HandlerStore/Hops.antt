-- ===== src/HandlerStore/Hops.antt =====
-- The chain of nodes that an operation visits.
use swift_go.Prelude.{
  ℕ, suc, ◌+◌, ◌%◌, ◌≤◌, ◌<◌, ◌≡◌, refl, arith, ◌∙◌, Bytes, [], inl, inr, ◌&&◌, Option, none, some,
  ltb, Bool-cases, Option-cases, Result, ok, length, bind-eq-ok, ok_injective, ap, sym,
}
use swift_go.Io.{Time}
use swift_go.Node.{Node, Gcm, Zlib, nonce_size, encode}
use swift_go.Nodes.{Nodes}
use swift_go.Operation.RoundTrip.{IsWritable, arrived}
use swift_go.Operation.Arrival.{new_operation_from_request, resolve_cookies}
use swift_go.Operation.Transport.{new_operation_from_string-encode}
use swift_go.Configuration.{Configuration}
use swift_go.Operation.{Operation, new_operation, as_byte_array, is_time_stamp_valid}
use swift_go.HandlerStore.{
  World, to_continue, choose_next, next_action, with_next_node, with_prev_node, prev_node_of,
  home_node_of,
}

with_prev_node-same :
    (p : Option Node) (o : Operation)
    → ((with_prev_node p o).nodes_visited ≡ o.nodes_visited)
      × ((with_prev_node p o).node_count ≡ o.node_count)
      × ((with_prev_node p o).next_node ≡ o.next_node)
unfolding with_prev_node
with_prev_node-same none o = (refl, refl, refl)
with_prev_node-same (some p) o = (refl, refl, refl)

with_prev_node-nil :
    (get_node : Bytes → Option Node) (o : Operation)
    → o.prev_node ≡ []
    → (with_prev_node (prev_node_of get_node o) o).prev_node ≡ []
unfolding with_prev_node prev_node_of
with_prev_node-nil get_node o h = ground (arith, h)

-- A node counts its own visit to what it is sent, and keeps the count and the previous node.
arrival :
    (g : Gcm) (z : Zlib) (m : Node) (mid next : Operation) (nonce : Bytes) (later : Time)
    (table : Result Bytes) (network : Nodes) (cookie : Bytes → Option (Result Bytes))
    → length nonce ≡ nonce_size
    → IsWritable mid
    → new_operation_from_request g z later m
        (encode g z (ok nonce) m (as_byte_array mid))
        table
        network
        cookie
      ≡ ok next
    → (next.nodes_visited ≡ suc mid.nodes_visited % 256)
      × (next.node_count ≡ mid.node_count)
      × (next.prev_node ≡ mid.prev_node)
unfolding new_operation_from_request new_operation
arrival g z m mid next nonce later table network cookie size fits made =
    let a = arrived (new_operation later m) mid in
    let after = rw (new_operation_from_string-encode g z m nonce later mid size fits) at made in
    let (t, _, resolving) = bind-eq-ok table _ after in
    let (r, _, last) = bind-eq-ok (resolve_cookies g z later m cookie a.pairs) _ resolving in
    (
      ap (λ (n : Operation). n.nodes_visited) (sym (ok_injective last)),
      ap (λ (n : Operation). n.node_count) (sym (ok_injective last)),
      ap (λ (n : Operation). n.prev_node) (sym (ok_injective last)),
    )

module _ (w : World) (g : Gcm) (z : Zlib) (c : Configuration) where
  -- what the handler makes of an arrived operation before it acts
  abbrev pub behind_choice : Time → (Bytes → Option Node) → Operation → Option Operation
  behind_choice now get_node o =
      let o' = with_prev_node (prev_node_of get_node o) o in
      with_next_node w c now (home_node_of get_node o') o'

  -- The handler at `o`, with some clock and store, goes on with `mid`, which its format can hold. Its
  -- next node `m` is sent `mid`, encrypted with some nonce, and makes `next` of it, with its own clock,
  -- table, network and cookies.
  pub data Hop : Operation → Operation → Type 0 where
    hop :
        (now : Time) (get_node : Bytes → Option Node) (o mid next : Operation) (m : Node)
        (nonce : Bytes) (later : Time) (table : Result Bytes) (network : Nodes)
        (cookie : Bytes → Option (Result Bytes))
        → o.next_node ≡ none
        → behind_choice now get_node o ≡ some mid
        → next_action c now mid ≡ to_continue
        → mid.next_node ≡ some m
        → length nonce ≡ nonce_size
        → IsWritable mid
        → new_operation_from_request g z later m
            (encode g z (ok nonce) m (as_byte_array mid))
            table
            network
            cookie
          ≡ ok next
        → Hop o next

  -- a chain of the given number of hops
  pub data Hops : ℕ → Operation → Operation → Type 0 where
    stay : (o : Operation) → Hops 0 o o
    more : (k : ℕ) (o mid next : Operation) → Hop o mid → Hops k mid next → Hops (suc k) o next

  -- Where the handler goes on, the operation had visits left, and neither counter has changed.
  continues :
      (now : Time) (home : Option Node) (o mid : Operation)
      → o.next_node ≡ none
      → with_next_node w c now home o ≡ some mid
      → next_action c now mid ≡ to_continue
      → (o.nodes_visited < o.node_count)
        × (mid.nodes_visited ≡ o.nodes_visited)
        × (mid.node_count ≡ o.node_count)
        × (mid.prev_node ≡ o.prev_node)
  unfolding with_next_node next_action
  continues now home o mid unset chosen action =
      elim (Bool-cases (ltb o.nodes_visited o.node_count && is_time_stamp_valid c now o)) [
        | inl going ↦ elim (Option-cases (choose_next w now o home)) [
          | inl missing ↦ ground arith
          | inr (n, found) ↦ (ground arith, ground arith, ground arith, ground arith)
        ]
        | inr over ↦ ground arith
      ]

  Hop-step :
      {o next : Operation}
      → Hop o next
      → o.node_count < 256
      → (o.nodes_visited < o.node_count)
        × (next.nodes_visited ≡ suc o.nodes_visited)
        × (next.node_count ≡ o.node_count)
  Hop-step
        (hop now get_node o mid next m nonce later table network cookie unset chosen action sent
          size fits made)
        small =
      let prior = prev_node_of get_node o in
      let o' = with_prev_node prior o in
      let (v, n, x) = with_prev_node-same prior o in
      let (below, same, kept, _) =
        continues now (home_node_of get_node o') o' mid (x ∙ unset) chosen action in
      let (visited, count, _) =
        arrival g z m mid next nonce later table network cookie size fits made in
      (omega arith, omega arith, omega arith)

  -- From an operation whose node count is a byte and whose visits are at most that count, a chain of
  -- `k` hops, each of which fits the format, is encrypted for the next node and read there, adds `k`
  -- visits, ends within the node count, and keeps that count: the counter never wraps around,
  -- whatever the clocks, stores and cookies of the nodes.
  pub Hops-bounded :
      (k : ℕ) {o next : Operation}
      → Hops k o next
      → o.node_count < 256
      → o.nodes_visited ≤ o.node_count
      → (next.nodes_visited ≡ o.nodes_visited + k)
        × (next.nodes_visited ≤ o.node_count)
        × (next.node_count ≡ o.node_count)
  Hops-bounded _ (stay o) small start = (omega arith, start, refl)
  Hops-bounded _ (more k o mid next h rest) small start =
      let (below, visited, count) = Hop-step h small in
      let (a, b, d) = Hops-bounded k rest (omega arith) (omega arith) in
      (omega arith, omega arith, omega arith)

  Hop-prev_node : {o next : Operation} → Hop o next → o.prev_node ≡ [] → next.prev_node ≡ []
  Hop-prev_node
        (hop now get_node o mid next m nonce later table network cookie unset chosen action sent
          size fits made)
        h =
      let prior = prev_node_of get_node o in
      let o' = with_prev_node prior o in
      let (v, n, x) = with_prev_node-same prior o in
      let (_, _, _, same) =
        continues now (home_node_of get_node o') o' mid (x ∙ unset) chosen action in
      let (_, _, prev) = arrival g z m mid next nonce later table network cookie size fits made in
      prev ∙ same ∙ with_prev_node-nil get_node o h

  -- An operation that starts without a previous node has none after any number of hops, each of which
  -- fits the format and is read at the next node.
  pub Hops-prev_node :
      (k : ℕ) {o next : Operation} → Hops k o next → o.prev_node ≡ [] → next.prev_node ≡ []
  Hops-prev_node _ (stay o) h = h
  Hops-prev_node _ (more k o mid next first rest) h = Hops-prev_node k rest (Hop-prev_node first h)
