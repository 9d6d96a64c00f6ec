-- ===== src/HandlerStore/NextNode.antt =====
-- Which node an operation is sent to.
use swift_go.Prelude.{
  ℕ, zero, suc, ◌-◌, ◌≤◌, ◌<◌, ◌≡◌, ◌≢◌, refl, arith, inl, inr, ◌⊎◌, true, false, none, some, ◌==◌,
  equal, get_elem?, Bool-cases, Option-cases,
}
use swift_go.Io.{Time}
use swift_go.Node.{Node, role_storage}
use swift_go.Nodes.{get_random_node}
use swift_go.Nodes.Random.{get_random_node-some, get_random_node-none}
use swift_go.Operation.{Operation}
use swift_go.HandlerStore.{World, is_candidate, try_random, choose_next}

module _ (now : Time) (o : Operation) (home : Node) where
  -- a node that the random choice may fall on: an active storage node that has started, is not this
  -- node, and does not have the home node's domain
  pub record IsCandidate (n : Node) : Type 0 where
    pub role : n.role ≡ role_storage
    pub other : n.address ≢ o.this_node.address
    pub away : equal n.domain home.domain ≡ false
    pub started : n.starts < now
    pub active : (k : ℕ) × (get_elem? o.network.active k ≡ some n)

  candidate :
      (n : Node)
      → is_candidate now o (some home) n ≡ true
      → ((k : ℕ) × (get_elem? o.network.active k ≡ some n))
      → IsCandidate n
  unfolding is_candidate
  candidate n h at = record {
    role = ground arith;
    other = ground arith;
    away = ground arith;
    started = ground arith;
    active = at;
  }

  is_candidate_of : (n : Node) → IsCandidate n → is_candidate now o (some home) n ≡ true
  unfolding is_candidate
  is_candidate_of n c = ground (arith, c.role, c.other, c.away, c.started)

  module _ (w : World) where
    try_random-some : (c : ℕ) (n : Node) → try_random w now o (some home) c ≡ some n → IsCandidate n
    unfolding try_random
    try_random-some zero n h = cc
    try_random-some (suc c) n h =
        elim (Option-cases
          (get_random_node (w.intn c) o.network (is_candidate now o (some home)))) [
            | inl missing ↦ try_random-some c n (ground arith)
            | inr (m, found) ↦
                let e : m ≡ n = ground arith in
                let (good, at) =
                  get_random_node-some (w.intn c) o.network (is_candidate now o (some home)) n
                    (ground arith) in
                candidate n good at
          ]

    try_random_finds :
        (fair : (c i : ℕ) → w.intn c i ≤ i) (c : ℕ) (n : Node)
        → IsCandidate n
        → try_random w now o (some home) (suc c) ≢ none
    unfolding try_random
    try_random_finds fair c n good h =
        elim (Option-cases
          (get_random_node (w.intn c) o.network (is_candidate now o (some home)))) [
            | inl missing ↦
                let refused =
                  get_random_node-none (w.intn c) o.network (is_candidate now o (some home))
                    (fair c) (good.active.0) n missing (good.active.1) in
                cc (refused, is_candidate_of n good)
            | inr (m, found) ↦ ground arith
          ]

    -- An operation that has a home node and no next node yet always gets one, which is the home
    -- node or a candidate: an active storage node that has started, is not this node, and does not
    -- have the home node's domain.
    pub choose_next_total :
        o.next_node ≡ none
        → (n : Node) × ((choose_next w now o (some home) ≡ some n) × ((n ≡ home) ⊎ IsCandidate n))
    unfolding choose_next
    choose_next_total unset = elim (Bool-cases (o.nodes_visited == o.node_count - 1)) [
      | inl last ↦ (home, (ground (arith, last), inl refl))
      | inr more ↦ elim (Option-cases (try_random w now o (some home) 10)) [
        | inl missing ↦ (home, (ground (arith, more, unset, missing), inl refl))
        | inr (n, found) ↦
            (n, (ground (arith, more, unset, found), inr (try_random-some 10 n found)))
      ]
    ]

    -- Unless this is the visit before the last, with an operation that has a home node and no next
    -- node yet and random numbers in range, the next node is a candidate whenever the network has
    -- one.
    pub choose_next_finds :
        (fair : (c i : ℕ) → w.intn c i ≤ i) (m : Node)
        → o.next_node ≡ none
        → o.nodes_visited ≢ o.node_count - 1
        → IsCandidate m
        → (n : Node) × ((choose_next w now o (some home) ≡ some n) × IsCandidate n)
    unfolding choose_next
    choose_next_finds fair m unset more good =
        elim (Option-cases (try_random w now o (some home) 10)) [
          | inl missing ↦ absurd (try_random_finds fair 9 m good missing)
          | inr (n, found) ↦ (n, (ground (arith, more, unset, found), try_random-some 10 n found))
        ]
