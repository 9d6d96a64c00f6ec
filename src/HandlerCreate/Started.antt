-- ===== src/HandlerCreate/Started.antt =====
-- What holds of an operation that `Create` starts.
use mathlib.Core.Path.{subst}
use swift_go.Prelude.{
  All-append, ℕ, ◌<◌, ◌≤◌, ◌%◌, ◌≡◌, ◌≢◌, refl, sym, arith, ◌⊎◌, true, inl, inr, equal, eq_of_equal,
  Option, none, some, List, [], ◌∷◌, Result, ok, err, bind, All, Bytes, codes, length,
  if◌then◌else◌, Bool-cases,
}
use swift_go.Io.{Time}
use swift_go.Pair.{OperationPair, conflict_invalid}
use swift_go.Node.{Node, Gcm, Zlib, role_access}
use swift_go.Nodes.{Nodes, get_home_node}
use swift_go.Configuration.{Configuration}
use swift_go.Operation.{Operation, new_operation}
use swift_go.HandlerStore.{World, Url, get_next_url}
use swift_go.HandlerCreate.{
  Parsers, Values, value_of, reduced, set_count, set_access_node, validate_url, add_pairs,
  access_of, found_access, create_operation, create, is_empty_text, delete, checked_table,
  valid_pair, is_reserved, pairs_of, create_pair, checked_count,
}

-- what holds of the value, where there is one
record Ensures {ℓ κ} {B : Type ℓ} (P : B → Type κ) (r : Result B) : Type (ℓ ⊔ κ) where
  holds : (b : B) → r ≡ ok b → P b

bind-Ensures {ℓ κ} :
    {A B : Type ℓ} {P : B → Type κ} (x : Result A) {f : A → Result B}
    → ((a : A) → x ≡ ok a → Ensures P (f a))
    → Ensures P (bind x f)
bind-Ensures (ok a) h = h a refl
bind-Ensures {P = P} (err e) h = record { holds = λ b h. cc }

Ensures-ok {ℓ κ} : {B : Type ℓ} {P : B → Type κ} {b : B} → P b → Ensures P (ok b)
Ensures-ok {P = P} {b = b} h = record { holds = λ d e. let same : b ≡ d = cc e in subst P same h }

access_of_role : (found : Option Node) (a : Node) → access_of found ≡ ok a → a.role ≡ role_access
unfolding access_of
access_of_role none a e = cc
access_of_role (some b) a e = ground arith

access_of_found : (found : Option Node) (a : Node) → access_of found ≡ ok a → found ≡ some a
unfolding access_of
access_of_found none a e = cc
access_of_found (some b) a e = ground arith

found_access_lem :
    (a : Node) (found : Option Node) (d : Bytes)
    → found_access a found ≡ ok d
    → (n : Node) × (found ≡ some n) × (n.network ≡ a.network) × (d ≡ n.domain)
found_access_lem a none d e = cc
found_access_lem a (some n) d e = elim (Bool-cases (equal a.network n.network)) [
  | inl same ↦
      let is : n.domain ≡ d = cc (rw same at e) in
      (n, refl, sym (eq_of_equal a.network n.network same), sym is)
  | inr other ↦ let wrong = rw other at e in cc wrong
]

set_access_node_lem :
    (get_node : Bytes → Option Node) (form : Values) (a : Node) (d : Bytes)
    → set_access_node get_node form a ≡ ok d
    → (let v = value_of (codes "accessNode") form in
        ((is_empty_text v ≡ true) × (d ≡ a.domain))
        ⊎ ((n : Node) × (get_node v ≡ some n) × (n.network ≡ a.network) × (d ≡ n.domain)))
unfolding set_access_node
set_access_node_lem get_node form a d e =
    let v = value_of (codes "accessNode") form in
    elim (Bool-cases (is_empty_text v)) [
      | inl empty ↦ let is : a.domain ≡ d = cc (rw empty at e) in inl (empty, sym is)
      | inr given ↦ inr (found_access_lem a (get_node v) d (rw given at e))
    ]

checked_table_ne_nil : (t u : Bytes) → checked_table t ≡ ok u → u ≢ []
checked_table_ne_nil [] u e h = cc
checked_table_ne_nil (x ∷ t) u e h = cc

valid_pair-Ensures :
    (x : OperationPair) → Ensures (λ y. y.conflict ≢ conflict_invalid) (valid_pair x)
valid_pair-Ensures x = record { holds = λ b e. ground arith }

module _ (w : World) (p : Parsers Url) (c : Configuration) where
  set_count-Ensures :
      (ns : Nodes) (q : Values) → Ensures (λ n. n ≤ length ns.hash % 256) (set_count w p c ns q)
  unfolding set_count reduced
  set_count-Ensures ns q =
      let v = value_of (codes "nodeCount") q in
      bind-Ensures (if is_empty_text v then ok c.node_count else bind (p.parse_int v) checked_count)
        λ n e. Ensures-ok (ground arith)

  -- For a network whose storage nodes are a multiple of 256, the count of an operation is 0.
  set_count_wraps :
      (ns : Nodes) (q : Values) (n : ℕ)
      → length ns.hash % 256 ≡ 0
      → set_count w p c ns q ≡ ok n
      → n ≡ 0
  set_count_wraps ns q n h e = omega (arith, (set_count-Ensures ns q).holds n e)

  pairs_of-Ensures :
      (now : Time) (k : Bytes) (v : List Bytes)
      → Ensures (All (λ x. x.conflict ≢ conflict_invalid)) (pairs_of w p c now k v)
  pairs_of-Ensures now k [] = Ensures-ok tt
  pairs_of-Ensures now k (v ∷ vs) = elim (Bool-cases (is_reserved k)) [
    | inl reserved ↦ rw reserved (Ensures-ok tt)
    | inr free ↦ rw free (
        bind-Ensures (bind (create_pair p now k v) valid_pair) λ x e.
          Ensures-ok
            ((bind-Ensures (create_pair p now k v) λ y _. valid_pair-Ensures y).holds x e, tt))
  ]

  add_pairs-Ensures :
      (now : Time) (q : Values)
      → Ensures (All (λ x. x.conflict ≢ conflict_invalid)) (add_pairs w p c now q)
  unfolding add_pairs
  add_pairs-Ensures now [] = Ensures-ok tt
  add_pairs-Ensures now ((k, v) ∷ q) = bind-Ensures (pairs_of w p c now k v) λ xs ex.
      bind-Ensures (add_pairs w p c now q) λ ys ey. Ensures-ok (
        All-append _ xs ys ((pairs_of-Ensures now k v).holds xs ex)
          ((add_pairs-Ensures now q).holds ys ey))

  -- The access node: that of the request, where no other is named, or one of the same network that
  -- the store has under the name given.
  abbrev pub IsAccess : (Bytes → Option Node) → Values → Operation → Type 0
  IsAccess get_node form o =
      let v = value_of (codes "accessNode") form in
      ((is_empty_text v ≡ true) × (o.access_node ≡ o.this_node.domain))
      ⊎ ((n : Node) × (get_node v ≡ some n)
          × (n.network ≡ o.this_node.network)
          × (o.access_node ≡ n.domain))

  -- An operation as `Create` starts it.
  pub record IsStarted (get_node : Bytes → Option Node) (get_nodes : Bytes → Result Nodes)
      (host : Bytes) (form : Values) (o : Operation) : Type 0 where
    pub here : get_node host ≡ some o.this_node
    pub its_network : get_nodes o.this_node.network ≡ ok o.network
    pub access : IsAccess get_node form o
    pub count : o.node_count ≤ length o.network.hash
    pub byte : o.node_count < 256
    pub unvisited : o.nodes_visited ≡ 0
    pub at_access : o.this_node.role ≡ role_access
    pub no_prev : o.prev_node ≡ []
    pub home : (n : Node) × ((o.next_node ≡ some n) × (o.home_node ≡ n.domain))
    pub table : o.table ≢ []
    pub conflicts : All (λ x. x.conflict ≢ conflict_invalid) o.resolved

  create_operation-Ensures :
      (now : Time) (get_node : Bytes → Option Node) (get_nodes : Bytes → Result Nodes)
      (draw : ℕ → ℕ) (host : Bytes) (form : Values)
      → Ensures
          (IsStarted get_node get_nodes host form)
          (create_operation w p c now get_node get_nodes draw host form)
  unfolding create_operation new_operation
  create_operation-Ensures now get_node get_nodes draw host form =
      bind-Ensures (access_of (get_node host)) λ a ea. bind-Ensures (get_nodes a.network) λ ns en.
        bind-Ensures (set_access_node get_node form a) λ access ex.
          let q = delete (codes "accessNode") form in
          bind-Ensures (set_count w p c ns q) λ count ec.
            bind-Ensures (validate_url w p c (value_of (codes "returnUrl") q)) λ ru _.
              bind-Ensures (checked_table (value_of (codes "table") q)) λ table et.
                bind-Ensures (add_pairs w p c now q) λ resolved er.
                  bind-Ensures
                    (get_home_node draw ns (value_of (codes "X-Forwarded-For") q)
                      (value_of (codes "remoteAddr") q))
                    λ home _. Ensures-ok (record {
                      here = access_of_found (get_node host) a ea;
                      its_network = en;
                      access = set_access_node_lem get_node form a access ex;
                      count = ground (arith, (set_count-Ensures ns q).holds count ec);
                      byte = ground (arith, (set_count-Ensures ns q).holds count ec);
                      unvisited = refl;
                      at_access = access_of_role (get_node host) a ea;
                      no_prev = refl;
                      home = (home, (refl, refl));
                      table = checked_table_ne_nil (value_of (codes "table") q) table et;
                      conflicts = (add_pairs-Ensures now q).holds resolved er;
                    })

  -- An operation that `Create` starts is at the node of the request's host, which has the access
  -- role, and in the network of that node. Its access node is that node, or, where the form names
  -- one, a node of that name which the store has in the same network. It has no visits and no
  -- previous node, is to visit at most as many nodes as the network has storage nodes and
  -- fewer than 256, goes to its home node first, names a table, and has a conflict policy on every
  -- pair.
  pub create-IsStarted :
      (g : Gcm) (z : Zlib) (now : Time) (get_node : Bytes → Option Node)
      (get_nodes : Bytes → Result Nodes) (draw : ℕ → ℕ) (host : Bytes) (form : Values)
      (o : Operation) (u : Url)
      → create w p c g z now get_node get_nodes draw host form ≡ ok (o, u)
      → IsStarted get_node get_nodes host form o
  unfolding create
  create-IsStarted g z now get_node get_nodes draw host form o u e =
      (bind-Ensures {P = λ r. IsStarted get_node get_nodes host form r.0}
          (create_operation w p c now get_node get_nodes draw host form)
          (λ a ea. bind-Ensures (get_next_url w g z c a) λ v _.
            Ensures-ok
              ((create_operation-Ensures now get_node get_nodes draw host form).holds a ea))).holds
        (o, u) e
