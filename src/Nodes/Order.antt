-- ===== src/Nodes/Order.antt =====
-- `order` keeps the active nodes and among them the storage nodes, and sorts both.
use mathlib.Core.List.{Perm, filter}
use mathlib.Core.List.Perm
use native.Mathlib.Decide.{dec_lt, ℕ_discrete}
use swift_go.Prelude.{IsOrdered, sort_by-perm, sort_by-IsOrdered}
use swift_go.Io.{Time}
use swift_go.Node.{role_storage}
use swift_go.Nodes.{Nodes, order}

-- After `order` the active nodes are those of all the nodes that have not expired, oldest first,
-- and the hash list holds the storage nodes among them, by ascending hash. Neither list gains or
-- loses a node otherwise.
pub order_lem :
    (now : Time) (ns : Nodes)
    → Perm (order now ns).active (filter (λ n. dec_lt now n.expires) ns.all)
      × IsOrdered (λ n. n.created) (order now ns).active
      × Perm
          (order now ns).hash
          (filter (λ n. ℕ_discrete n.role role_storage) (filter (λ n. dec_lt now n.expires) ns.all))
      × IsOrdered (λ n. n.hash) (order now ns).hash
unfolding order
order_lem now ns =
    let live = filter (λ n. dec_lt now n.expires) ns.all in
    let active = sort_by-perm (λ n. n.created) live in
    (
      active,
      sort_by-IsOrdered (λ n. n.created) live,
      Perm.trans (sort_by-perm (λ n. n.hash) _)
          (Perm.filter (λ n. ℕ_discrete n.role role_storage) active),
      sort_by-IsOrdered (λ n. n.hash) _,
    )
