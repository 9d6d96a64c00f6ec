-- ===== src/HandlerStore/Choice.antt =====
-- handlerStore.go and operation.go: the home node, the previous node, the choice of the next node, and
-- what the handler does with it. The clock is read once for a request. `none` for a home node is the
-- panic of `o.network.active[0]` on a network without active nodes.
use swift_go.Prelude.{
  ℕ, zero, suc, ◌-◌, Bool, true, false, ◌&&◌, not, Option, none, some, List, [], ◌∷◌, ltb, ◌==◌,
  if◌then◌else◌, Bytes, length, equal,
}
use swift_go.Io.{Time, before}
use swift_go.Html.{use_home_node}
use swift_go.Node.{Node, role_storage}
use swift_go.Nodes.{get_random_node}
use swift_go.Configuration.{Configuration}
use swift_go.Operation.{Operation, is_time_stamp_valid, done, get_cookies_valid}
use swift_go.HandlerStore.Environment.{World}

first_node : List Node → Option Node
first_node [] = none
first_node (n ∷ rest) = some n

abbrev or_first : Option Node → List Node → Option Node
or_first none active = first_node active
or_first (some n) active = some n

-- `HomeNode()`; `get_node` is that of the store.
unfoldable pub home_node_of : (Bytes → Option Node) → Operation → Option Node
unfolding first_node
home_node_of get_node o =
    or_first (if ltb 0 (length o.home_node) then get_node o.home_node else none) o.network.active

-- `PrevNode()`
unfoldable pub prev_node_of : (Bytes → Option Node) → Operation → Option Node
prev_node_of get_node o = if ltb 0 (length o.prev_node) then get_node o.prev_node else none

-- The previous node, marked as alive, where there is one.
unfoldable pub touched : Time → Option Node → Option Node
touched now none = none
touched now (some p) = some (record p { accessed = now; alive = true })

-- With a previous node the operation names this one as the previous node of the next.
unfoldable pub with_prev_node : Option Node → Operation → Operation
with_prev_node none o = o
with_prev_node (some p) o = record o { prev_node = o.this_node.domain }

-- the condition of the random node
unfoldable pub is_candidate : Time → Operation → Option Node → Node → Bool
is_candidate now o none i = false
is_candidate now o (some home) i =
    (i.role == role_storage)
    && not (i.address == o.this_node.address)
    && not (equal i.domain home.domain)
    && before i.starts now

abbrev or_try : Option Node → Option Node → Option Node
or_try none later = later
or_try (some n) later = some n

module _ (w : World) (now : Time) where
  -- the loop of at most `c` tries
  unfoldable pub try_random : Operation → Option Node → ℕ → Option Node
  try_random o home zero = none
  try_random o home (suc c) =
      or_try (get_random_node (w.intn c) o.network (is_candidate now o home)) (try_random o home c)

  -- The choice of the next node behind the test of the count and the time.
  unfoldable pub choose_next : Operation → Option Node → Option Node
  choose_next o home =
      or_try (if o.nodes_visited == o.node_count - 1 then home else o.next_node)
        (or_try (try_random o home 10) home)

-- Where the choice gives no node, the home node is missing, and the source has panicked.
abbrev pub with_choice : Operation → Option Node → Option Operation
with_choice o none = none
with_choice o (some n) = some (record o { next_node = some n })

-- the operation behind the choice of the next node
unfoldable pub with_next_node :
    World → Configuration → Time → Option Node → Operation → Option Operation
with_next_node w c now home o =
    if ltb o.nodes_visited o.node_count && is_time_stamp_valid c now o
    then with_choice o (choose_next w now o home)
    else some o

pub data Action : Type 0 where
  to_complete to_done to_continue : Action

-- the branches of the handler behind the choice of the next node
unfoldable pub next_action : Configuration → Time → Operation → Action
next_action c now o = elim o.next_node [
  | none ↦ to_done
  | some n ↦
      if (o.nodes_visited == 1) && use_home_node o.html && get_cookies_valid c now now o
      then to_complete
      else if done o
      then to_done
      else to_continue
]
