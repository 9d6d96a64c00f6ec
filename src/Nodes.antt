-- ===== src/Nodes.antt =====
-- nodes.go: the nodes of a network, the choice of a home node by hash and of a random node.
pub mod Order
pub mod Home
pub mod Random
use mathlib.Core.List.{filter}
use native.Mathlib.Decide.{dec_lt, ℕ_discrete}
use swift_go.Prelude.{
  ℕ, zero, suc, ◌+◌, ◌-◌, ◌*◌, ◌/◌, ◌%◌, ◌^◌, Bool, ◌&&◌, ◌||◌, Option, none, some, List, [], ◌∷◌,
  Result, ok, err, no_home_node, ltb, leb, ◌==◌, if◌then◌else◌, Bytes, length, get_elem?, set,
  get_or, sort_by, bit_xor,
}
use swift_go.Io.{Time}
use swift_go.Node.{Node, role_storage}

-- `dict` maps domains to nodes; the last entry written for a domain is the first found.
pub record Nodes : Type 0 where
  pub all : List Node
  pub active : List Node
  pub hash : List Node
  pub dict : List (Bytes × Node)

unfoldable pub new_nodes : Nodes
new_nodes = record { all = []; active = []; hash = []; dict = [] }

-- `isActive` of the node, as a decision: `n.expires.After(now)`
unfoldable pub get_active_ordered : Time → List Node → List Node
get_active_ordered now all = sort_by (λ n. n.created) (filter (λ n. dec_lt now n.expires) all)

unfoldable pub get_hash_ordered : List Node → List Node
get_hash_ordered active =
    sort_by (λ n. n.hash) (filter (λ n. ℕ_discrete n.role role_storage) active)

unfoldable pub order : Time → Nodes → Nodes
unfolding get_active_ordered get_hash_ordered
order now ns =
    let active = get_active_ordered now ns.all in
    record ns { active = active; hash = get_hash_ordered active }

-- `indexes[i], indexes[j] = indexes[j], indexes[i]`, with both indexes in range
unfoldable pub swap : List ℕ → ℕ → ℕ → List ℕ
swap l i j = set (set l i (get_or l j 0)) j (get_or l i 0)

unfoldable pub count_up : ℕ → ℕ → List ℕ
count_up i zero = []
count_up i (suc k) = i ∷ count_up (suc i) k

-- the `k` rounds of the shuffle from round `i` on; `intn i` is what `rand.Intn(i + 1)` returns
unfoldable pub shuffle : (ℕ → ℕ) → ℕ → ℕ → List ℕ → List ℕ
shuffle intn i zero indexes = indexes
shuffle intn i (suc k) indexes = shuffle intn (suc i) k (swap indexes i (intn i))

-- `ns.active[indexes[i]]`
abbrev active_at : List Node → Option ℕ → Option Node
active_at active none = none
active_at active (some k) = get_elem? active k

unfoldable pub node_at_index : List Node → List ℕ → ℕ → Option Node
node_at_index active indexes i = active_at active (get_elem? indexes i)

abbrev node_if : (Node → Bool) → Option Node → Option Node → Option Node
node_if condition none rest = none
node_if condition (some n) rest = if condition n then some n else rest

-- the loop over the shuffled indexes, each of which is looked up in the indexes once more
unfoldable pub find_node : (Node → Bool) → List Node → List ℕ → List ℕ → Option Node
find_node condition active indexes [] = none
find_node condition active indexes (i ∷ rest) =
    let further = find_node condition active indexes rest in
    node_if condition (node_at_index active indexes i) further

-- `none` is nil
unfoldable pub get_random_node : (ℕ → ℕ) → Nodes → (Node → Bool) → Option Node
get_random_node intn ns condition =
    let n = length ns.active in
    let indexes = shuffle intn 0 n (count_up 0 n) in find_node condition ns.active indexes indexes

-- One look at a node: go right, go left, or stop.
abbrev compare_hash {ℓ} : {A : Type ℓ} → Option Node → ℕ → A → A → A → A → A
compare_hash none h right left found panic = panic
compare_hash (some n) h right left found panic =
    if ltb n.hash h then right else if ltb h n.hash then left else found

-- The loop of `getNodeIndexByHash` on fuel. `u` is one more than the variable of the source, which
-- is -1 on an empty list; `none` is an index out of range or the end of the fuel.
unfoldable pub index_loop : List Node → ℕ → ℕ → ℕ → ℕ → ℕ → Option ℕ
index_loop ns h zero l u m = none
index_loop ns h (suc f) l u m =
    let mid = (l + (u - 1)) / 2 in
    let right = index_loop ns h f (mid + 1) u mid in
    let left = index_loop ns h f l mid mid in
    let looked = compare_hash (get_elem? ns mid) h right left (some mid) none in
    if ltb l u then looked else some m

unfoldable pub get_node_index_by_hash : List Node → ℕ → Option ℕ
get_node_index_by_hash ns h = index_loop ns h (suc (length ns)) 0 (length ns) 0

-- `regexClientIP.FindString`: the first run of digits and dots, or non-empty text in brackets,
-- brackets included; the empty string where there is none.
abbrev is_address_char : ℕ → Bool
is_address_char c = (leb b'0' c && leb c b'9') || (c == b'.')

unfoldable pub address_run : Bytes → Bytes
address_run [] = []
address_run (c ∷ s) = let rest = address_run s in if is_address_char c then c ∷ rest else []

abbrev cons_some : ℕ → Option Bytes → Option Bytes
cons_some c none = none
cons_some c (some s) = some (c ∷ s)

-- what follows an opening bracket, up to the closing one
unfoldable pub up_to_bracket : Bytes → Option Bytes
up_to_bracket [] = none
up_to_bracket (c ∷ s) =
    let rest = cons_some c (up_to_bracket s) in if c == b']' then some (b']' ∷ []) else rest

abbrev bracketed : Option Bytes → Option Bytes
bracketed (some (c ∷ d ∷ s)) = some (b'[' ∷ c ∷ d ∷ s)
bracketed _ = none

abbrev or_else : Option Bytes → Bytes → Bytes
or_else none s = s
or_else (some t) s = t

unfoldable pub find_client_ip : Bytes → Bytes
unfolding address_run up_to_bracket
find_client_ip [] = []
find_client_ip (c ∷ s) =
    let rest = find_client_ip s in
    if is_address_char c
    then c ∷ address_run s
    else if c == b'['
    then or_else (bracketed (up_to_bracket s)) rest
    else rest

abbrev or_whole : Bytes → Bytes → Bytes
or_whole [] whole = whole
or_whole (c ∷ b) whole = c ∷ b

unfoldable pub get_remote_addr : Bytes → Bytes → Bytes
unfolding find_client_ip
get_remote_addr (c ∷ xff) ra = or_whole (find_client_ip (c ∷ xff)) (c ∷ xff)
get_remote_addr [] (c ∷ ra) = or_whole (find_client_ip (c ∷ ra)) (c ∷ ra)
get_remote_addr [] [] = []

-- `fnv.New64a` over the bytes
unfoldable pub fnv64a : ℕ → Bytes → ℕ
fnv64a sum [] = sum
fnv64a sum (x ∷ s) = fnv64a (bit_xor sum x * 1_099_511_628_211 % 2 ^ 64) s

abbrev fnv_offset : ℕ
fnv_offset = 14_695_981_039_346_656_037

abbrev node_or_error : Option Node → Result Node
node_or_error none = err no_home_node
node_or_error (some n) = ok n

-- `ns.hash[i]` behind the check of the index
abbrev node_at : List Node → Option ℕ → Result Node
node_at ns none = err no_home_node
node_at ns (some i) = node_or_error (get_elem? ns i)

-- `draw` is the first `Uint64` of a `rand.NewSource` with the given seed.
module _ (draw : ℕ → ℕ) where
  unfoldable pub get_hash : Bytes → ℕ
  unfolding fnv64a
  get_hash s = draw (fnv64a fnv_offset s)

  unfoldable pub get_remote_addr_hash : Bytes → Bytes → ℕ
  unfolding get_remote_addr
  get_remote_addr_hash xff ra =
      let d = get_remote_addr xff ra in if ltb 0 (length d) then get_hash d else 0

  unfoldable pub get_home_node : Nodes → Bytes → Bytes → Result Node
  get_home_node ns xff ra =
      node_at ns.hash (get_node_index_by_hash ns.hash (get_remote_addr_hash xff ra))
