-- ===== src/Manager/Sharing.antt =====
-- storageManager.go: the nodes of a store that share, and the nodes that such a node knows.
use swift_go.Prelude.{
  ℕ, suc, Bool, true, false, Option, none, some, List, [], ◌∷◌, Result, ok, err, Error,
  runtime_panic, is_panic, bind, ◌==◌, if◌then◌else◌, Bytes,
}
use swift_go.Io.{zero_time}
use swift_go.Node.{Node, Gcm, Zlib, role_share, role_storage, decode}
use swift_go.Node.Json.{Json, null, TimeText, unmarshal_node}
use swift_go.Manager.{StoreOps}

-- What the code calls and is not in the repository: the GET of the share endpoint of a scheme and a
-- host, the reading of a JSON array, where the allocator puts the node with a number in an array,
-- `fmt.Sprint` of an integer, base64.RawURLEncoding, the format of times, and the draw of `getHash`.
pub record Remote : Type 0 where
  pub get_share : Bytes → Bytes → Result Bytes
  pub array_of : Bytes → Result (List Json)
  pub place : ℕ → ℕ
  pub print_int : ℕ → Bytes
  pub decode_key : Bytes → Result Bytes
  pub form : TimeText
  pub draw : ℕ → ℕ

-- the node of a zero value at an address
abbrev pub zero_node : ℕ → Node
zero_node address = record {
  address = address;
  network = [];
  domain = [];
  hash = 0;
  created = zero_time;
  starts = zero_time;
  expires = zero_time;
  role = 0;
  secrets = [];
  scrambler = none;
  nonce = [];
  accessed = zero_time;
  alive = false;
  cookie_domain = [];
}

-- the callback of `getSharingNodesFromStore`
unfoldable pub sharing_of : List Node → List Node
sharing_of [] = []
sharing_of (n ∷ ns) = let rest = sharing_of ns in if n.role == role_share then n ∷ rest else rest

-- The caller logs the error, and goes on with no nodes.
abbrev sharing_or_none : Result (List Node) → List Node
sharing_or_none (ok ns) = sharing_of ns
sharing_or_none (err e) = []

unfoldable pub get_sharing_nodes_from_store : {S : Type 0} → StoreOps S → S → List Node
unfolding sharing_of
get_sharing_nodes_from_store ops s = sharing_or_none (ops.nodes_of s)

-- An error is kept while the further elements are read, and a panic ends the reading.
abbrev pub kept_error : Error → Result (List (Option Node)) → Result (List (Option Node))
kept_error e (ok ns) = err e
kept_error e (err further) =
    if is_panic e then err e else if is_panic further then err further else err e

abbrev pub add_element :
    Result (Option Node) → Result (List (Option Node)) → Result (List (Option Node))
add_element (ok n) rest = bind rest λ ns. ok (n ∷ ns)
add_element (err e) rest = kept_error e rest

abbrev some_node : Result Node → Result (Option Node)
some_node r = bind r λ n. ok (some n)

-- `sn.role == roleStorage` up to the first storage node, where a nil node panics; the nodes of a
-- store in memory, which is made where there is a storage node, must not be nil either.
unfoldable pub present : List (Option Node) → Result (List Node)
present [] = ok []
present (none ∷ ns) = err runtime_panic
present (some n ∷ ns) = let rest = present ns in bind rest λ more. ok (n ∷ more)

unfoldable pub has_storage : List Node → Bool
has_storage [] = false
has_storage (n ∷ ns) = let rest = has_storage ns in if n.role == role_storage then true else rest

-- the nodes that are left of an error, which the caller logs; a panic ends the caller
abbrev pub or_logged : {A : Type 0} → Result (List A) → Result (List A)
or_logged (ok ns) = ok ns
or_logged (err e) = if is_panic e then err e else ok []

module _ (x : Remote) (g : Gcm) (z : Zlib) where
  abbrev element : ℕ → Json → Result (Option Node)
  element k null = ok none
  element k j = some_node (unmarshal_node x.form x.decode_key x.draw (zero_node (x.place k)) j)

  -- `json.Unmarshal` into a slice of nodes, from the element with the number `k` on
  unfoldable pub elements : ℕ → List Json → Result (List (Option Node))
  elements k [] = ok []
  elements k (j ∷ js) = let rest = elements (suc k) js in add_element (element k j) rest

  unfoldable pub get_nodes_from_byte_array : Bytes → Result (List (Option Node))
  unfolding elements
  get_nodes_from_byte_array b = bind (x.array_of b) (elements 0)

  unfoldable pub call_share : Node → Bytes → Result Bytes
  call_share n scheme = bind (x.get_share scheme n.domain) (decode g z n)

  -- An error of `callShare` leaves a nil slice, which is no JSON.
  unfoldable pub shared_nodes : Bytes → Node → Result (List Node)
  unfolding get_nodes_from_byte_array call_share present
  shared_nodes scheme n =
      bind (or_logged (bind (call_share n scheme) get_nodes_from_byte_array)) present
