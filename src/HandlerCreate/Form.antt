-- ===== src/HandlerCreate/Form.antt =====
-- handlerCreate.go: `Create`, from the node of the host to the first URL.
use swift_go.Prelude.{
  ℕ, ℤ, pos, negsuc, ◌%◌, Bool, true, false, ◌||◌, ◌&&◌, not, Option, none, some, List, [], ◌∷◌,
  ◌++◌, Result, ok, err, bind, ltb, ◌==◌, if◌then◌else◌, Bytes, codes, length, equal, not_a_node,
  not_an_access_node, unknown_access_node, other_network, count_not_positive, count_too_large,
  url_missing, scheme_absent, host_absent, table_missing, invalid_conflict,
}
use swift_go.Io.{Time}
use swift_go.Html.{
  Html, set_post_message_on_complete, set_display_user_interface, set_use_home_node,
  set_java_script,
}
use swift_go.Pair.{OperationPair, conflict_invalid}
use swift_go.Node.{Node, Gcm, Zlib, role_access}
use swift_go.Nodes.{Nodes, get_home_node}
use swift_go.Configuration.{Configuration}
use swift_go.Operation.{Operation, new_operation}
use swift_go.HandlerStore.{World, Url, get_next_url}
use swift_go.HandlerCreate.Pairs.{Parsers, create_pair}

-- `url.Values`, in the order in which a `range` over the map runs; a key stands in it once.
abbrev pub Values : Type 0
Values = List (Bytes × List Bytes)

-- `q[key]`
unfoldable pub values_of : Bytes → Values → List Bytes
values_of key [] = []
values_of key ((k, v) ∷ q) = let rest = values_of key q in if equal k key then v else rest

abbrev first_or_empty : List Bytes → Bytes
first_or_empty [] = []
first_or_empty (v ∷ vs) = v

-- `q.Get(key)`
unfoldable pub value_of : Bytes → Values → Bytes
unfolding values_of
value_of key q = first_or_empty (values_of key q)

-- `q.Del(key)`
unfoldable pub delete : Bytes → Values → Values
delete key [] = []
delete key ((k, v) ∷ q) = let rest = delete key q in if equal k key then rest else (k, v) ∷ rest

abbrev pub is_empty_text : Bytes → Bool
is_empty_text [] = true
is_empty_text (x ∷ s) = false

-- a parameter, or the default where it is missing or empty
abbrev or_default : Bytes → Bytes → Bytes
or_default v d = if is_empty_text v then d else v

unfoldable pub is_reserved : Bytes → Bool
is_reserved s =
    equal s (codes "title")
    || equal s (codes "message")
    || equal s (codes "returnUrl")
    || equal s (codes "progressColor")
    || equal s (codes "messageColor")
    || equal s (codes "backgroundColor")
    || equal s (codes "table")
    || equal s (codes "X-Forwarded-For")
    || equal s (codes "remoteAddr")
    || equal s (codes "nodeCount")
    || equal s (codes "state")
    || equal s (codes "displayUserInterface")
    || equal s (codes "postMessageOnComplete")
    || equal s (codes "useHomeNode")
    || equal s (codes "javaScript")

abbrev pub found_access : Node → Option Node → Result Bytes
found_access a none = err unknown_access_node
found_access a (some n) = if equal a.network n.network then ok n.domain else err other_network

-- the domain of the access node; the parameter is deleted by the caller
unfoldable pub set_access_node : (Bytes → Option Node) → Values → Node → Result Bytes
unfolding value_of
set_access_node get_node q a =
    let v = value_of (codes "accessNode") q in
    if is_empty_text v then ok a.domain else found_access a (get_node v)

unfoldable pub reduced : ℕ → Nodes → ℕ
reduced count ns = if ltb (length ns.hash % 256) count then length ns.hash % 256 else count

abbrev pub checked_count : ℤ → Result ℕ
checked_count (negsuc n) = err count_not_positive
checked_count (pos n) =
    if n == 0 then err count_not_positive else if ltb n 255 then ok n else err count_too_large

-- `a.role != roleAccess` and the missing node
unfoldable pub access_of : Option Node → Result Node
access_of none = err not_a_node
access_of (some a) = if a.role == role_access then ok a else err not_an_access_node

abbrev pub checked_table : Bytes → Result Bytes
checked_table t = if is_empty_text t then err table_missing else ok t

abbrev pub valid_pair : OperationPair → Result OperationPair
valid_pair x = if x.conflict == conflict_invalid then err invalid_conflict else ok x

module _ (w : World) (p : Parsers Url) (c : Configuration) where
  -- The number of storage nodes of the network is cut to a byte.
  unfoldable pub set_count : Nodes → Values → Result ℕ
  unfolding reduced value_of
  set_count ns q =
      let v = value_of (codes "nodeCount") q in
      bind (if is_empty_text v then ok c.node_count else bind (p.parse_int v) checked_count)
        λ n. ok (reduced n ns)

  abbrev checked_url : Url → Result Url
  checked_url u =
      if is_empty_text u.scheme
      then err scheme_absent
      else if (equal u.scheme (codes "http") || equal u.scheme (codes "https"))
          && is_empty_text u.host
      then err host_absent
      else ok u

  unfoldable pub validate_url : Bytes → Result Url
  validate_url v = if is_empty_text v then err url_missing else bind (w.parse_url v) checked_url

  unfoldable pub html_of : Values → Html
  unfolding value_of
  html_of q =
      let text = λ (k : Bytes) (d : Bytes). or_default (value_of k q) d in
      let flag = λ (k : Bytes) (v : Bytes). equal (value_of k q) v in
      set_java_script (flag (codes "javaScript") (codes "true")) (
        set_use_home_node (not (flag (codes "useHomeNode") (codes "false"))) (
          set_display_user_interface (not (flag (codes "displayUserInterface") (codes "false"))) (
            set_post_message_on_complete (flag (codes "postMessageOnComplete") (codes "true"))
              (record {
                title = text (codes "title") c.title;
                message = text (codes "message") c.message;
                background_color = text (codes "backgroundColor") c.background_color;
                message_color = text (codes "messageColor") c.message_color;
                progress_color = text (codes "progressColor") c.progress_color;
                flags = 0;
              }))))

  -- the pairs of one key of the form
  abbrev pub pairs_of : Time → Bytes → List Bytes → Result (List OperationPair)
  pairs_of now k [] = ok []
  pairs_of now k (v ∷ vs) =
      if is_reserved k
      then ok []
      else bind (bind (create_pair p now k v) valid_pair) λ x. ok (x ∷ [])

  -- the loop over the form
  unfoldable pub add_pairs : Time → Values → Result (List OperationPair)
  unfolding is_reserved
  add_pairs now [] = ok []
  add_pairs now ((k, v) ∷ q) =
      let rest = add_pairs now q in bind (pairs_of now k v) λ xs. bind rest λ ys. ok (xs ++ ys)

  -- The operation up to its home node. `draw` is that of `get_hash`. The store has a network for
  -- every node that it has, so a nil network is not modelled.
  unfoldable pub create_operation :
      Time
      → (Bytes → Option Node)
      → (Bytes → Result Nodes)
      → (ℕ → ℕ)
      → Bytes
      → Values
      → Result Operation
  unfolding set_count
  create_operation now get_node get_nodes draw host form = bind (access_of (get_node host)) λ a.
      bind (get_nodes a.network) λ ns. bind (set_access_node get_node form a) λ access.
        let q = delete (codes "accessNode") form in
        bind (set_count ns q) λ count. bind (validate_url (value_of (codes "returnUrl") q)) λ ru.
          bind (checked_table (value_of (codes "table") q)) λ table.
            bind (add_pairs now q) λ resolved.
              bind
                (get_home_node draw ns (value_of (codes "X-Forwarded-For") q)
                  (value_of (codes "remoteAddr") q))
                λ home. ok (record (new_operation now a) {
                  network = ns;
                  access_node = access;
                  state = values_of (codes "state") q;
                  node_count = count;
                  html = html_of q;
                  return_url = p.url_string ru;
                  table = table;
                  resolved = resolved;
                  next_node = some home;
                  home_node = home.domain;
                })

  -- `Create`, with the operation whose URL it is
  unfoldable pub create :
      Gcm
      → Zlib
      → Time
      → (Bytes → Option Node)
      → (Bytes → Result Nodes)
      → (ℕ → ℕ)
      → Bytes
      → Values
      → Result (Operation × Url)
  create g z now get_node get_nodes draw host form =
      bind (create_operation now get_node get_nodes draw host form)
        λ o. bind (get_next_url w g z c o) λ u. ok (o, u)
