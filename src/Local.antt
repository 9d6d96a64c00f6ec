-- ===== src/Local.antt =====
-- local.go: the store that keeps its nodes in memory and, as JSON, in a file.
pub mod Kept
pub mod Unknown
use swift_go.Prelude.{
  ℕ, zero, suc, ◌≢◌, Option, none, some, [], ◌∷◌, Result, ok, err, Error, bind, runtime_panic,
  library_error, is_panic, if◌then◌else◌, Bytes,
}
use swift_go.Io.{Time}
use swift_go.Node.{Node}
use swift_go.Nodes.{Nodes}
use swift_go.Node.Json.{
  Json, null, Fields, no_fields, field, object, TimeText, marshal_node, unmarshal_node,
}
use swift_go.Manager.Sharing.{zero_node}
use swift_go.Stores.{Map, Common, find, put, order_all, with_node, or_new}

-- What the code calls and is not in the repository: encoding/json, which writes no empty text, the
-- format of times, base64.RawURLEncoding, the draw of `getHash`, and where the allocator puts the node
-- with a key.
pub record Files : Type 0 where
  pub print : Json → Bytes
  pub read : Bytes → Result Json
  pub print-ne-nil : (j : Json) → print j ≢ []
  pub form : TimeText
  pub decode_key : Bytes → Result Bytes
  pub draw : ℕ → ℕ
  pub place : Bytes → ℕ

-- The store, and what is in its file; `none` where there is no file.
pub record Local : Type 0 where
  pub file : Option Bytes
  pub common : Common

-- An error of one value is kept while the others are read, and a panic ends the reading.
abbrev pub keep_error : Error → Result (Map (Option Node)) → Result (Map (Option Node))
keep_error e (ok m) = err e
keep_error e (err further) =
    if is_panic e then err e else if is_panic further then err further else err e

abbrev pub add_value :
    Bytes → Result (Option Node) → Result (Map (Option Node)) → Result (Map (Option Node))
add_value k (ok n) rest = bind rest λ m. ok ((k, n) ∷ m)
add_value k (err e) rest = keep_error e rest

abbrev pub some_node : Result Node → Result (Option Node)
some_node r = bind r λ n. ok (some n)

-- a nil node in the map is a nil pointer in `refresh`
unfoldable pub present_nodes : Map (Option Node) → Result (Map Node)
present_nodes [] = ok []
present_nodes ((k, none) ∷ m) = err runtime_panic
present_nodes ((k, some n) ∷ m) = let rest = present_nodes m in bind rest λ ns. ok ((k, n) ∷ ns)

-- the first loop of `refresh`
unfoldable pub networks_of : Map Node → Map Nodes → Map Nodes
unfolding with_node put find
networks_of [] nets = nets
networks_of ((k, n) ∷ ns) nets =
    networks_of ns (put n.network (with_node n (or_new (find n.network nets))) nets)

module _ (x : Files) where
  -- the value of a key in a map of pointers to nodes
  unfoldable pub value_at : Bytes → Json → Result (Option Node)
  value_at k null = ok none
  value_at k j = some_node (unmarshal_node x.form x.decode_key x.draw (zero_node (x.place k)) j)

  unfoldable pub unmarshal_map : Fields → Result (Map (Option Node))
  unfolding value_at
  unmarshal_map no_fields = ok []
  unmarshal_map (field k j fs) = let rest = unmarshal_map fs in add_value k (value_at k j) rest

  abbrev pub nodes_of_json : Json → Result (Map (Option Node))
  nodes_of_json (object fs) = unmarshal_map fs
  nodes_of_json null = ok []
  nodes_of_json _ = err library_error

  -- the nodes in the text of a file; an empty file has none
  unfoldable pub nodes_of_text : Bytes → Result (Map (Option Node))
  unfolding unmarshal_map
  nodes_of_text [] = ok []
  nodes_of_text (c ∷ b) = bind (x.read (c ∷ b)) nodes_of_json

  abbrev pub text_of : Option Bytes → Bytes
  text_of none = []
  text_of (some b) = b

  -- `refresh`, which makes the file where it is missing
  unfoldable pub refresh : Time → Local → Result Local
  unfolding nodes_of_text present_nodes networks_of
  refresh now l = bind (bind (nodes_of_text (text_of l.file)) present_nodes) λ ns. ok (record {
    file = some (text_of l.file);
    common = record { nodes = ns; networks = order_all now (networks_of ns []) };
  })

  unfoldable pub new_local_store : Time → Option Bytes → Result Local
  unfolding refresh
  new_local_store now file =
      refresh now (record { file = file; common = record { nodes = []; networks = [] } })

  abbrev node_or_refreshed :
      Option Node → Local → Result (Option Node × Local) → Result (Option Node × Local)
  node_or_refreshed none l rest = rest
  node_or_refreshed (some n) l rest = ok (some n, l)

  unfoldable pub get_node : Time → Bytes → Local → Result (Option Node × Local)
  unfolding refresh find
  get_node now domain l =
      node_or_refreshed (find domain l.common.nodes) l
        (bind (refresh now l) λ l'. ok (find domain l'.common.nodes, l'))

  abbrev pub and_then :
      Result Local
      → (Local → Option (Result (Option Nodes × Local)))
      → Option (Result (Option Nodes × Local))
  and_then (ok l) next = next l
  and_then (err e) next = some (err e)

  -- `getNodes` calls itself where it has refreshed; on fuel, `none` is the end of the fuel.
  unfoldable pub get_nodes : ℕ → Time → Bytes → Local → Option (Result (Option Nodes × Local))
  unfolding refresh find
  get_nodes zero now network l = none
  get_nodes (suc f) now network l = elim (find network l.common.networks) [
    | some ns ↦ some (ok (some ns, l))
    | none ↦ and_then (refresh now l) (get_nodes f now network)
  ]

  abbrev pub marshal_value : Option Node → Result Json
  marshal_value none = ok null
  marshal_value (some n) = marshal_node x.form n

  unfoldable pub marshal_map : Map (Option Node) → Result Fields
  unfolding marshal_node
  marshal_map [] = ok no_fields
  marshal_map ((k, n) ∷ m) =
      let rest = marshal_map m in bind (marshal_value n) λ j. bind rest λ fs. ok (field k j fs)

  -- the text of a file that is there
  abbrev pub text_in : Option Bytes → Result Bytes
  text_in none = err library_error
  text_in (some b) = ok b

  -- Of JSON's null encoding/json makes a nil map, which takes no node.
  abbrev pub map_of_json : Json → Result (Map (Option Node))
  map_of_json null = err runtime_panic
  map_of_json j = nodes_of_json j

  unfoldable pub map_of_text : Bytes → Result (Map (Option Node))
  unfolding unmarshal_map
  map_of_text [] = ok []
  map_of_text (c ∷ b) = bind (x.read (c ∷ b)) map_of_json

  -- The maps in memory stay as they are.
  unfoldable pub set_node : Local → Node → Result Local
  unfolding map_of_text marshal_map put
  set_node l n = bind (text_in l.file) λ b. bind (map_of_text b) λ nis.
      bind (marshal_map (put n.domain (some n) nis))
        λ fs. ok (record l { file = some (x.print (object fs)) })
