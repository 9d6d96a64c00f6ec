-- ===== src/Api/Listing.antt =====
-- handlerShare.go and handlerNodes.go: the nodes that a share node passes on, and the lists of nodes
-- that are shown.
use swift_go.Prelude.{
  ℕ, Bool, Option, none, some, List, [], ◌∷◌, Result, ok, err, bind, not_a_node, not_a_share_node,
  ◌==◌, if◌then◌else◌, Bytes, codes,
}
use swift_go.Io.{Time}
use swift_go.Node.{Node, Gcm, Zlib, role_share, encode}
use swift_go.Node.Json.{
  Json, Items, Fields, no_items, item, no_fields, field, array, object, TimeText, marshal_node,
}
use swift_go.Stores.{Map, put}
use swift_go.Api.{Request, Writer, on_error, return_api_error, send_response}

abbrev share_node_of : Option Node → Result Node
share_node_of none = err not_a_node
share_node_of (some a) = if a.role == role_share then ok a else err not_a_share_node

-- `w.Write(b)`, which does not set a type
unfoldable pub write : Bytes → Writer → Writer
unfolding send_response
write b w = send_response [] b w

-- the map of `getJSON`: of the alive nodes of a domain, the last
unfoldable pub alive_by_domain : List Node → Map Node → Map Node
alive_by_domain [] m = m
alive_by_domain (n ∷ ns) m = alive_by_domain ns (if n.alive then put n.domain n m else m)

pub record NodeView : Type 0 where
  pub network : Bytes
  pub domain : Bytes
  pub created : Time
  pub starts : Time
  pub expires : Time
  pub role : ℕ
  pub accessed : Time
  pub alive : Bool

abbrev pub view_of : Node → NodeView
view_of n = record {
  network = n.network;
  domain = n.domain;
  created = n.created;
  starts = n.starts;
  expires = n.expires;
  role = n.role;
  accessed = n.accessed;
  alive = n.alive;
}

unfoldable pub views_of : List Node → List NodeView
views_of [] = []
views_of (n ∷ ns) = view_of n ∷ views_of ns

-- `all_nodes` are what `getAllNodes` of the storage service returns.
unfoldable pub get_nodes_view : Result (List Node) → Result (List NodeView)
unfolding views_of
get_nodes_view all_nodes = bind all_nodes λ ns. ok (views_of ns)

-- The template of the page, as the bytes that it makes of the views; nil views are `none`.
unfoldable pub handle_nodes :
    (Option (List NodeView) → Bytes) → Result (List Node) → Writer → Writer
unfolding get_nodes_view
handle_nodes page all_nodes w = shown (get_nodes_view all_nodes)
  where
    shown : Result (List NodeView) → Writer
    shown (ok nvs) = send_response (codes "text/html; charset=utf-8") (page (some nvs)) w
    shown (err e) =
        send_response (codes "text/html; charset=utf-8") (page none) (return_api_error e 500 w)

-- `print` writes JSON as text, with the keys of an object in order.
module _ (form : TimeText) (print : Json → Bytes) where
  unfoldable pub marshal_nodes : List Node → Result Items
  unfolding marshal_node
  marshal_nodes [] = ok no_items
  marshal_nodes (n ∷ ns) =
      let rest = marshal_nodes ns in bind (marshal_node form n) λ j. bind rest λ js. ok (item j js)

  unfoldable pub marshal_map : Map Node → Result Fields
  unfolding marshal_node
  marshal_map [] = ok no_fields
  marshal_map ((k, n) ∷ m) =
      let rest = marshal_map m in bind (marshal_node form n) λ j. bind rest λ js. ok (field k j js)

  unfoldable pub get_json : Result (List Node) → Result Bytes
  unfolding alive_by_domain marshal_map
  get_json all_nodes =
      bind all_nodes λ ns. bind (marshal_map (alive_by_domain ns [])) λ nis. ok (print (object nis))

  unfoldable pub handle_nodes_json : Result (List Node) → Writer → Writer
  unfolding get_json return_api_error send_response
  handle_nodes_json all_nodes w =
      on_error 500 w (get_json all_nodes) λ j. send_response (codes "application/json") j w

  -- `active` are what `getAllActiveNodes` returns, a slice that is not nil.
  unfoldable pub handle_share :
      Gcm
      → Zlib
      → (Bytes → Option Node)
      → Result Bytes
      → Result (List Node)
      → Request
      → Writer
      → Writer
  unfolding marshal_nodes return_api_error write
  handle_share g z get_node random active r w =
      on_error 400 w (share_node_of (get_node r.host)) λ a. on_error 400 w active λ ns.
        on_error 400 w (marshal_nodes ns)
          λ js. on_error 400 w (encode g z random a (print (array js))) λ b. write b w
