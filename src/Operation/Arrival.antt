-- ===== src/Operation/Arrival.antt =====
-- operation.go `newOperationFromRequest` and node.go `getValueFromCookie`: an operation that arrives
-- at a node, and the cookies of the browser that are merged into it.
use swift_go.Prelude.{
  suc, ◌%◌, Option, none, some, List, [], ◌∷◌, ◌++◌, Result, ok, err, bind, Bytes,
}
use swift_go.Prelude.{library_error}
use swift_go.Io.{Reader, ◌>>=◌, Time, read_time}
use swift_go.Pair.{OperationPair, empty_value, set_from_buffer, resolve_conflict}
use swift_go.Node.{Node, Gcm, Zlib, decode}
use swift_go.Nodes.{Nodes}
use swift_go.Operation.{Operation, new_operation_from_byte_array}

-- the two reads of `getValueFromCookie`
unfoldable pub read_cookie : Reader OperationPair
read_cookie = do t ← read_time; set_from_buffer (record empty_value { cookie_write_time = t })

-- A buffer of no bytes is an error; bytes that are left behind the pair are not.
abbrev pub pair_of : Bytes → Result OperationPair
pair_of [] = err library_error
pair_of (x ∷ d) = bind (read_cookie (x ∷ d)) λ r. ok r.0

module _ (g : Gcm) (z : Zlib) where
  -- `value` is the value of the cookie, out of base64.
  unfoldable pub get_value_from_cookie : Node → Result Bytes → Result OperationPair
  unfolding read_cookie
  get_value_from_cookie n value = bind value λ v. bind (decode g z n v) pair_of

  -- `value` is the last segment of the path, out of base64.
  unfoldable pub new_operation_from_string : Time → Node → Result Bytes → Result Operation
  new_operation_from_string now n value =
      bind value λ v. bind (decode g z n v) λ d. new_operation_from_byte_array now n (some d)

  -- The pair that is used from now on, and the cookie's pair where there is one.
  abbrev resolve_with :
      Time → OperationPair → Result OperationPair → Result (OperationPair × List OperationPair)
  resolve_with now p (err e) = ok (p, [])
  resolve_with now p (ok cp) = bind (resolve_conflict now (some p) (some cp)) λ r. ok (r, cp ∷ [])

  abbrev resolve_cookie :
      Time
      → Node
      → OperationPair
      → Option (Result Bytes)
      → Result (OperationPair × List OperationPair)
  resolve_cookie now n p none = ok (p, [])
  resolve_cookie now n p (some value) = resolve_with now p (get_value_from_cookie n value)

  -- The loop over the pairs; `cookie` finds the request's cookie under the scrambled key.
  unfoldable pub resolve_cookies :
      Time
      → Node
      → (Bytes → Option (Result Bytes))
      → List OperationPair
      → Result (List OperationPair × List OperationPair)
  unfolding get_value_from_cookie
  resolve_cookies now n cookie [] = ok ([], [])
  resolve_cookies now n cookie (p ∷ ps) =
      let rest = resolve_cookies now n cookie ps in
      bind (resolve_cookie now n p (cookie p.key))
        λ (r, cp). bind rest λ (rs, cps). ok (r ∷ rs, cp ++ cps)

  -- from the node of the request's host on; `table` is the unscrambled segment, `network` what the
  -- store has for the node's network
  unfoldable pub new_operation_from_request :
      Time
      → Node
      → Result Bytes
      → Result Bytes
      → Nodes
      → (Bytes → Option (Result Bytes))
      → Result Operation
  new_operation_from_request now n value table network cookie =
      bind (new_operation_from_string now n value) λ o. bind table λ t.
        bind (resolve_cookies now n cookie o.pairs) λ (resolved, cookie_pairs). ok (record o {
          table = t;
          network = network;
          nodes_visited = suc o.nodes_visited % 256;
          cookie_pairs = cookie_pairs;
          resolved = resolved;
        })
