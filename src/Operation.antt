-- ===== src/Operation.antt =====
-- operation.go: the state of a storage operation, its encoding, and the tests that steer it.
pub mod RoundTrip
pub mod Cookies
pub mod Arrival
pub mod Transport
use swift_go.Prelude.{
  ℕ, zero, suc, ◌+◌, ◌%◌, Bool, false, ◌&&◌, ◌||◌, not, Option, none, some, List, [], ◌∷◌, ◌++◌,
  Result, ok, err, empty_array, remaining, bind, ltb, leb, ◌==◌, if◌then◌else◌, Bytes, length,
  equal,
}
use swift_go.Io.{
  ◌>>=◌, Reader, pure, read_string, read_byte, write_string, write_byte, Time, is_zero, before,
  read_time, write_time,
}
use swift_go.Io.Separated.{join, split}
use swift_go.Html
use swift_go.Html.{Html, empty_html}
use swift_go.Pair.{
  OperationPair, empty_value, set_from_buffer, write_to_buffer, is_empty, resolve_conflict,
}
use swift_go.Results.{result_separator}
use swift_go.Node.{Node}
use swift_go.Nodes.{Nodes}
use swift_go.Configuration.{
  Configuration, home_node_timeout_duration, storage_operation_timeout_duration,
}

-- The fields down to `html` are persisted, but for `table`, which travels in the URL. `none` is a
-- nil pointer. The services and the request are arguments of what reads them, and the nodes that the
-- source caches are looked up where they are needed.
pub record Operation : Type 0 where
  pub time_stamp : Time
  pub return_url : Bytes
  pub access_node : Bytes
  pub nodes_visited : ℕ
  pub node_count : ℕ
  pub pairs : List OperationPair
  pub table : Bytes
  pub prev_node : Bytes
  pub home_node : Bytes
  pub state : List Bytes
  pub html : Html
  pub this_node : Node
  pub next_node : Option Node
  pub network : Nodes
  pub cookie_pairs : List OperationPair
  pub resolved : List OperationPair

-- `now` is `time.Now().UTC()`; the network is set later.
unfoldable pub new_operation : Time → Node → Operation
new_operation now n = record {
  time_stamp = now;
  return_url = [];
  access_node = [];
  nodes_visited = 0;
  node_count = 0;
  pairs = [];
  table = [];
  prev_node = [];
  home_node = [];
  state = [];
  html = empty_html;
  this_node = n;
  next_node = none;
  network = record { all = []; active = []; hash = []; dict = [] };
  cookie_pairs = [];
  resolved = [];
}

unfoldable pub write_pairs : Bytes → List OperationPair → Bytes
write_pairs b [] = b
write_pairs b (p ∷ ps) = write_pairs (write_to_buffer p b) ps

-- `byte(len(o.resolved))` keeps the low eight bits of the count.
unfoldable pub as_byte_array : Operation → Bytes
as_byte_array o =
    let b = write_time [] o.time_stamp in
    let b = write_string b o.return_url in
    let b = write_string b o.access_node in
    let b = Html.write b o.html in
    let b = write_byte b o.nodes_visited in
    let b = write_byte b o.node_count in
    let b = write_string b o.prev_node in
    let b = write_string b o.home_node in
    let b = write_string b (join result_separator o.state) in
    let b = write_byte b (length o.resolved % 256) in write_pairs b o.resolved

-- the loop over the pairs that are still to be read
unfoldable pub read_pairs : ℕ → Reader (List OperationPair)
read_pairs zero = pure []
read_pairs (suc c) = do p ← set_from_buffer empty_value; ps ← read_pairs c; pure (p ∷ ps)

-- Everything but the pairs is overwritten, and the pairs are appended to.
unfoldable pub read_operation : Operation → Reader Operation
read_operation o = do
  time_stamp ← read_time
  return_url ← read_string
  access_node ← read_string
  html ← Html.set
  nodes_visited ← read_byte
  node_count ← read_byte
  prev_node ← read_string
  home_node ← read_string
  state ← read_string
  count ← read_byte
  pairs ← read_pairs count
  pure (record o {
    time_stamp = time_stamp;
    return_url = return_url;
    access_node = access_node;
    html = html;
    nodes_visited = nodes_visited;
    node_count = node_count;
    prev_node = prev_node;
    home_node = home_node;
    state = split result_separator state;
    pairs = o.pairs ++ pairs;
  })

-- the check of the bytes that are left
unfoldable pub all_read : Operation × Bytes → Result Operation
all_read (o, []) = ok o
all_read (o, b ∷ rest) = err (remaining (length (b ∷ rest)))

-- `none` is a nil slice.
unfoldable pub set_from_byte_array : Operation → Option Bytes → Result Operation
set_from_byte_array o none = err empty_array
set_from_byte_array o (some d) = bind (read_operation o d) all_read

unfoldable pub new_operation_from_byte_array : Time → Node → Option Bytes → Result Operation
new_operation_from_byte_array now n b = set_from_byte_array (new_operation now n) b

unfoldable pub is_time_stamp_valid : Configuration → Time → Operation → Bool
is_time_stamp_valid c now o = before now (o.time_stamp + storage_operation_timeout_duration c)

-- `==` of a node and a pointer that may be nil
abbrev pub same_node : Node → Option Node → Bool
same_node n none = false
same_node n (some m) = n.address == m.address

unfoldable pub done : Operation → Bool
done o =
    (same_node o.this_node o.next_node && leb 2 o.nodes_visited)
    || (o.node_count == o.nodes_visited)

-- the loop of `getCookie`
unfoldable pub find_pair : Bytes → List OperationPair → Option OperationPair
find_pair key [] = none
find_pair key (i ∷ rest) =
    let further = find_pair key rest in if equal i.key key then some i else further

unfoldable pub get_cookie : Operation → OperationPair → Option OperationPair
unfolding find_pair
get_cookie o p = find_pair p.key o.cookie_pairs

-- What the loop of `getCookiesValid` knows: the earliest write time and the empty pairs so far, or
-- that it returned false.
pub data Scan : Type 0 where
  going : Time → ℕ → Scan
  refused : Scan

-- one round, for a pair and its cookie
abbrev pub scan_pair : OperationPair → Option OperationPair → Time → ℕ → Scan
scan_pair p (some c) t e =
    if not (is_zero c.cookie_write_time) && before c.cookie_write_time t
    then going c.cookie_write_time e
    else going t e
scan_pair p none t e = if is_empty p then going t (suc e) else refused

unfoldable pub scan_pairs : List OperationPair → List OperationPair → Scan → Scan
scan_pairs cookies [] s = s
scan_pairs cookies (p ∷ ps) refused = refused
scan_pairs cookies (p ∷ ps) (going t e) =
    scan_pairs cookies ps (scan_pair p (find_pair p.key cookies) t e)

-- `later.Sub(t) < timeout`, without the difference
abbrev pub finish_scan : ℕ → Time → ℕ → Scan → Bool
finish_scan timeout later count refused = false
finish_scan timeout later count (going t e) = ltb later (t + timeout) && ltb e count

-- `now` and `later` are the two readings of the clock.
unfoldable pub get_cookies_valid : Configuration → Time → Time → Operation → Bool
get_cookies_valid c now later o =
    finish_scan (home_node_timeout_duration c) later (length o.resolved)
      (scan_pairs o.cookie_pairs o.resolved (going now 0))

-- the pair to use for `p`, given its cookie
abbrev pub resolve_pair : Time → OperationPair → Option OperationPair → Result OperationPair
resolve_pair now p (some c) = resolve_conflict now (some p) (some c)
resolve_pair now p none = ok p

unfoldable pub resolve_all :
    Time → List OperationPair → List OperationPair → Result (List OperationPair)
resolve_all now cookies [] = ok []
resolve_all now cookies (p ∷ ps) =
    let rest = resolve_all now cookies ps in
    bind (resolve_pair now p (find_pair p.key cookies)) λ r. bind rest λ rs. ok (r ∷ rs)

unfoldable pub resolve_pairs : Time → Operation → Result (List OperationPair)
unfolding resolve_all
resolve_pairs now o = resolve_all now o.cookie_pairs o.pairs
