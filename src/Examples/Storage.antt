-- ===== src/Examples/Storage.antt =====
-- The storage handler on a concrete network.
use swift_go.Prelude.{
  ◌+◌, ◌<◌, ◌≤◌, ◌≡◌, ◌↔◌, ◌⊎◌, refl, arith, true, false, Option, some, [], ◌∷◌, Result, ok, Bytes,
  length, equal, All, codes, map, none, ◌++◌,
}
use swift_go.Examples.Codec.{operation-IsWritable}
use swift_go.Operation.RoundTrip.{IsWritable, arrived, received}
use swift_go.Operation.Arrival.{new_operation_from_request, resolve_cookies}
use swift_go.Operation.Transport.{new_operation_from_string-encode}
use swift_go.Node.{Node}
use swift_go.Pair.{OperationPair}
use swift_go.Configuration.{home_node_timeout_duration}
use swift_go.Operation.{Operation, find_pair, get_cookies_valid}
use swift_go.Operation.Cookies.{IsCurrent, missing, get_cookies_valid_iff}
use swift_go.HandlerStore.{choose_next, with_next_node, next_action, respond, Url}
use swift_go.HandlerStore.NextNode.{IsCandidate, choose_next_total, choose_next_finds}
use swift_go.HandlerStore.Hops.{Hop, hop, Hops, stay, more, Hops-bounded, Hops-prev_node}
use swift_go.HandlerStore.Outcome.{Warns, IsWarned, restarted, respond-Warns}
use swift_go.HandlerStore.{
  with_prev_node, prev_node_of, try_random, is_candidate, home_node_of, get_next_url,
  as_url_parameter, scramble,
}
use swift_go.Operation.{is_time_stamp_valid, done, scan_pairs, as_byte_array, new_operation}
use swift_go.Configuration.{storage_operation_timeout_duration}
use swift_go.Nodes.{get_random_node, find_node, shuffle, swap, count_up, node_at_index}
use swift_go.Html.{has_bit, use_home_node}
use swift_go.Io.{is_zero}
use swift_go.Pair.{is_empty}
use swift_go.Node.{encode, encrypt, get_secret, secret_encrypt, supports_crypto}
use swift_go.HandlerStore.{store_done, store_warning}
use swift_go.Html.{java_script}
use swift_go.Examples.{
  plain_gcm, plain_zlib, node_a, node_b, one_nonce, network, operation, settings, world,
}

get_cookies_valid_iff_example : (get_cookies_valid settings 60 60 operation ≡ true) ↔ (
    (60 < 60 + home_node_timeout_duration settings)
    × All
        (λ (p : OperationPair).
          IsCurrent
            (home_node_timeout_duration settings)
            60
            p
            (find_pair p.key operation.cookie_pairs))
        operation.resolved
    × (0 + missing operation.cookie_pairs operation.resolved < length operation.resolved))
get_cookies_valid_iff_example = get_cookies_valid_iff settings 60 60 operation

choose_next_total_example :
    (n : Node) × ((choose_next world 60 operation (some node_a) ≡ some n)
      × ((n ≡ node_a) ⊎ IsCandidate 60 operation node_a n))
choose_next_total_example = choose_next_total 60 operation node_a world refl

node_b-IsCandidate : IsCandidate 60 operation node_a node_b
unfolding equal
node_b-IsCandidate = record {
  role = refl;
  other = λ e. absurd (omega arith);
  away = refl;
  started = omega arith;
  active = (1, refl);
}

choose_next_finds_example :
    (n : Node) × ((choose_next world 60 operation (some node_a) ≡ some n)
      × IsCandidate 60 operation node_a n)
choose_next_finds_example =
    choose_next_finds 60 operation node_a world (λ c i. omega arith) node_b refl
      (λ e. absurd (omega arith)) node_b-IsCandidate

-- without a cookie, so that the home node alone does not do
abbrev first_visit : Operation
first_visit = record operation { cookie_pairs = [] }

abbrev sent_on : Operation
sent_on = record first_visit { next_node = some node_b }

sent_on-IsWritable : IsWritable sent_on
sent_on-IsWritable = record {
  time_stamp = operation-IsWritable.time_stamp;
  return_url = operation-IsWritable.return_url;
  access_node = operation-IsWritable.access_node;
  html = operation-IsWritable.html;
  prev_node = operation-IsWritable.prev_node;
  home_node = operation-IsWritable.home_node;
  state = operation-IsWritable.state;
  count = operation-IsWritable.count;
  resolved = operation-IsWritable.resolved;
}

-- what arrives at the next node, without a cookie
abbrev second_visit : Operation
second_visit = record (arrived (new_operation 70 node_b) sent_on) {
  table = b'm' ∷ [];
  network = network;
  nodes_visited = 2;
  cookie_pairs = [];
  resolved = map received sent_on.resolved;
}

abbrev no_cookie : Bytes → Option (Result Bytes)
no_cookie name = none

arrives :
    new_operation_from_request plain_gcm plain_zlib 70 node_b
      (encode plain_gcm plain_zlib (ok one_nonce) node_b (as_byte_array sent_on))
      (ok (b'm' ∷ []))
      network
      no_cookie
    ≡ ok second_visit
unfolding new_operation_from_request resolve_cookies new_operation
arrives =
    rw
      (new_operation_from_string-encode plain_gcm plain_zlib node_b one_nonce 70 sent_on refl
        sent_on-IsWritable)
      refl

abbrev known : Bytes → Option Node
known d = some node_a

first-Hop : Hop world plain_gcm plain_zlib settings first_visit second_visit
unfolding with_next_node with_prev_node prev_node_of is_time_stamp_valid
    storage_operation_timeout_duration choose_next try_random get_random_node find_node shuffle swap
    count_up node_at_index is_candidate home_node_of equal next_action home_node_timeout_duration
    has_bit use_home_node is_zero done find_pair get_cookies_valid scan_pairs is_empty
first-Hop =
    hop 60 known first_visit sent_on second_visit node_b one_nonce 70 (ok (b'm' ∷ [])) network
      no_cookie refl refl refl refl refl sent_on-IsWritable arrives

one_hop : Hops world plain_gcm plain_zlib settings 1 first_visit second_visit
one_hop = more 0 first_visit second_visit second_visit first-Hop (stay second_visit)

Hops-bounded_example :
    (second_visit.nodes_visited ≡ first_visit.nodes_visited + 1)
    × (second_visit.nodes_visited ≤ first_visit.node_count)
    × (second_visit.node_count ≡ first_visit.node_count)
Hops-bounded_example =
    Hops-bounded world plain_gcm plain_zlib settings 1 one_hop (omega arith) (omega arith)

Hops-prev_node_example : second_visit.prev_node ≡ []
Hops-prev_node_example = Hops-prev_node world plain_gcm plain_zlib settings 1 one_hop refl

abbrev last_visit : Operation
last_visit = record operation { nodes_visited = 3 }

abbrev home_url : Url
home_url = record {
  scheme = codes "https";
  host = b'a' ∷ [];
  path = b'm' ∷ b'/' ∷ one_nonce ++ 1 ∷ as_byte_array (restarted 60 node_a last_visit);
}

warned :
    Warns
      (respond world plain_gcm plain_zlib settings 60 (some node_a) false last_visit)
      (restarted 60 node_a last_visit)
      home_url
unfolding respond next_action store_done done java_script has_bit store_warning get_next_url
    as_url_parameter encode supports_crypto encrypt get_secret secret_encrypt scramble as_byte_array
warned = (_, _, refl)

respond-Warns_example :
    Warns
      (respond world plain_gcm plain_zlib settings 60 (some node_a) false last_visit)
      (restarted 60 node_a last_visit)
      home_url
    ↔ IsWarned world plain_gcm plain_zlib settings 60
        (some node_a)
        false
        last_visit
        (restarted 60 node_a last_visit)
        home_url
respond-Warns_example =
    respond-Warns world plain_gcm plain_zlib settings 60 (some node_a) false last_visit
      (restarted 60 node_a last_visit) home_url
