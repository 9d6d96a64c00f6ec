-- ===== src/Examples/Endpoints.antt =====
-- The endpoints of an access node, and a node that polls another.
use swift_go.Prelude.{◌≡◌, refl, true, Option, some, [], ◌∷◌, Result, ok, Bytes, codes, equal}
use swift_go.Results.{Exported, encode_results, is_time_stamp_valid}
use swift_go.Results.RoundTrip.{read_back}
use swift_go.Node.{Node}
use swift_go.Stores.{find, put}
use swift_go.Services.{
  AccessSimple, new_access_simple, keys_of, get_allowed, get_access_node_for_host,
  get_node_from_request,
}
use swift_go.Api.{fresh, handle_encrypt, handle_decode_as_json, octet_stream}
use swift_go.Api.RoundTrip.{answered, to_encrypt, to_decrypt, handle_decode_as_json-handle_encrypt}
use swift_go.Alive.{Round, is_due, poll_node, handle_alive, read_all}
use swift_go.Alive.Answering.{poll_node-handle_alive}
use swift_go.Examples.{plain_gcm, plain_zlib, one_nonce, node_with, node_b, old_secret}
use swift_go.Examples.Codec.{results, results-IsWritable}

abbrev access_node : Node
access_node = node_with 4 40 0 (codes "acc") (old_secret ∷ [])

abbrev known : Bytes → Option Node
known host = some access_node

abbrev keys : AccessSimple
keys = new_access_simple (codes "k1" ∷ codes "k2" ∷ [])

abbrev plain : Bytes → Result Bytes
plain b = ok b

found : get_access_node_for_host known (codes "acc") ≡ ok access_node
unfolding get_access_node_for_host get_node_from_request
found = refl

second_key : get_allowed keys (codes "k2") ≡ ok true
unfolding get_allowed new_access_simple keys_of put find equal
second_key = refl

still_valid : is_time_stamp_valid 60 (read_back results) ≡ true
unfolding is_time_stamp_valid
still_valid = refl

-- A printer of one field.
abbrev print_title : Exported → Result Bytes
print_title v = ok v.title

handle_decode_as_json-handle_encrypt_example :
    (out : Bytes) × (handle_encrypt plain_gcm plain_zlib known plain
        (ok one_nonce)
        (to_encrypt (λ b. b) (codes "acc") (encode_results results))
        fresh
      ≡ answered octet_stream out)
    × (handle_decode_as_json plain_gcm plain_zlib known plain
          (get_allowed keys)
          print_title
          60
          (to_decrypt (λ b. b) (codes "acc") (codes "k2") out)
          fresh
        ≡ answered (codes "application/json") results.html.title)
handle_decode_as_json-handle_encrypt_example =
    handle_decode_as_json-handle_encrypt plain_gcm plain_zlib known plain (λ b. b) (λ b. refl)
      (get_allowed keys) print_title 60 access_node (codes "acc") (codes "k2") one_nonce
      results.html.title results found refl second_key results-IsWritable still_valid refl

abbrev round : Round
round = record { now = 40; later = 41; nonce = ok (5 ∷ 6 ∷ []); random = ok one_nonce }

abbrev polled_nodes : Bytes → Option Node
polled_nodes host = some node_b

due : is_due 30 40 node_b ≡ true
unfolding is_due
due = refl

poll_node-handle_alive_example :
    poll_node plain_gcm plain_zlib
      (λ host b.
        read_all plain_gcm plain_zlib
          (λ e. [])
          (handle_alive plain_gcm plain_zlib polled_nodes host (ok b) fresh))
      30
      round
      node_b
    ≡ record node_b { alive = true; accessed = 41 }
poll_node-handle_alive_example =
    poll_node-handle_alive plain_gcm plain_zlib (λ e. []) polled_nodes 30 round node_b node_b
      (5 ∷ 6 ∷ []) one_nonce refl refl refl refl refl due
