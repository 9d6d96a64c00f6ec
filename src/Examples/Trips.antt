-- ===== src/Examples/Trips.antt =====
-- Nodes that are written as JSON and read again, and the store in a file.
use swift_go.Prelude.{
  ℕ, ◌≡◌, refl, arith, true, false, none, some, [], ◌∷◌, Result, ok, err, library_error, Bytes,
  codes, ok_injective, pos,
}
use swift_go.Io.{Time}
use swift_go.Node.{Secret, Node, make_nonce, nonce_loop, get_scrambler_key, add_secret}
use swift_go.Node.Making.{
  new_node, new_secret_from_key, make_scrambler, or_panic, new_crypto, new_secret,
}
use swift_go.Node.Json.{
  Json, no_items, item, object, field, no_fields, text, number, array, TimeText, marshal_node,
  marshal_secret, marshal_secrets, unmarshal_node,
}
use swift_go.Node.JsonTrip.{unmarshal_node-marshal_node}
use swift_go.Nodes.{get_hash}
use swift_go.Register.{Register, Tools, node_of, scrambler_key, with_secret}
use swift_go.Register.Kept.{unmarshal_node-node_of}
use swift_go.Prelude.{◌+◌, ◌≤◌}

-- A time is printed as one byte, and read from it.
abbrev pub time_of : Bytes → Result Time
time_of (t ∷ []) = ok t
time_of _ = err library_error

abbrev pub clock_text : TimeText
clock_text = record { print = λ t. ok (t ∷ []); parse = time_of }

pub parses : (t : Time) (s : Bytes) → clock_text.print t ≡ ok s → clock_text.parse s ≡ ok t
parses t s e = rw⁻¹ (ok_injective e) refl

abbrev pub plain_key : Bytes → Result Bytes
plain_key b = ok b

abbrev pub key_a : Bytes
key_a = 1 ∷ 2 ∷ 3 ∷ 4 ∷ 5 ∷ 6 ∷ 7 ∷ 8 ∷ 9 ∷ 10 ∷ 11 ∷ 12 ∷ 13 ∷ 14 ∷ 15 ∷ 16 ∷ []

abbrev pub secret_a : Secret
secret_a = record { time_stamp = 3; key = key_a }

abbrev pub secret_b : Secret
secret_b = record { time_stamp = 4; key = key_a }

-- what `newNode` makes at address 9, with the key of a scrambler
abbrev pub scrambling : Node
scrambling = record {
  address = 9;
  network = codes "net";
  domain = codes "ab";
  hash = 7;
  created = 1;
  starts = 2;
  expires = 1000;
  role = 1;
  secrets = [];
  scrambler = some (record { time_stamp = 1; key = key_a });
  nonce = codes "abababababab";
  accessed = 9_223_372_036_854_775_808_000_000_000;
  alive = false;
  cookie_domain = [];
}

pub scrambling_made :
    new_node plain_key (λ s. 7) 9 (codes "net") (codes "ab") 1 2 1000 1 key_a [] ≡ ok scrambling
unfolding new_node make_scrambler new_secret_from_key new_crypto make_nonce nonce_loop or_panic
    get_hash
scrambling_made = refl

abbrev two_secrets : Json
two_secrets = array (
    item
      (object
        (field (codes "timeStamp") (text (3 ∷ [])) (field (codes "key") (text key_a) no_fields)))
      (item
        (object
          (field (codes "timeStamp") (text (4 ∷ [])) (field (codes "key") (text key_a) no_fields)))
        no_items))

abbrev scrambling_json : Json
scrambling_json = object (
    field (codes "network") (text (codes "net")) (
      field (codes "domain") (text (codes "ab")) (
        field (codes "created") (text (1 ∷ [])) (
          field (codes "starts") (text (2 ∷ [])) (
            field (codes "expires") (text (1000 ∷ [])) (
              field (codes "role") (number 1) (
                field (codes "secrets") two_secrets (
                  field (codes "scrambler") (text key_a)
                    (field (codes "cookieDomain") (text []) no_fields)))))))))

scrambling-json :
    marshal_node clock_text (record scrambling { secrets = secret_a ∷ secret_b ∷ [] })
    ≡ ok scrambling_json
unfolding marshal_node marshal_secrets marshal_secret get_scrambler_key
scrambling-json = refl

pub secret-made :
    (t : Time) → new_secret_from_key plain_key key_a t ≡ ok (record { time_stamp = t; key = key_a })
unfolding new_secret_from_key new_crypto
secret-made t = refl

-- The first of the two secrets is lost.
unmarshal_node-marshal_node_example :
    unmarshal_node clock_text plain_key (λ s. 7) scrambling scrambling_json
    ≡ ok (record scrambling { secrets = secret_b ∷ [] })
unmarshal_node-marshal_node_example =
    unmarshal_node-marshal_node clock_text plain_key parses (λ s. 7) 9 (codes "net") (codes "ab") 1
      2 1000 1 key_a [] scrambling scrambling (secret_a ∷ secret_b ∷ []) scrambling_json
      scrambling_made (secret-made 3, (secret-made 4, tt)) refl scrambling-json

abbrev one_secret : Json
one_secret = array (
    item
      (object
        (field (codes "timeStamp") (text (3 ∷ [])) (field (codes "key") (text key_a) no_fields)))
      no_items)

-- the form of a storage node without a scrambler
abbrev pub form_of_ab : Register
form_of_ab = record {
  store_names = [];
  store = [];
  domain = codes "ab";
  network = codes "net";
  starts = 2;
  expires = 1000;
  role = pos 1;
  scramble = false;
  secret = true;
  cookie_domain = [];
  error = none;
  network_error = none;
  expires_error = none;
  starts_error = none;
  store_error = none;
  role_error = none;
  read_only = false;
  display_errors = true;
}

abbrev pub later : Time → ℕ → ℕ → Time
later t months days = t + (months + days)

pub later-le : (t : Time) (months days : ℕ) → t ≤ later t months days
later-le t months days = omega arith

abbrev pub tools : Tools
tools = record {
  add_date = later;
  parse_int = λ b. ok (pos 1);
  failed_int = λ b. pos 0;
  parse_day = λ b. ok 1000;
  parse_minute = λ b. ok 2;
  encode_key = λ b. b;
  decode_key = plain_key;
  draw = λ s. 7;
  add_date-le = later-le;
}

abbrev pub registered_ab : Node
registered_ab = record scrambling {
  created = 3;
  secrets = secret_a ∷ [];
  scrambler = none;
  nonce = [];
}

abbrev empty_ab : Node
empty_ab = record registered_ab { secrets = [] }

abbrev pub registered_json : Json
registered_json = object (
    field (codes "network") (text (codes "net")) (
      field (codes "domain") (text (codes "ab")) (
        field (codes "created") (text (3 ∷ [])) (
          field (codes "starts") (text (2 ∷ [])) (
            field (codes "expires") (text (1000 ∷ [])) (
              field (codes "role") (number 1) (
                field (codes "secrets") one_secret (
                  field (codes "scrambler") (text [])
                    (field (codes "cookieDomain") (text []) no_fields)))))))))

pub registered_ab_made : node_of tools 9 (ok key_a) (ok key_a) 3 form_of_ab ≡ ok registered_ab
unfolding node_of scrambler_key with_secret new_secret new_crypto add_secret new_node make_scrambler
    or_panic make_nonce get_hash
registered_ab_made = refl

pub registered-json : marshal_node clock_text registered_ab ≡ ok registered_json
unfolding marshal_node marshal_secrets marshal_secret get_scrambler_key
registered-json = refl

unmarshal_node-node_of_example :
    unmarshal_node clock_text plain_key (λ s. 7) empty_ab registered_json ≡ ok registered_ab
unmarshal_node-node_of_example =
    unmarshal_node-node_of tools clock_text parses (λ b. refl) 9 (ok key_a) (ok key_a) 3 form_of_ab
      registered_ab empty_ab registered_json registered_ab_made refl refl registered-json
