-- ===== src/Examples.antt =====
-- Concrete nodes, pairs, operations and libraries on which the theorems are applied.
pub mod Codec
pub mod Databases
pub mod Merging
pub mod Network
pub mod Storage
pub mod Started
pub mod Trips
pub mod Keeping
pub mod Gathered
pub mod Endpoints
pub mod Serving
pub mod Tables
pub mod Cookies
use swift_go.Prelude.{
  ℕ, ◌≢◌, refl, arith, true, false, none, some, List, [], ◌∷◌, Result, ok, err, library_error,
  Bytes, pos, codes,
}
use swift_go.Html.{Html}
use swift_go.Pair.{OperationPair}
use swift_go.Pair.RoundTrip as PairRoundTrip
use swift_go.Node.{Secret, Node, Gcm, Zlib}
use swift_go.Nodes.{Nodes}
use swift_go.Configuration.{Configuration}
use swift_go.Operation.{Operation}
use swift_go.HandlerStore.{World, Url}
use swift_go.HandlerCreate.{Parsers}

-- A cipher that hides nothing, and a compression that puts one byte in front.
abbrev pub plain_gcm : Gcm
plain_gcm = record {
  seal = λ key nonce plain. plain;
  unseal = λ key nonce cipher. some cipher;
  unseal-seal = λ key nonce plain. refl;
}

abbrev pub without_first : Bytes → Result Bytes
without_first [] = err library_error
without_first (x ∷ b) = ok b

pub not_nil : (b : Bytes) → 1 ∷ b ≢ []
not_nil b h = cc

abbrev pub plain_zlib : Zlib
plain_zlib = record {
  deflate = λ b. 1 ∷ b;
  inflate = without_first;
  inflate-deflate = λ b. refl;
  deflate-ne-nil = not_nil;
}

abbrev pub one_nonce : Bytes
one_nonce = 1 ∷ 2 ∷ 3 ∷ 4 ∷ 5 ∷ 6 ∷ 7 ∷ 8 ∷ 9 ∷ 10 ∷ 11 ∷ 12 ∷ []

abbrev pub old_secret : Secret
old_secret = record { time_stamp = 1; key = 7 ∷ [] }

abbrev pub new_secret : Secret
new_secret = record { time_stamp = 2; key = 8 ∷ [] }

-- `node_with address hash role domain secrets`
abbrev pub node_with : ℕ → ℕ → ℕ → Bytes → List Secret → Node
node_with address hash role domain secrets = record {
  address = address;
  network = b'n' ∷ [];
  domain = domain;
  hash = hash;
  created = 1;
  starts = 2;
  expires = 1000;
  role = role;
  secrets = secrets;
  scrambler = none;
  nonce = [];
  accessed = 1;
  alive = true;
  cookie_domain = [];
}

abbrev pub node_a : Node
node_a = node_with 1 10 1 (b'a' ∷ []) (old_secret ∷ [])

abbrev pub node_b : Node
node_b = node_with 2 20 1 (b'b' ∷ []) (new_secret ∷ old_secret ∷ [])

abbrev pub node_c : Node
node_c = node_with 3 30 0 (b'c' ∷ []) []

abbrev pub network : Nodes
network = record {
  all = node_b ∷ node_a ∷ node_c ∷ [];
  active = node_a ∷ node_b ∷ node_c ∷ [];
  hash = node_a ∷ node_b ∷ [];
  dict = [];
}

abbrev pub pair_with : ℕ → ℕ → List Bytes → ℕ → OperationPair
pair_with created conflict values written = record {
  pair = record { key = b'k' ∷ []; created = created; expires = 900; values = values };
  conflict = conflict;
  cookie_write_time = written;
}

abbrev pub pair_x : OperationPair
pair_x = pair_with 5 3 ((1 ∷ []) ∷ []) 0

abbrev pub pair_y : OperationPair
pair_y = pair_with 6 3 ((2 ∷ []) ∷ []) 40

pub pair_x-IsWritable : PairRoundTrip.IsWritable pair_x
pair_x-IsWritable = record {
  key = (omega arith, tt);
  created = omega arith;
  values = record { count = omega arith; lengths = (omega arith, tt) };
}

abbrev pub plain_html : Html
plain_html = record {
  title = b't' ∷ [];
  message = [];
  background_color = [];
  message_color = [];
  progress_color = [];
  flags = 5;
}

abbrev pub operation : Operation
operation = record {
  time_stamp = 50;
  return_url = b'u' ∷ [];
  access_node = b'c' ∷ [];
  nodes_visited = 1;
  node_count = 3;
  pairs = pair_x ∷ [];
  table = b'm' ∷ [];
  prev_node = [];
  home_node = b'a' ∷ [];
  state = (b's' ∷ []) ∷ [];
  html = plain_html;
  this_node = node_a;
  next_node = none;
  network = network;
  cookie_pairs = pair_y ∷ [];
  resolved = pair_x ∷ [];
}

abbrev pub settings : Configuration
settings = record {
  alive_polling_seconds = pos 0;
  storage_operation_timeout = pos 30;
  storage_manager_refresh_minutes = pos 1;
  max_stores = pos 10;
  home_node_timeout = pos 20;
  message = b'm' ∷ [];
  title = b't' ∷ [];
  background_color = b'b' ∷ [];
  message_color = b'c' ∷ [];
  progress_color = b'p' ∷ [];
  scheme = codes "https";
  node_count = 3;
  debug = false;
}

abbrev pub site : Url
site = record { scheme = codes "https"; host = b'h' ∷ []; path = [] }

-- Libraries that parse one date, one URL and one number, and no base64; every random number is 0.
abbrev pub parsers : Parsers Url
parsers = record {
  decode_base64 = λ b. err library_error;
  parse_date = λ b. ok 900;
  parse_int = λ b. ok (pos 2);
  url_string = λ u. u.host;
}

abbrev pub world : World
world = record {
  raw_url = λ b. b;
  parse_url = λ b. ok site;
  post_encrypt = λ n b. ok b;
  random_nonce = λ i. ok one_nonce;
  intn = λ c i. 0;
}
