-- ===== src/Results.antt =====
-- result.go: the results of a storage operation and their encoding.
pub mod RoundTrip
use swift_go.Prelude.{
  ℕ, zero, suc, ◌%◌, Bool, Option, none, some, List, [], ◌∷◌, Result, ok, err, empty_array, bind,
  if◌then◌else◌, Bytes, length, equal, foldl,
}
use swift_go.Io.{
  ◌>>=◌, Reader, pure, read_string, read_byte, read_byte_array_array, write_string, write_byte,
  write_byte_array_array, Time, before, read_time, read_date, write_time, write_date,
}
use swift_go.Io.Separated.{join, split}
use swift_go.Html
use swift_go.Html.{Html}
use swift_go.Pair.{Pair}

-- `resultSeparator`, "\r"
abbrev pub result_separator : ℕ
result_separator = 13

pub record Results : Type 0 where
  pub html : Html
  pub expires : Time
  pub pairs : List Pair
  pub state : List Bytes

-- `Get`: the first pair with the key, or nil
unfoldable pub get : Bytes → List Pair → Option Pair
get key [] = none
get key (p ∷ pairs) = let rest = get key pairs in if equal key p.key then some p else rest

unfoldable pub is_time_stamp_valid : Time → Results → Bool
is_time_stamp_valid now r = before now r.expires

-- one round of the loop of `DecodeResults`
unfoldable pub read_pair : Reader Pair
read_pair = do
  key ← read_string
  created ← read_date
  expires ← read_date
  values ← read_byte_array_array
  pure (record { key = key; created = created; expires = expires; values = values })

unfoldable pub read_pairs : ℕ → Reader (List Pair)
read_pairs zero = pure []
read_pairs (suc n) = do p ← read_pair; ps ← read_pairs n; pure (p ∷ ps)

unfoldable pub read_results : Reader Results
read_results = do
  expires ← read_time
  state ← read_string
  html ← Html.set
  n ← read_byte
  pairs ← read_pairs n
  pure (record {
    html = html;
    expires = expires;
    pairs = pairs;
    state = split result_separator state;
  })

-- `none` is a nil slice. Bytes that are left over are ignored.
unfoldable pub decode_results : Option Bytes → Result Results
decode_results none = err empty_array
decode_results (some d) = bind (read_results d) λ (r, rest). ok r

unfoldable pub write_pair : Bytes → Pair → Bytes
write_pair b e =
    let b = write_string b e.key in
    let b = write_date b e.created in
    let b = write_date b e.expires in write_byte_array_array b e.values

-- `byte(len(r.pairs))` keeps the low eight bits of the count.
unfoldable pub encode_results : Results → Bytes
encode_results r =
    let b = write_time [] r.expires in
    let b = write_string b (join result_separator r.state) in
    let b = Html.write b r.html in
    let b = write_byte b (length r.pairs % 256) in foldl write_pair b r.pairs

-- What `json.Marshal` can see of results: the exported fields, which are those of the embedded HTML.
-- The pairs, the state and the expiry are not exported, and neither are the flags.
pub record Exported : Type 0 where
  pub title : Bytes
  pub message : Bytes
  pub background_color : Bytes
  pub message_color : Bytes
  pub progress_color : Bytes

abbrev pub exported : Results → Exported
exported r = record {
  title = r.html.title;
  message = r.html.message;
  background_color = r.html.background_color;
  message_color = r.html.message_color;
  progress_color = r.html.progress_color;
}
