-- ===== src/Results/RoundTrip.antt =====
-- Encoded results decode to what was encoded.
use swift_go.Prelude.{
  ◌%◌, ◌<◌, ◌≡◌, ◌≢◌, ◌∙◌, arith, some, ok, List, [], ◌∷◌, ◌++◌, map, foldl, append-nil,
  append_assoc, Bytes, length, All,
}
use swift_go.Io.{pure, ◌>>=◌}
use swift_go.Io.Encoding.{string_bytes, time_bytes, date_bytes, byte_array_array_bytes, writers}
use swift_go.Io.RoundTrip.{
  Reads, Reads-pure, Reads-bind, Reads-map, read_string-Reads, read_byte-Reads, read_time-Reads,
  read_date-Reads, read_byte_array_array-Reads, NoNull, IsTime, as_date,
}
use swift_go.Io.Separated.{join, NoSeparator, or_one_empty, split-join, All-join}
use swift_go.Html.RoundTrip as HtmlRoundTrip
use swift_go.Html.RoundTrip.{html_bytes, write-append, set-Reads}
use swift_go.Pair.{Pair}
use swift_go.Pair.RoundTrip.{Fits}
use swift_go.Results.{
  Results, result_separator, read_pair, read_pairs, read_results, decode_results, write_pair,
  encode_results,
}

pair_bytes : Pair → Bytes
pair_bytes p =
    string_bytes p.key
    ++ (date_bytes p.created ++ (date_bytes p.expires ++ byte_array_array_bytes p.values))

abbrev pairs_bytes : List Pair → Bytes
pairs_bytes [] = []
pairs_bytes (p ∷ ps) = pair_bytes p ++ pairs_bytes ps

write_pair-append : (b : Bytes) (p : Pair) → write_pair b p ≡ b ++ pair_bytes p
unfolding write_pair pair_bytes
write_pair-append b p = simp writers

foldl-write_pair : (b : Bytes) (ps : List Pair) → foldl write_pair b ps ≡ b ++ pairs_bytes ps
foldl-write_pair b [] = rw append-nil
foldl-write_pair b (p ∷ ps) =
    foldl-write_pair (write_pair b p) ps
    ∙ rw (write_pair-append b p) (append_assoc b (pair_bytes p) (pairs_bytes ps))

results_bytes : Results → Bytes
results_bytes r =
    time_bytes r.expires
    ++ (string_bytes (join result_separator r.state)
        ++ (html_bytes r.html ++ ((length r.pairs % 256) ∷ pairs_bytes r.pairs)))

encode_results-bytes : (r : Results) → encode_results r ≡ results_bytes r
unfolding encode_results results_bytes
encode_results-bytes r = simp (foldl-write_pair, write-append, writers)

-- The format can hold the pair.
pub record PairIsWritable (p : Pair) : Type 0 where
  pub key : NoNull p.key
  pub values : Fits p.values

-- A pair comes back with both its times as dates.
abbrev pub with_dates : Pair → Pair
with_dates p = record p { created = as_date p.created; expires = as_date p.expires }

read_pair-Reads : (p : Pair) → PairIsWritable p → Reads read_pair (pair_bytes p) (with_dates p)
unfolding read_pair pair_bytes
read_pair-Reads p w rest = simp (
  append_assoc,
  read_string-Reads p.key w.key,
  read_date-Reads p.created,
  read_date-Reads p.expires,
  read_byte_array_array-Reads p.values w.values.count w.values.lengths,
)

read_pairs-Reads :
    (ps : List Pair)
    → All PairIsWritable ps
    → Reads (read_pairs (length ps)) (pairs_bytes ps) (map with_dates ps)
unfolding read_pairs
read_pairs-Reads [] h = Reads-pure []
read_pairs-Reads (p ∷ ps) (hp, h) =
    Reads-bind read_pair (λ q. read_pairs (length ps) >>= λ qs. pure (q ∷ qs)) (pair_bytes p)
      (pairs_bytes ps) (with_dates p) (read_pair-Reads p hp)
      (Reads-map (read_pairs (length ps)) (◌∷◌ (with_dates p)) (pairs_bytes ps) (map with_dates ps)
        (read_pairs-Reads ps h))

-- The format can hold the state: no element holds a null or a separator.
pub record StateIsWritable (state : List Bytes) : Type 0 where
  pub nulls : All NoNull state
  pub separators : NoSeparator result_separator state

pub NoNull-state :
    (state : List Bytes) → StateIsWritable state → NoNull (join result_separator state)
NoNull-state state w = All-join (λ c. c ≢ 0) result_separator state (omega arith) w.nulls

-- The format can hold the results.
pub record IsWritable (r : Results) : Type 0 where
  pub html : HtmlRoundTrip.IsWritable r.html
  pub expires : IsTime r.expires
  pub state : StateIsWritable r.state
  pub count : length r.pairs < 256
  pub pairs : All PairIsWritable r.pairs

-- What results come back as.
abbrev pub read_back : Results → Results
read_back r = record r { pairs = map with_dates r.pairs; state = or_one_empty r.state }

read_results-Reads :
    (r : Results) → IsWritable r → Reads read_results (results_bytes r) (read_back r)
unfolding read_results results_bytes
read_results-Reads r w rest =
    let count : length r.pairs % 256 ≡ length r.pairs = omega (arith, w.count) in
    simp (
      append_assoc,
      read_time-Reads r.expires w.expires,
      read_string-Reads (join result_separator r.state) (NoNull-state r.state w.state),
      set-Reads r.html w.html,
      count,
      read_byte-Reads (length r.pairs),
      read_pairs-Reads r.pairs w.pairs,
      split-join result_separator r.state w.state.separators,
    )

-- Results that the format can hold decode to what was encoded, but for the times of the pairs,
-- which come back as dates, and an empty state, which comes back as one empty string. Bytes behind
-- the results are ignored.
pub decode_results-encode_results :
    (r : Results) (extra : Bytes)
    → IsWritable r
    → decode_results (some (encode_results r ++ extra)) ≡ ok (read_back r)
unfolding decode_results
decode_results-encode_results r extra w = rw (encode_results-bytes r, read_results-Reads r w extra)
