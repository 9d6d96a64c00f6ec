-- ===== src/Examples/Codec.antt =====
-- The encodings on concrete values.
use swift_go.Prelude.{
  ℕ, ◌≡◌, ◌≢◌, refl, arith, ◌+◌, ◌*◌, some, [], ◌∷◌, ◌++◌, ok, Bytes, length, take, drop, zero, suc,
  ap,
}
use swift_go.Io.{
  read_byte_array, write_byte_array, read_date, write_date, date_base, day, zero_time, write_time,
}
use swift_go.Io.Limits.{read_byte_array_wraps, read_date-write_date_before}
use swift_go.Html.{post_message_on_complete, use_home_node, has_bit}
use swift_go.Pair.{write_to_buffer}
use swift_go.Node.{encode}
use swift_go.Results.{Results, encode_results, decode_results}
use swift_go.Results.RoundTrip as ResultsRoundTrip
use swift_go.Results.RoundTrip.{decode_results-encode_results, read_back}
use swift_go.Operation.{as_byte_array, new_operation}
use swift_go.Operation.RoundTrip.{IsWritable, arrived}
use swift_go.Operation.Arrival.{new_operation_from_string, get_value_from_cookie}
use swift_go.Operation.Transport.{
  new_operation_from_string-encode, get_value_from_cookie-encode, from_cookie,
}
use swift_go.Examples.{
  operation, plain_gcm, plain_zlib, node_b, one_nonce, pair_x, pair_x-IsWritable, plain_html,
}

pub operation-IsWritable : IsWritable operation
operation-IsWritable = record {
  time_stamp = omega arith;
  return_url = (omega arith, tt);
  access_node = (omega arith, tt);
  html = record {
    title = (omega arith, tt);
    message = tt;
    background_color = tt;
    message_color = tt;
    progress_color = tt;
  };
  prev_node = tt;
  home_node = (omega arith, tt);
  state = record {
    nulls = ((omega arith, tt), tt);
    separators = (((λ e. absurd (omega arith)), tt), tt);
  };
  count = omega arith;
  resolved = (pair_x-IsWritable, tt);
}

new_operation_from_string-encode_example :
    new_operation_from_string plain_gcm plain_zlib 60 node_b
      (encode plain_gcm plain_zlib (ok one_nonce) node_b (as_byte_array operation))
    ≡ ok (arrived (new_operation 60 node_b) operation)
new_operation_from_string-encode_example =
    new_operation_from_string-encode plain_gcm plain_zlib node_b one_nonce 60 operation refl
      operation-IsWritable

get_value_from_cookie-encode_example :
    get_value_from_cookie plain_gcm plain_zlib node_b (
      encode plain_gcm plain_zlib (ok one_nonce) node_b (write_to_buffer pair_x (write_time [] 60)))
    ≡ ok (from_cookie 60 pair_x)
get_value_from_cookie-encode_example =
    get_value_from_cookie-encode plain_gcm plain_zlib node_b one_nonce 60 pair_x refl (omega arith)
      pair_x-IsWritable

abbrev pub results : Results
results = record {
  pairs = pair_x.pair ∷ [];
  expires = 90;
  state = (b's' ∷ []) ∷ [];
  html = plain_html;
}

pub results-IsWritable : ResultsRoundTrip.IsWritable results
results-IsWritable = record {
  html = operation-IsWritable.html;
  expires = omega arith;
  state = operation-IsWritable.state;
  count = omega arith;
  pairs = (record { key = (omega arith, tt); values = pair_x-IsWritable.values }, tt);
}

decode_results-encode_results_example :
    decode_results (some (encode_results results ++ 9 ∷ [])) ≡ ok (read_back results)
decode_results-encode_results_example =
    decode_results-encode_results results (9 ∷ []) results-IsWritable

read_date-write_date_before_example :
    read_date (write_date [] zero_time ++ 9 ∷ []) ≡ ok (date_base + 24321 * day, 9 ∷ [])
read_date-write_date_before_example = read_date-write_date_before zero_time (9 ∷ []) (omega arith)

flags_differ : use_home_node plain_html ≢ post_message_on_complete plain_html
unfolding use_home_node post_message_on_complete has_bit
flags_differ = λ e. cc

abbrev long_array : ℕ → Bytes
long_array zero = []
long_array (suc n) = 1 ∷ long_array n

length-long_array : (n : ℕ) → length (long_array n) ≡ n
length-long_array zero = refl
length-long_array (suc n) = ap suc (length-long_array n)

read_byte_array_wraps_example :
    read_byte_array (write_byte_array [] (long_array 65538) ++ [])
    ≡ ok (take 2 (long_array 65538), drop 2 (long_array 65538) ++ [])
read_byte_array_wraps_example =
    read_byte_array_wraps (long_array 65538) [] 2 (omega arith) (length-long_array 65538)
