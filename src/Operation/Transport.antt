-- ===== src/Operation/Transport.antt =====
-- From node to node: what is encrypted for the next node, or into a cookie, is read there.
use swift_go.Prelude.{
  ◌≡◌, ◌≢◌, refl, ◌∙◌, some, [], ◌∷◌, ◌++◌, append-nil, ok, bind_assoc, Bytes, length,
}
use swift_go.Io.{Time, write_time, read_time}
use swift_go.Io.Encoding.{time_bytes, write_time-append}
use swift_go.Io.RoundTrip.{Reads, Reads-bind, IsTime, read_time-Reads}
use swift_go.Pair.{OperationPair, empty_value, set_from_buffer, write_to_buffer}
use swift_go.Pair.RoundTrip as PairRoundTrip
use swift_go.Pair.RoundTrip.{pair_bytes, write_to_buffer-append, set_from_buffer-Reads, read_back}
use swift_go.Node.{Node, Gcm, Zlib, nonce_size, encode, decode}
use swift_go.Node.Crypto.{decode-encode}
use swift_go.Operation.{Operation, new_operation, as_byte_array, new_operation_from_byte_array}
use swift_go.Operation.RoundTrip.{IsWritable, arrived, set_from_byte_array-as_byte_array}
use swift_go.Operation.Arrival.{
  read_cookie, pair_of, get_value_from_cookie, new_operation_from_string,
}

-- the pair that a cookie written at `t` gives
abbrev pub from_cookie : Time → OperationPair → OperationPair
from_cookie t p = read_back p (record empty_value { cookie_write_time = t })

read_cookie-Reads :
    (t : Time) (p : OperationPair)
    → IsTime t
    → PairRoundTrip.IsWritable p
    → Reads read_cookie (time_bytes t ++ pair_bytes p) (from_cookie t p)
unfolding read_cookie
read_cookie-Reads t p ht w =
    Reads-bind read_time (λ u. set_from_buffer (record empty_value { cookie_write_time = u }))
      (time_bytes t) (pair_bytes p) t (read_time-Reads t ht)
      (set_from_buffer-Reads p (record empty_value { cookie_write_time = t }) w)

pair_of_bytes : (b : Bytes) (p : OperationPair) → b ≢ [] → Reads read_cookie b p → pair_of b ≡ ok p
pair_of_bytes [] p ne r = absurd (ne refl)
pair_of_bytes (x ∷ b) p ne r = rw (← append-nil b) (rw (r []) refl)

time_bytes_ne_nil : (t : Time) (p : OperationPair) → time_bytes t ++ pair_bytes p ≢ []
unfolding time_bytes
time_bytes_ne_nil t p h = cc

module _ (g : Gcm) (z : Zlib) (n : Node) (r : Bytes) where
  -- An operation that its format can hold, encrypted for the node `n` with a nonce of the right
  -- size, arrives at `n` as a new operation with the persisted fields, but that a state without
  -- elements comes back as one empty element. Its pairs are the resolved pairs as they are read
  -- back: without a cookie write time, and with the expiry as a date, that of the zero time where a
  -- pair has no values.
  pub new_operation_from_string-encode :
      (now : Time) (o : Operation)
      → length r ≡ nonce_size
      → IsWritable o
      → new_operation_from_string g z now n (encode g z (ok r) n (as_byte_array o))
        ≡ ok (arrived (new_operation now n) o)
  unfolding new_operation_from_string new_operation_from_byte_array
  new_operation_from_string-encode now o e w =
      bind_assoc (encode g z (ok r) n (as_byte_array o)) (decode g z n)
        (λ d. new_operation_from_byte_array now n (some d))
      ∙ rw (decode-encode g z n (as_byte_array o) r e)
          (set_from_byte_array-as_byte_array (new_operation now n) o w)

  -- A pair that its format can hold, encoded with the time `t` for a cookie of the node `n` with a
  -- nonce of the right size, is read from that cookie, with `t` as its cookie write time and its
  -- expiry as a date.
  pub get_value_from_cookie-encode :
      (t : Time) (p : OperationPair)
      → length r ≡ nonce_size
      → IsTime t
      → PairRoundTrip.IsWritable p
      → get_value_from_cookie g z n (encode g z (ok r) n (write_to_buffer p (write_time [] t)))
        ≡ ok (from_cookie t p)
  unfolding get_value_from_cookie
  get_value_from_cookie-encode t p e ht w =
      bind_assoc (encode g z (ok r) n (write_to_buffer p (write_time [] t))) (decode g z n) pair_of
      ∙ rw
          (
            decode-encode g z n (write_to_buffer p (write_time [] t)) r e,
            write_to_buffer-append p (write_time [] t),
            write_time-append [] t,
          )
          (pair_of_bytes (time_bytes t ++ pair_bytes p) (from_cookie t p) (time_bytes_ne_nil t p)
            (read_cookie-Reads t p ht w))
