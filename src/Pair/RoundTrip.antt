-- ===== src/Pair/RoundTrip.antt =====
-- A pair is read back as it was written.
use swift_go.Prelude.{◌≡◌, List, ◌∷◌, ◌++◌, append_assoc, Bytes, All}
use swift_go.Io.Encoding.{string_bytes, time_bytes, date_bytes, byte_array_array_bytes, writers}
use swift_go.Io.RoundTrip.{
  Reads, read_string-Reads, read_byte-Reads, read_time-Reads, read_date-Reads,
  read_byte_array_array-Reads, NoNull, IsShort, IsTime, as_date,
}
use swift_go.Pair.{OperationPair, set_from_buffer, write_to_buffer}

pub pair_bytes : OperationPair → Bytes
pair_bytes p =
    string_bytes p.key
    ++ (p.conflict
        ∷ (time_bytes p.created ++ (date_bytes p.expires ++ byte_array_array_bytes p.values)))

pub write_to_buffer-append :
    (p : OperationPair) (b : Bytes) → write_to_buffer p b ≡ b ++ pair_bytes p
unfolding write_to_buffer pair_bytes
write_to_buffer-append p b = simp writers

-- The format has room for the values.
pub record Fits (values : List Bytes) : Type 0 where
  pub count : IsShort values
  pub lengths : All IsShort values

-- The format can hold the pair.
pub record IsWritable (p : OperationPair) : Type 0 where
  pub key : NoNull p.key
  pub created : IsTime p.created
  pub values : Fits p.values

-- What a pair comes back as: with its expiry as a date, and the cookie write time of the receiver.
abbrev pub read_back : OperationPair → OperationPair → OperationPair
read_back p q = record p {
  pair = record (p.pair) { expires = as_date p.expires };
  cookie_write_time = q.cookie_write_time;
}

-- A pair that the format can hold is read back, but for its expiry, which comes back as a date,
-- and its cookie write time, which is that of the receiver.
pub set_from_buffer-Reads :
    (p q : OperationPair) → IsWritable p → Reads (set_from_buffer q) (pair_bytes p) (read_back p q)
unfolding set_from_buffer pair_bytes
set_from_buffer-Reads p q w rest = simp (
  append_assoc,
  read_string-Reads p.key w.key,
  read_byte-Reads p.conflict,
  read_time-Reads p.created w.created,
  read_date-Reads p.expires,
  read_byte_array_array-Reads p.values w.values.count w.values.lengths,
)
