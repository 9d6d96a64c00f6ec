-- ===== src/Io/Encoding.antt =====
-- What the writers of io.go append, written out: every writer keeps the buffer and appends.
use swift_go.Prelude.{
  ℕ, ◌/◌, ◌%◌, ◌≡◌, refl, ◌∙◌, List, [], ◌∷◌, ◌++◌, foldl, append-nil, append_assoc, Bytes, length,
}
use swift_go.Io.Codec.{
  le_put, write_byte, write_uint16, write_string, write_byte_array, write_byte_array_array,
}
use swift_go.Io.Clock.{Time, gob_encode, write_time, date_number, write_date}

unfoldable pub string_bytes : Bytes → Bytes
string_bytes s = s ++ 0 ∷ []

unfoldable pub byte_array_bytes : Bytes → Bytes
unfolding le_put
byte_array_bytes v = le_put 2 (length v % 65536) ++ v

unfoldable pub arrays_bytes : List Bytes → Bytes
unfolding byte_array_bytes
arrays_bytes [] = []
arrays_bytes (v ∷ vs) = byte_array_bytes v ++ arrays_bytes vs

unfoldable pub byte_array_array_bytes : List Bytes → Bytes
unfolding le_put arrays_bytes
byte_array_array_bytes vs = le_put 2 (length vs % 65536) ++ arrays_bytes vs

unfoldable pub time_bytes : Time → Bytes
unfolding byte_array_bytes
time_bytes t = byte_array_bytes (gob_encode t)

unfoldable pub date_bytes : Time → Bytes
date_bytes t = (date_number t / 256) ∷ (date_number t % 256) ∷ []

module _ (b : Bytes) where
  pub write_byte-append : (i : ℕ) → write_byte b i ≡ b ++ i ∷ []
  unfolding write_byte
  write_byte-append i = refl

  pub write_string-append : (s : Bytes) → write_string b s ≡ b ++ string_bytes s
  unfolding write_string string_bytes
  write_string-append s = append_assoc b s (0 ∷ [])

  pub write_byte_array-append : (v : Bytes) → write_byte_array b v ≡ b ++ byte_array_bytes v
  unfolding write_byte_array byte_array_bytes
  write_byte_array-append v = append_assoc b _ v

foldl-write_byte_array :
    (b : Bytes) (vs : List Bytes) → foldl write_byte_array b vs ≡ b ++ arrays_bytes vs
unfolding arrays_bytes
foldl-write_byte_array b [] = rw append-nil
foldl-write_byte_array b (v ∷ vs) =
    foldl-write_byte_array (write_byte_array b v) vs
    ∙ rw (write_byte_array-append b v) (append_assoc b (byte_array_bytes v) (arrays_bytes vs))

module _ (b : Bytes) where
  pub write_byte_array_array-append :
      (vs : List Bytes) → write_byte_array_array b vs ≡ b ++ byte_array_array_bytes vs
  unfolding write_byte_array_array byte_array_array_bytes write_uint16
  write_byte_array_array-append vs = simp (foldl-write_byte_array, append_assoc)

  pub write_time-append : (t : Time) → write_time b t ≡ b ++ time_bytes t
  unfolding write_time time_bytes
  write_time-append t = write_byte_array-append b (gob_encode t)

  pub write_date-append : (t : Time) → write_date b t ≡ b ++ date_bytes t
  unfolding write_date date_bytes write_byte
  write_date-append t = append_assoc b _ _

-- With these a chain of writers becomes the buffer and the parts behind it.
pub ruleset writers = (
  write_byte-append, write_string-append, write_byte_array_array-append, write_time-append,
  write_date-append, append_assoc, append-nil,
)
