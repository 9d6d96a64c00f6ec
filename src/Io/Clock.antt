-- ===== src/Io/Clock.antt =====
-- `time.Time` and its two encodings in io.go. An instant is the number of nanoseconds since the
-- earliest one that Go represents, 2^63 seconds before the zero time (1 January of year 1, UTC).
-- The location of a time is not modelled: whatever the code writes is in UTC. `GobEncode` never
-- writes 10^9 or more nanoseconds; where a decoded field holds so many, they carry here.
use Prim.Native.Nat.{min}
use swift_go.Prelude.{
  ℕ, ◌+◌, ◌-◌, ◌*◌, ◌/◌, ◌%◌, ◌^◌, Bool, ◌&&◌, Option, none, some, [], ◌∷◌, ◌++◌, reverse, leb, ltb,
  ◌==◌, if◌then◌else◌, Bytes, length, take, drop,
}
use swift_go.Io.Codec.{
  Reader, pure, ◌>>=◌, le_value, le_put, next_byte, read_byte_array, write_byte, write_byte_array,
}

abbrev pub Time : Type 0
Time = ℕ

-- 2^63 seconds
abbrev pub zero_time : Time
zero_time = 9_223_372_036_854_775_808_000_000_000

unfoldable pub is_zero : Time → Bool
is_zero t = t == zero_time

-- `t.Before(u)` and `t.After(u)`
abbrev pub before : Time → Time → Bool
before t u = ltb t u

abbrev pub after : Time → Time → Bool
after t u = ltb u t

abbrev pub second : ℕ
second = 1_000_000_000

-- `time.Hour * 24`
abbrev pub day : ℕ
day = 86_400_000_000_000

-- `ioDateBase`: 1 January 2020 is 737424 days after the zero time.
abbrev pub date_base : Time
date_base = zero_time + 737_424 * day

-- `binary.BigEndian`, which the gob format uses
unfoldable pub be_put : ℕ → ℕ → Bytes
unfolding le_put
be_put k v = reverse (le_put k v)

unfoldable pub be_value : Bytes → ℕ
unfolding le_value
be_value d = le_value (reverse d)

-- `t.GobEncode()` of Go 1.8 to 1.19 on a time in UTC: the version, the seconds since the zero time
-- in two's complement, the nanoseconds, and -1 for the offset.
unfoldable pub gob_encode : Time → Bytes
unfolding be_put
gob_encode t =
    1 ∷ (be_put 8 ((t / second + 2 ^ 63) % 2 ^ 64) ++ (be_put 4 (t % second) ++ 255 ∷ 255 ∷ []))

-- `t.GobDecode(d)`: `none` on any of its three errors.
unfoldable pub gob_decode : Bytes → Option Time
unfolding be_value
gob_decode [] = none
gob_decode (version ∷ d) =
    if version == 1 && length d == 14
    then some ((be_value (take 8 d) + 2 ^ 63) % 2 ^ 64 * second + be_value (take 4 (drop 8 d)))
    else none

-- An error of `GobDecode` is dropped and leaves the zero time.
unfoldable pub decoded_or_zero : Option Time → Time
decoded_or_zero none = zero_time
decoded_or_zero (some t) = t

unfoldable pub read_time : Reader Time
unfolding read_byte_array gob_decode decoded_or_zero
read_time = do d ← read_byte_array; pure (decoded_or_zero (gob_decode d))

unfoldable pub write_time : Bytes → Time → Bytes
unfolding write_byte_array gob_encode
write_time b t = write_byte_array b (gob_encode t)

unfoldable pub read_date : Reader Time
unfolding next_byte
read_date = do h ← next_byte; l ← next_byte; pure (date_base + (h * 256 + l) * day)

-- `int(t.Sub(ioDateBase).Hours() / 24)`, as its low sixteen bits: `Sub` stops at the ends of
-- int64 and the conversion truncates towards zero. The quotient is exact here; the float64 one
-- rounds up to the next whole day within two microseconds below midnight.
unfoldable pub date_number : Time → ℕ
date_number t =
    if leb date_base t
    then min (t - date_base) (2 ^ 63 - 1) / day % 65536
    else (65536 - min (date_base - t) (2 ^ 63) / day % 65536) % 65536

unfoldable pub write_date : Bytes → Time → Bytes
unfolding write_byte date_number
write_date b t = write_byte (write_byte b (date_number t / 256)) (date_number t % 256)
