-- ===== src/Io/Limits.antt =====
-- What io.go does to values that its formats cannot hold.
use swift_go.Prelude.{
  ℕ, suc, zero, ◌+◌, ◌-◌, ◌*◌, ◌/◌, ◌%◌, ◌^◌, ◌≤◌, ◌<◌, ◌≡◌, refl, ap, arith, List, [], ◌∷◌, ◌++◌,
  ok, Bytes, length, take, drop,
}
use swift_go.Io.Codec.{next, read_byte_array, write_byte_array}
use swift_go.Io.Clock.{Time, day, date_base, date_number, read_date, write_date}
use swift_go.Io.Encoding.{byte_array_bytes, write_byte_array-append, write_date-append}
use swift_go.Io.RoundTrip.{as_date, read_date-Reads}

take-append_le {ℓ} :
    {A : Type ℓ} (k : ℕ) (xs ys : List A)
    → k ≤ length xs
    → (take k (xs ++ ys) ≡ take k xs) × (drop k (xs ++ ys) ≡ drop k xs ++ ys)
take-append_le zero xs ys h = (refl, refl)
take-append_le (suc k) [] ys h = absurd (omega arith)
take-append_le (suc k) (x ∷ xs) ys h =
    let (t, d) = take-append_le k xs ys (omega arith) in (ap (◌∷◌ x) t, d)

read-byte_array_bytes :
    (v rest : Bytes) (k : ℕ)
    → k < 65536
    → length v ≡ 65536 + k
    → read_byte_array (byte_array_bytes v ++ rest) ≡ ok (take k v, drop k v ++ rest)
unfolding read_byte_array byte_array_bytes next
read-byte_array_bytes v rest k h e =
    let wraps : length v % 65536 ≡ k = omega arith in
    let digits : k % 256 + 256 * (k / 256 % 256 + 0) ≡ k = omega arith in
    let (front, back) = take-append_le k v rest (omega arith) in
    rw (wraps, digits, front, back) refl

-- Where `writeByteArray` writes an array of 65536 + k bytes, for k below 65536, to an empty buffer
-- and other bytes follow, `readByteArray` gives the first k bytes of the array, and its last 65536
-- bytes stay in the buffer, before what follows.
pub read_byte_array_wraps :
    (v rest : Bytes) (k : ℕ)
    → k < 65536
    → length v ≡ 65536 + k
    → read_byte_array (write_byte_array [] v ++ rest) ≡ ok (take k v, drop k v ++ rest)
read_byte_array_wraps v rest k h e =
    rw (write_byte_array-append [] v) (read-byte_array_bytes v rest k h e)

-- Within the 65536 days from 1 January 2020 on, a time comes back as the midnight before it.
pub as_date_floor :
    (t : Time)
    → date_base ≤ t
    → t < date_base + 65536 * day
    → as_date t ≡ date_base + (t - date_base) / day * day
unfolding date_number
as_date_floor t lo hi = ground arith

as_date_saturates : (t : Time) → t + 2 ^ 63 ≤ date_base → as_date t ≡ date_base + 24321 * day
unfolding date_number
as_date_saturates t h = ground arith

-- The zero time, and every other time 2^63 nanoseconds or more before 2020, that `writeDate` writes
-- to an empty buffer is read back by `readDate` as 3 August 2086, day 24321 from 2020 on, and the
-- bytes that follow stay.
pub read_date-write_date_before :
    (t : Time) (rest : Bytes)
    → t + 2 ^ 63 ≤ date_base
    → read_date (write_date [] t ++ rest) ≡ ok (date_base + 24321 * day, rest)
read_date-write_date_before t rest h =
    rw (write_date-append [] t, ← as_date_saturates t h) (read_date-Reads t rest)
