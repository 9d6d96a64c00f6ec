-- ===== src/Io/RoundTrip.antt =====
-- What the writers of io.go append is read back by the readers, in front of any other bytes.
use mathlib.Core.Path.{subst}
use native.Mathlib.Nat.{pow-suc}
use swift_go.Prelude.{
  ℕ, zero, suc, ◌+◌, ◌*◌, ◌/◌, ◌%◌, ◌^◌, ◌<◌, ◌≡◌, refl, ap, ◌∙◌, ◌≢◌, arith, List, [], ◌∷◌, ◌++◌,
  reverse-reverse, append_assoc, ok, some, Bytes, length, length-append, length-reverse, take_exact,
  drop_exact, All,
}
use swift_go.Io.Codec.{
  Reader, pure, ◌>>=◌, le_value, le_put, next, read_fixed, read_byte, read_uint16, read_uint32,
  read_uint64, read_string, read_byte_array, read_arrays, read_byte_array_array,
}
use swift_go.Io.Clock.{
  Time, second, day, date_base, be_put, be_value, gob_encode, gob_decode, decoded_or_zero,
  read_time, read_date, date_number,
}
use swift_go.Io.Encoding.{
  string_bytes, byte_array_bytes, arrays_bytes, byte_array_array_bytes, time_bytes, date_bytes,
}

-- `p` reads `a` off the bytes `x` and leaves what follows them.
abbrev pub Reads {ℓ} : {A : Type ℓ} → Reader A → Bytes → A → Type ℓ
Reads p x a = (rest : Bytes) → p (x ++ rest) ≡ ok (a, rest)

pub Reads-pure {ℓ} : {A : Type ℓ} (a : A) → Reads (pure a) [] a
Reads-pure a rest = refl

-- One part after another.
pub Reads-bind {ℓ κ} :
    {A : Type ℓ} {B : Type κ} (m : Reader A) (f : A → Reader B) (x y : Bytes) (a : A) {b : B}
    → Reads m x a
    → Reads (f a) y b
    → Reads (m >>= f) (x ++ y) b
Reads-bind m f x y a hm hf rest = rw (append_assoc x y rest, hm (y ++ rest)) (hf rest)

pub Reads-map {ℓ κ} :
    {A : Type ℓ} {B : Type κ} (m : Reader A) (f : A → B) (x : Bytes) (a : A)
    → Reads m x a
    → Reads (m >>= λ c. pure (f c)) x (f a)
Reads-map m f x a h rest = rw (h rest)

length-le_put : (k v : ℕ) → length (le_put k v) ≡ k
unfolding le_put
length-le_put zero v = refl
length-le_put (suc k) v = ap suc (length-le_put k (v / 256))

le_value-le_put : (k v : ℕ) → v < 256 ^ k → le_value (le_put k v) ≡ v
unfolding le_value le_put
le_value-le_put zero v h = omega arith
le_value-le_put (suc k) v h =
    omega (arith, le_value-le_put k (v / 256) (omega (arith, pow-suc 256 k)))

read_fixed-Reads : (w v : ℕ) → v < 256 ^ w → Reads (read_fixed w) (le_put w v) v
unfolding read_fixed
read_fixed-Reads w v h rest =
    rw
      (
        take_exact w (le_put w v) rest (length-le_put w v),
        drop_exact w (le_put w v) rest (length-le_put w v),
        length-le_put w v,
        le_value-le_put w v h,
      )
      (ground arith)

pub read_byte-Reads : (x : ℕ) → Reads read_byte (x ∷ []) x
unfolding read_byte
read_byte-Reads x rest = ground arith

pub read_uint16-Reads : (v : ℕ) → v < 65536 → Reads read_uint16 (le_put 2 v) v
read_uint16-Reads v h = unfold read_uint16 in read_fixed-Reads 2 v h

pub read_uint32-Reads : (v : ℕ) → v < 2 ^ 32 → Reads read_uint32 (le_put 4 v) v
read_uint32-Reads v h = unfold read_uint32 in read_fixed-Reads 4 v h

pub read_uint64-Reads : (v : ℕ) → v < 2 ^ 64 → Reads read_uint64 (le_put 8 v) v
read_uint64-Reads v h = unfold read_uint64 in read_fixed-Reads 8 v h

-- A string that a null terminator can delimit.
abbrev pub NoNull : Bytes → Type 0
NoNull = All (λ x. x ≢ 0)

pub read_string-Reads : (s : Bytes) → NoNull s → Reads read_string (string_bytes s) s
unfolding read_string string_bytes
read_string-Reads [] h rest = refl
read_string-Reads (x ∷ s) (hx, hs) rest = ground (arith, read_string-Reads s hs rest)

next-Reads : (n : ℕ) (v : Bytes) → length v ≡ n → Reads (next n) v v
unfolding next
next-Reads n v e rest = rw (take_exact n v rest e, drop_exact n v rest e)

-- An array whose length the two bytes of its prefix can hold.
abbrev pub IsShort {ℓ} : {A : Type ℓ} → List A → Type 0
IsShort v = length v < 65536

mod_short : (n : ℕ) → n < 65536 → n % 65536 ≡ n
mod_short n h = omega arith

pub read_byte_array-Reads : (v : Bytes) → IsShort v → Reads read_byte_array (byte_array_bytes v) v
unfolding read_byte_array byte_array_bytes
read_byte_array-Reads v h = rw (mod_short (length v) h) (
    Reads-bind read_uint16 next (le_put 2 (length v)) v (length v) (read_uint16-Reads (length v) h)
      (next-Reads (length v) v refl))

read_arrays-Reads :
    (vs : List Bytes) → All IsShort vs → Reads (read_arrays (length vs)) (arrays_bytes vs) vs
unfolding read_arrays arrays_bytes
read_arrays-Reads [] h = Reads-pure []
read_arrays-Reads (v ∷ vs) (hv, hvs) =
    Reads-bind read_byte_array (λ w. read_arrays (length vs) >>= λ ws. pure (w ∷ ws))
      (byte_array_bytes v) (arrays_bytes vs) v (read_byte_array-Reads v hv)
      (Reads-map (read_arrays (length vs)) (◌∷◌ v) (arrays_bytes vs) vs (read_arrays-Reads vs hvs))

pub read_byte_array_array-Reads :
    (vs : List Bytes)
    → IsShort vs
    → All IsShort vs
    → Reads read_byte_array_array (byte_array_array_bytes vs) vs
unfolding read_byte_array_array byte_array_array_bytes
read_byte_array_array-Reads vs h hs = rw (mod_short (length vs) h) (
    Reads-bind read_uint16 read_arrays (le_put 2 (length vs)) (arrays_bytes vs) (length vs)
      (read_uint16-Reads (length vs) h) (read_arrays-Reads vs hs))

be_value-be_put : (k v : ℕ) → v < 256 ^ k → be_value (be_put k v) ≡ v
unfolding be_value be_put
be_value-be_put k v h = rw (reverse-reverse (le_put k v)) (le_value-le_put k v h)

length-be_put : (k v : ℕ) → length (be_put k v) ≡ k
unfolding be_put
length-be_put k v = length-reverse (le_put k v) ∙ length-le_put k v

-- A time that Go represents.
abbrev pub IsTime : Time → Type 0
IsTime t = t < 2 ^ 64 * second

unbias : (s : ℕ) → s < 2 ^ 64 → ((s + 2 ^ 63) % 2 ^ 64 + 2 ^ 63) % 2 ^ 64 ≡ s
unbias s h = omega arith

length-gob_encode : (t : Time) → length (gob_encode t) ≡ 15
unfolding gob_encode
length-gob_encode t =
    let secs = be_put 8 ((t / second + 2 ^ 63) % 2 ^ 64) in
    let nsecs = be_put 4 (t % second) in
    omega (
      arith,
      length-append secs (nsecs ++ 255 ∷ 255 ∷ []),
      length-append nsecs (255 ∷ 255 ∷ []),
      length-be_put 8 ((t / second + 2 ^ 63) % 2 ^ 64),
      length-be_put 4 (t % second),
    )

-- A version byte and two numbers in fourteen bytes decode to the instant that they spell.
gob_decode_parts :
    (secs nsecs : Bytes)
    → length secs ≡ 8
    → length nsecs ≡ 4
    → gob_decode (1 ∷ (secs ++ (nsecs ++ 255 ∷ 255 ∷ [])))
      ≡ some ((be_value secs + 2 ^ 63) % 2 ^ 64 * second + be_value nsecs)
unfolding gob_decode
gob_decode_parts secs nsecs hs hn = rw (
  length-append secs (nsecs ++ 255 ∷ 255 ∷ []),
  length-append nsecs (255 ∷ 255 ∷ []),
  hs,
  hn,
  take_exact 8 secs (nsecs ++ 255 ∷ 255 ∷ []) hs,
  drop_exact 8 secs (nsecs ++ 255 ∷ 255 ∷ []) hs,
  take_exact 4 nsecs (255 ∷ 255 ∷ []) hn,
)

-- Every instant that Go represents survives its gob form.
pub gob_decode-gob_encode : (t : Time) → IsTime t → gob_decode (gob_encode t) ≡ some t
unfolding gob_encode
gob_decode-gob_encode t h =
    gob_decode_parts (be_put 8 ((t / second + 2 ^ 63) % 2 ^ 64)) (be_put 4 (t % second))
      (length-be_put 8 ((t / second + 2 ^ 63) % 2 ^ 64)) (length-be_put 4 (t % second))
    ∙ rw
        (
          be_value-be_put 8 ((t / second + 2 ^ 63) % 2 ^ 64) (omega arith),
          be_value-be_put 4 (t % second) (omega arith),
          unbias (t / second) (omega arith),
        )
        (ap some (omega arith))

pub read_time-Reads : (t : Time) → IsTime t → Reads read_time (time_bytes t) t
unfolding read_time time_bytes
read_time-Reads t h =
    subst (Reads read_time (time_bytes t)) (ap decoded_or_zero (gob_decode-gob_encode t h)) (
      Reads-map read_byte_array (λ d. decoded_or_zero (gob_decode d)) (time_bytes t) (gob_encode t)
        (read_byte_array-Reads (gob_encode t) (omega (arith, length-gob_encode t))))

-- What a time that is written as a date comes back as.
abbrev pub as_date : Time → Time
as_date t = date_base + date_number t * day

date_number_small : (t : Time) → date_number t < 65536
unfolding date_number
date_number_small t = ground arith

pub read_date-Reads : (t : Time) → Reads read_date (date_bytes t) (as_date t)
unfolding read_date date_bytes
read_date-Reads t rest = ap (λ (n : ℕ). ok (date_base + n * day, rest)) (omega arith)
