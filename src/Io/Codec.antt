-- ===== src/Io/Codec.antt =====
-- The readers and writers of bytes, numbers, strings and arrays.
use swift_go.Prelude.{
  ℕ, zero, suc, ◌+◌, ◌*◌, ◌/◌, ◌%◌, List, [], ◌∷◌, ◌++◌, foldl, Result, ok, err, eof, wrong_count,
  ◌==◌, if◌then◌else◌, Bytes, length, take, drop, bind,
}

abbrev pub Reader {ℓ} : Type ℓ → Type ℓ
Reader A = Bytes → Result (A × Bytes)

abbrev pub pure {ℓ} : {A : Type ℓ} → A → Reader A
pure a b = ok (a, b)

infixl 5 ◌>>=◌
abbrev pub ◌>>=◌ {ℓ κ} : {A : Type ℓ} {B : Type κ} → Reader A → (A → Reader B) → Reader B
◌>>=◌ m f b = bind (m b) λ (a, rest). f a rest

-- `binary.LittleEndian`: the number that the bytes spell, and the low `k` bytes of a number.
unfoldable pub le_value : Bytes → ℕ
le_value [] = 0
le_value (x ∷ d) = x + 256 * le_value d

unfoldable pub le_put : ℕ → ℕ → Bytes
le_put zero v = []
le_put (suc k) v = (v % 256) ∷ le_put k (v / 256)

-- `b.Next(n)`: the next `n` bytes, or all that are left.
unfoldable pub next : ℕ → Reader Bytes
next n b = ok (take n b, drop n b)

-- `d := b.Next(w)`, and the error unless all `w` bytes were there.
unfoldable pub read_fixed : ℕ → Reader ℕ
read_fixed w b =
    if length (take w b) == w
    then ok (le_value (take w b), drop w b)
    else err (wrong_count (length (take w b)))

unfoldable pub read_byte : Reader ℕ
unfolding read_fixed le_value
read_byte = read_fixed 1

unfoldable pub read_uint16 : Reader ℕ
unfolding read_fixed le_value
read_uint16 = read_fixed 2

unfoldable pub read_uint32 : Reader ℕ
unfolding read_fixed le_value
read_uint32 = read_fixed 4

unfoldable pub read_uint64 : Reader ℕ
unfolding read_fixed le_value
read_uint64 = read_fixed 8

-- `b.ReadByte()`
unfoldable pub next_byte : Reader ℕ
next_byte [] = err eof
next_byte (x ∷ b) = ok (x, b)

abbrev cons_first : ℕ → Result (Bytes × Bytes) → Result (Bytes × Bytes)
cons_first x (ok (s, rest)) = ok (x ∷ s, rest)
cons_first x (err e) = err e

-- `b.ReadBytes(0)` less the delimiter
unfoldable pub read_string : Reader Bytes
read_string [] = err eof
read_string (x ∷ b) = let rest = read_string b in if x == 0 then ok ([], b) else cons_first x rest

unfoldable pub read_byte_array : Reader Bytes
unfolding read_uint16 next
read_byte_array = do l ← read_uint16; next l

-- the loop over the arrays that are still to be read
unfoldable pub read_arrays : ℕ → Reader (List Bytes)
unfolding read_byte_array
read_arrays zero = pure []
read_arrays (suc c) = do v ← read_byte_array; vs ← read_arrays c; pure (v ∷ vs)

unfoldable pub read_byte_array_array : Reader (List Bytes)
unfolding read_uint16 read_arrays
read_byte_array_array = do c ← read_uint16; read_arrays c

unfoldable pub write_byte : Bytes → ℕ → Bytes
write_byte b i = b ++ i ∷ []

unfoldable pub write_uint16 : Bytes → ℕ → Bytes
unfolding le_put
write_uint16 b i = b ++ le_put 2 i

unfoldable pub write_uint32 : Bytes → ℕ → Bytes
unfolding le_put
write_uint32 b i = b ++ le_put 4 i

unfoldable pub write_uint64 : Bytes → ℕ → Bytes
unfolding le_put
write_uint64 b i = b ++ le_put 8 i

unfoldable pub write_string : Bytes → Bytes → Bytes
write_string b s = (b ++ s) ++ 0 ∷ []

-- `uint16(len(v))` keeps the low sixteen bits of the length.
unfoldable pub write_byte_array : Bytes → Bytes → Bytes
unfolding write_uint16
write_byte_array b v = write_uint16 b (length v % 65536) ++ v

unfoldable pub write_byte_array_array : Bytes → List Bytes → Bytes
unfolding write_uint16 write_byte_array
write_byte_array_array b v = foldl write_byte_array (write_uint16 b (length v % 65536)) v
