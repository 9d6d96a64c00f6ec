-- ===== src/Pair.antt =====
-- pair.go: the key value pairs of storage operations, their place in the buffer, and the rules that
-- choose between the pair of an operation and the pair of a cookie.
pub mod RoundTrip
pub mod Values
pub mod Conflict
use swift_go.Prelude.{
  ℕ, Bool, true, false, not, Option, none, some, List, [], ◌∷◌, ◌++◌, Result, ok, err,
  no_conflict_flag, ◌==◌, if◌then◌else◌, Bytes, codes, equal, length,
}
use swift_go.Io.{
  ◌>>=◌, Reader, pure, read_string, read_byte, read_byte_array_array, write_string, write_byte,
  write_byte_array_array, Time, zero_time, is_zero, before, after, read_time, read_date, write_time,
  write_date,
}

abbrev pub conflict_invalid : ℕ
conflict_invalid = 0

abbrev pub conflict_oldest : ℕ
conflict_oldest = 1

abbrev pub conflict_newest : ℕ
conflict_newest = 2

abbrev pub conflict_add : ℕ
conflict_add = 3

-- `Pair`, the public part. A nil slice of values and an empty one are the same here.
pub record Pair : Type 0 where
  pub key : Bytes
  pub created : Time
  pub expires : Time
  pub values : List Bytes

-- `pair`, which embeds a `Pair`.
pub record OperationPair : Type 0 where
  pub pair : Pair
  pub open pair use *
  pub conflict : ℕ
  pub cookie_write_time : Time

-- `emptyValue`, the zero value
abbrev pub empty_value : OperationPair
empty_value = record {
  pair = record { key = []; created = zero_time; expires = zero_time; values = [] };
  conflict = conflict_invalid;
  cookie_write_time = zero_time;
}

unfoldable pub conflict_name : OperationPair → Bytes
conflict_name p =
    if p.conflict == conflict_invalid
    then codes "invalid"
    else if p.conflict == conflict_newest
    then codes "newest"
    else if p.conflict == conflict_oldest
    then codes "oldest"
    else if p.conflict == conflict_add
    then codes "add"
    else []

-- Every field but the cookie write time is overwritten.
unfoldable pub set_from_buffer : OperationPair → Reader OperationPair
set_from_buffer p = do
  key ← read_string
  conflict ← read_byte
  created ← read_time
  expires ← read_date
  values ← read_byte_array_array
  pure (record {
    pair = record { key = key; created = created; expires = expires; values = values };
    conflict = conflict;
    cookie_write_time = p.cookie_write_time;
  })

unfoldable pub write_to_buffer : OperationPair → Bytes → Bytes
write_to_buffer p b =
    let b = write_string b p.key in
    let b = write_byte b p.conflict in
    let b = write_time b p.created in
    let b = write_date b p.expires in write_byte_array_array b p.values

unfoldable pub present : OperationPair → Bool
present p = not (is_zero p.created)

-- `now` is `time.Now().UTC()`.
unfoldable pub is_valid : Time → OperationPair → Bool
is_valid now p = after p.expires now

unfoldable pub is_empty : OperationPair → Bool
is_empty p = length p.values == 0

-- the loop over two lists of one length
unfoldable pub all_equal : List Bytes → List Bytes → Bool
all_equal (v ∷ vs) (w ∷ ws) = let rest = all_equal vs ws in if equal v w then rest else false
all_equal _ _ = true

unfoldable pub values_equal : List Bytes → List Bytes → Bool
values_equal a b = if length a == length b then all_equal a b else false

unfoldable pub equals : OperationPair → OperationPair → Bool
equals p o =
    if equal p.key o.key
    then (if length p.values == length o.values then all_equal p.values o.values else false)
    else false

-- the inner loop, which looks for `a` in `v`
unfoldable pub contains : List Bytes → Bytes → Bool
contains [] a = false
contains (b ∷ v) a = let rest = contains v a in if equal a b then true else rest

-- the second loop, which appends what is not there yet
unfoldable pub add_missing : List Bytes → List Bytes → List Bytes
add_missing v [] = v
add_missing v (a ∷ as') = add_missing (if contains v a then v else v ++ a ∷ []) as'

unfoldable pub merge_values : OperationPair → OperationPair → List Bytes
merge_values o c = add_missing o.values c.values

unfoldable pub merge_pairs : Time → OperationPair → OperationPair → OperationPair
merge_pairs now o c = if values_equal o.values c.values then c else record {
  pair = record {
    key = o.key;
    created = now;
    expires = if after o.expires c.expires then o.expires else c.expires;
    values = merge_values o c;
  };
  conflict = conflict_add;
  cookie_write_time = zero_time;
}

unfoldable pub resolve_conflict_oldest : OperationPair → OperationPair → OperationPair
resolve_conflict_oldest o c =
    if before o.created c.created
    then o
    else if before c.created o.created
    then c
    else if after o.cookie_write_time c.cookie_write_time
    then o
    else c

unfoldable pub resolve_conflict_newest : OperationPair → OperationPair → OperationPair
resolve_conflict_newest o c =
    if after o.created c.created
    then o
    else if after c.created o.created
    then c
    else if after o.cookie_write_time c.cookie_write_time
    then o
    else c

-- the switch on the flag of the operation's pair
unfoldable pub resolve_both : Time → OperationPair → OperationPair → Result OperationPair
resolve_both now o c =
    if o.conflict == conflict_invalid
    then err no_conflict_flag
    else if o.conflict == conflict_newest
    then ok (resolve_conflict_newest o c)
    else if o.conflict == conflict_oldest
    then ok (resolve_conflict_oldest o c)
    else if o.conflict == conflict_add
    then ok (merge_pairs now o c)
    else ok o

-- `none` is a nil pointer.
unfoldable pub resolve_conflict :
    Time → Option OperationPair → Option OperationPair → Result OperationPair
unfolding resolve_both
resolve_conflict now none none = ok empty_value
resolve_conflict now (some o) none = ok o
resolve_conflict now none (some c) = ok c
resolve_conflict now (some o) (some c) = resolve_both now o c
