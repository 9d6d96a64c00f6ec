-- ===== src/Pair/Values.antt =====
-- Comparing and merging lists of values.
use swift_go.Prelude.{
  ◌≡◌, refl, sym, ◌∙◌, ◌↔◌, true, false, ◌||◌, arith, List, [], ◌∷◌, ◌++◌, append-nil, append_assoc,
  Bytes, equal, eq_of_equal, equal_refl, Bool-cases, if◌then◌else◌, length, inl, inr,
}
use swift_go.Pair.{
  OperationPair, all_equal, values_equal, equals, contains, add_missing, merge_values,
}

all_equal-eq : (v w : List Bytes) → length v ≡ length w → all_equal v w ≡ true → v ≡ w
unfolding all_equal
all_equal-eq [] [] e h = refl
all_equal-eq [] (y ∷ w) e h = absurd (omega arith)
all_equal-eq (x ∷ v) [] e h = absurd (omega arith)
all_equal-eq (x ∷ v) (y ∷ w) e h = ground (arith, eq_of_equal x y, all_equal-eq v w (omega arith))

all_equal_refl : (v : List Bytes) → all_equal v v ≡ true
unfolding all_equal
all_equal_refl [] = refl
all_equal_refl (x ∷ v) = ground (arith, equal_refl x, all_equal_refl v)

pub eq_of_values_equal : (v w : List Bytes) → values_equal v w ≡ true → v ≡ w
unfolding values_equal
eq_of_values_equal v w h = ground (arith, all_equal-eq v w)

pub values_equal_refl : (v : List Bytes) → values_equal v v ≡ true
unfolding values_equal
values_equal_refl v = ground (arith, all_equal_refl v)

-- `valuesEqual` holds exactly of equal lists of values.
pub values_equal_iff : (v w : List Bytes) → (values_equal v w ≡ true) ↔ (v ≡ w)
values_equal_iff v w =
    (eq_of_values_equal v w, λ e. let h = values_equal_refl v in ground (arith, h, e))

same_parts : (p o : OperationPair) → equals p o ≡ true → (p.key ≡ o.key) × (p.values ≡ o.values)
unfolding equals values_equal
same_parts p o h = ground (arith, eq_of_equal p.key o.key, eq_of_values_equal p.values o.values)

equals_of_eq : (p o : OperationPair) → p.key ≡ o.key → p.values ≡ o.values → equals p o ≡ true
unfolding equals
equals_of_eq p o hk hv = rw (← hk, ← hv) (ground (arith, equal_refl p.key, all_equal_refl p.values))

-- `equals` compares the key and all the values, and nothing else.
pub equals_iff :
    (p o : OperationPair) → (equals p o ≡ true) ↔ ((p.key ≡ o.key) × (p.values ≡ o.values))
equals_iff p o = (same_parts p o, λ h. equals_of_eq p o h.0 h.1)

contains-append :
    (v w : List Bytes) (a : Bytes) → contains (v ++ w) a ≡ (contains v a || contains w a)
unfolding contains
contains-append [] w a = refl
contains-append (b ∷ v) w a = ground (arith, contains-append v w a)

-- Once in, always in.
contains-add_step :
    (v : List Bytes) (a x : Bytes)
    → contains (if contains v a then v else v ++ a ∷ []) x ≡ (contains v x || equal x a)
unfolding contains
contains-add_step v a x = elim (Bool-cases (contains v a)) [
  | inl old ↦ rw old (ground (arith, eq_of_equal x a, old))
  | inr new ↦ rw new (ground (arith, contains-append v (a ∷ []) x))
]

contains-add_missing :
    (v w : List Bytes) (x : Bytes) → contains (add_missing v w) x ≡ (contains v x || contains w x)
unfolding add_missing contains
contains-add_missing v [] x = ground arith
contains-add_missing v (a ∷ w) x = ground (
  arith,
  contains-add_missing (if contains v a then v else v ++ a ∷ []) w x,
  contains-add_step v a x,
)

-- A merge holds a value exactly if one of the two pairs holds it.
pub contains-merge_values :
    (o c : OperationPair) (x : Bytes)
    → contains (merge_values o c) x ≡ (contains o.values x || contains c.values x)
unfolding merge_values
contains-merge_values o c x = contains-add_missing o.values c.values x

-- No value twice.
abbrev pub IsDistinct : List Bytes → Type 0
IsDistinct [] = Unit {0}
IsDistinct (a ∷ v) = (contains v a ≡ false) × IsDistinct v

IsDistinct-snoc :
    (v : List Bytes) (a : Bytes) → IsDistinct v → contains v a ≡ false → IsDistinct (v ++ a ∷ [])
unfolding contains
IsDistinct-snoc [] a d h = (refl, tt)
IsDistinct-snoc (b ∷ v) a (hb, d) h = (
  ground (arith, contains-append v (a ∷ []) b, eq_of_equal b a, equal_refl a),
  IsDistinct-snoc v a d (ground arith),
)

IsDistinct-add_missing : (v w : List Bytes) → IsDistinct v → IsDistinct (add_missing v w)
unfolding add_missing
IsDistinct-add_missing v [] d = d
IsDistinct-add_missing v (a ∷ w) d = elim (Bool-cases (contains v a)) [
  | inl old ↦ rw old (IsDistinct-add_missing v w d)
  | inr new ↦ rw new (IsDistinct-add_missing (v ++ a ∷ []) w (IsDistinct-snoc v a d new))
]

-- Where the operation's pair has no value twice, neither has the merge.
pub merge_values-IsDistinct :
    (o c : OperationPair) → IsDistinct o.values → IsDistinct (merge_values o c)
unfolding merge_values
merge_values-IsDistinct o c d = IsDistinct-add_missing o.values c.values d

add_missing_prefix : (v w : List Bytes) → (more : List Bytes) × (add_missing v w ≡ v ++ more)
unfolding add_missing
add_missing_prefix v [] = ([], sym (append-nil v))
add_missing_prefix v (a ∷ w) = elim (Bool-cases (contains v a)) [
  | inl old ↦ rw old (add_missing_prefix v w)
  | inr new ↦
      let (more, e) = add_missing_prefix (v ++ a ∷ []) w in
      rw new (a ∷ more, e ∙ append_assoc v (a ∷ []) more)
]

-- The merge keeps the values of the operation's pair in front, in their order.
pub merge_values_prefix :
    (o c : OperationPair) → (more : List Bytes) × (merge_values o c ≡ o.values ++ more)
unfolding merge_values
merge_values_prefix o c = add_missing_prefix o.values c.values
