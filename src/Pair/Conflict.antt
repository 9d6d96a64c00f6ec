-- ===== src/Pair/Conflict.antt =====
-- Which of two pairs wins.
use swift_go.Prelude.{
  ◌≤◌, ◌<◌, ◌≡◌, refl, ◌⊎◌, inl, inr, ◌↔◌, arith, some, err, no_conflict_flag, Bytes, Bool-cases,
  ◌||◌, ◌≢◌, List, ◌++◌,
}
use Prim.Native.Nat.{max}
use swift_go.Io.{Time, zero_time}
use swift_go.Pair.{
  OperationPair, conflict_invalid, conflict_add, contains, merge_pairs, values_equal,
  resolve_conflict_oldest, resolve_conflict_newest, resolve_conflict,
}
use swift_go.Pair.Values.{
  eq_of_values_equal, values_equal_refl, contains-merge_values, merge_values_prefix,
  merge_values-IsDistinct, IsDistinct,
}

-- `p` is at least as new as `q`: created later, or at the same time and written later.
abbrev pub AsNew : OperationPair → OperationPair → Type 0
AsNew p q =
    (q.created < p.created)
    ⊎ ((q.created ≡ p.created) × (q.cookie_write_time ≤ p.cookie_write_time))

-- `p` is at least as good under "oldest wins": created earlier, or at the same time and written
-- later.
abbrev pub AsOld : OperationPair → OperationPair → Type 0
AsOld p q =
    (p.created < q.created)
    ⊎ ((p.created ≡ q.created) × (q.cookie_write_time ≤ p.cookie_write_time))

-- Newest wins: the result is one of the two pairs, and is at least as new as both.
resolve_conflict_newest-AsNew :
    (o c : OperationPair)
    → ((resolve_conflict_newest o c ≡ o) ⊎ (resolve_conflict_newest o c ≡ c))
      × AsNew (resolve_conflict_newest o c) o
      × AsNew (resolve_conflict_newest o c) c
unfolding resolve_conflict_newest
resolve_conflict_newest-AsNew o c = (ground arith, ground arith, ground arith)

-- Oldest wins: the result is one of the two pairs, created no later than either, and of two
-- created at one time the one whose cookie was written last.
resolve_conflict_oldest-AsOld :
    (o c : OperationPair)
    → ((resolve_conflict_oldest o c ≡ o) ⊎ (resolve_conflict_oldest o c ≡ c))
      × AsOld (resolve_conflict_oldest o c) o
      × AsOld (resolve_conflict_oldest o c) c
unfolding resolve_conflict_oldest
resolve_conflict_oldest-AsOld o c = (ground arith, ground arith, ground arith)

abbrev pub SameStamps : OperationPair → OperationPair → Type 0
SameStamps p q = (p.created ≡ q.created) × (p.cookie_write_time ≡ q.cookie_write_time)

-- The order of the two pairs does not matter for the times of the winner, under either rule, and
-- the winner of three does not depend on which two meet first.
pub resolve_conflict_newest_assoc :
    (p q r : OperationPair)
    → SameStamps (resolve_conflict_newest p q) (resolve_conflict_newest q p)
      × (resolve_conflict_newest (resolve_conflict_newest p q) r
          ≡ resolve_conflict_newest p (resolve_conflict_newest q r))
unfolding resolve_conflict_newest
resolve_conflict_newest_assoc p q r = (ground arith, ground arith)

-- Adding two pairs with different values gives a new pair with the operation's key, the time of the
-- merge, the later expiry, and no cookie write time. Its values are those of the operation's pair,
-- in their order, and behind them those of the cookie's pair that were not there yet; and where the
-- operation's pair has no value twice, neither has the merge.
pub merge_pairs_lem :
    (now : Time) (o c : OperationPair)
    → o.values ≢ c.values
    → (let m = merge_pairs now o c in
        (m.key ≡ o.key)
        × (m.created ≡ now)
        × (m.conflict ≡ conflict_add)
        × (m.expires ≡ max o.expires c.expires)
        × (m.cookie_write_time ≡ zero_time)
        × ((more : List Bytes) × (m.values ≡ o.values ++ more))
        × (IsDistinct o.values → IsDistinct m.values)
        × ((x : Bytes) → contains m.values x ≡ (contains o.values x || contains c.values x)))
unfolding merge_pairs
merge_pairs_lem now o c ne = elim (Bool-cases (values_equal o.values c.values)) [
  | inl same ↦ absurd (ne (eq_of_values_equal o.values c.values same))
  | inr differ ↦ rw differ (
    refl,
    refl,
    refl,
    ground arith,
    refl,
    merge_values_prefix o c,
    merge_values-IsDistinct o c,
    contains-merge_values o c,
  )
]

-- Adding two pairs with the same values gives the cookie's pair back.
pub merge_pairs_same :
    (now : Time) (o c : OperationPair) → o.values ≡ c.values → merge_pairs now o c ≡ c
unfolding merge_pairs
merge_pairs_same now o c e = let h = values_equal_refl c.values in ground (arith, h, e)

-- Two pairs fail to resolve exactly where the operation's pair has no conflict flag.
pub resolve_conflict_fails :
    (now : Time) (o c : OperationPair)
    → (resolve_conflict now (some o) (some c) ≡ err no_conflict_flag)
      ↔ (o.conflict ≡ conflict_invalid)
unfolding resolve_conflict
resolve_conflict_fails now o c = (λ h. ground arith, λ h. ground arith)
