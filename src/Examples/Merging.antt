-- ===== src/Examples/Merging.antt =====
-- The rules for pairs, the keys of a form and the settings on concrete values.
use swift_go.Prelude.{ℤ, ◌≡◌, ◌≢◌, ◌↔◌, refl, ◌||◌, List, [], ◌∷◌, ◌++◌, Bytes}
use swift_go.Io.{zero_time}
use swift_go.Pair.Values.{IsDistinct}
use Prim.Native.Nat.{max}
use swift_go.Pair.{contains, merge_pairs, conflict_add}
use swift_go.Pair.Conflict.{merge_pairs_lem}
use swift_go.Configuration.{validate, usable}
use swift_go.Configuration.Validity.{IsChecked, validate_iff}
use swift_go.HandlerCreate.{is_operation_character, get_conflict_policy}
use swift_go.HandlerCreate.Keys.{IsName, IsPolicy}
use swift_go.Examples.{pair_x, pair_y, settings}

values_differ : pair_x.values ≢ pair_y.values
values_differ e = cc

merge_pairs_lem_example :
    let m = merge_pairs 60 pair_x pair_y in
    (m.key ≡ pair_x.key)
    × (m.created ≡ 60)
    × (m.conflict ≡ conflict_add)
    × (m.expires ≡ max pair_x.expires pair_y.expires)
    × (m.cookie_write_time ≡ zero_time)
    × ((more : List Bytes) × (m.values ≡ pair_x.values ++ more))
    × (IsDistinct pair_x.values → IsDistinct m.values)
    × ((x : Bytes) → contains m.values x ≡ (contains pair_x.values x || contains pair_y.values x))
merge_pairs_lem_example = merge_pairs_lem 60 pair_x pair_y values_differ

validate_iff_example :
    ((validate settings ≡ usable) ↔ IsChecked settings)
    × ((bound : ℤ) → validate (record settings { max_stores = bound }) ≡ validate settings)
validate_iff_example = validate_iff settings

name : IsName (b'k' ∷ [])
unfolding is_operation_character
name = (refl, tt)

policy : IsPolicy b'+' conflict_add
unfolding is_operation_character get_conflict_policy
policy = (refl, refl)
