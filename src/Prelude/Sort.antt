-- ===== src/Prelude/Sort.antt =====
-- `sort.Slice` by a numeric key, as an insertion sort: a rearrangement in ascending order of the
-- keys. Go does not say how items with one key are ordered; they stay in their order here.
use Prim.Native.Nat.{ℕ, zero, suc, ◌≤◌, ◌<◌}
use mathlib.Core.Path.{◌≡◌}
use mathlib.Core.Logic.{inl, inr}
use mathlib.Core.List.{List, [], ◌∷◌, Perm}
use mathlib.Core.List.Perm
use mathlib.Core.Option.{some}
use native.Mathlib.Omega.{arith}
use swift_go.Prelude.Tests.{ltb, if◌then◌else◌, Bool-cases}
use swift_go.Prelude.Lists.{All, get_elem?}

module _ {ℓ} {A : Type ℓ} (key : A → ℕ) where
  unfoldable pub insert_by : A → List A → List A
  insert_by x [] = x ∷ []
  insert_by x (y ∷ l) =
      let further = insert_by x l in if ltb (key y) (key x) then y ∷ further else x ∷ y ∷ l

  unfoldable pub sort_by : List A → List A
  unfolding insert_by
  sort_by [] = []
  sort_by (x ∷ l) = insert_by x (sort_by l)

  -- Ascending keys.
  abbrev pub IsOrdered : List A → Type 0
  IsOrdered [] = Unit {0}
  IsOrdered (x ∷ l) = All (λ y. key x ≤ key y) l × IsOrdered l

  All-insert_by :
      (t : ℕ) (x : A) (l : List A)
      → t ≤ key x
      → All (λ y. t ≤ key y) l
      → All (λ y. t ≤ key y) (insert_by x l)
  unfolding insert_by
  All-insert_by t x [] h k = (h, tt)
  All-insert_by t x (y ∷ l) h (hy, k) = ground (arith, All-insert_by t x l h k)

  pub All-le : (t u : ℕ) (l : List A) → t ≤ u → All (λ y. u ≤ key y) l → All (λ y. t ≤ key y) l
  All-le t u [] h k = tt
  All-le t u (y ∷ l) h (hy, k) = (omega arith, All-le t u l h k)

  insert_by-IsOrdered : (x : A) (l : List A) → IsOrdered l → IsOrdered (insert_by x l)
  unfolding insert_by
  insert_by-IsOrdered x [] h = (tt, tt)
  insert_by-IsOrdered x (y ∷ l) (hy, h) =
      ground (arith, insert_by-IsOrdered x l h, All-insert_by (key y) x l, All-le (key x) (key y) l)

  pub sort_by-IsOrdered : (l : List A) → IsOrdered (sort_by l)
  unfolding sort_by
  sort_by-IsOrdered [] = tt
  sort_by-IsOrdered (x ∷ l) = insert_by-IsOrdered x (sort_by l) (sort_by-IsOrdered l)

  insert_by-perm : (x : A) (l : List A) → Perm (insert_by x l) (x ∷ l)
  unfolding insert_by
  insert_by-perm x [] = Perm.rfl
  insert_by-perm x (y ∷ l) = elim (Bool-cases (ltb (key y) (key x))) [
    | inl below ↦ rw below (Perm.trans (Perm.cons y (insert_by-perm x l)) (Perm.swap x y l))
    | inr above ↦ rw above Perm.rfl
  ]

  pub sort_by-perm : (l : List A) → Perm (sort_by l) l
  unfolding sort_by
  sort_by-perm [] = Perm.rfl
  sort_by-perm (x ∷ l) = Perm.trans (insert_by-perm x (sort_by l)) (Perm.cons x (sort_by-perm l))

  All-get_elem? :
      (t j : ℕ) (l : List A) {y : A} → All (λ z. t ≤ key z) l → get_elem? l j ≡ some y → t ≤ key y
  All-get_elem? t j [] h e = cc
  All-get_elem? t zero (x ∷ l) (hx, h) e = ground arith
  All-get_elem? t (suc j) (x ∷ l) (hx, h) e = All-get_elem? t j l h e

  -- In an ordered list a later index has no smaller key.
  pub IsOrdered-get_elem? :
      (i j : ℕ) (l : List A) {x y : A}
      → IsOrdered l
      → i < j
      → get_elem? l i ≡ some x
      → get_elem? l j ≡ some y
      → key x ≤ key y
  IsOrdered-get_elem? i j [] h lt ei ej = cc
  IsOrdered-get_elem? zero zero (z ∷ l) h lt ei ej = absurd (omega arith)
  IsOrdered-get_elem? zero (suc j) (z ∷ l) {x} {y} (hz, h) lt ei ej =
      ground (arith, All-get_elem? (key z) j l {y = y} hz ej)
  IsOrdered-get_elem? (suc i) zero (z ∷ l) h lt ei ej = absurd (omega arith)
  IsOrdered-get_elem? (suc i) (suc j) (z ∷ l) (hz, h) lt ei ej =
      IsOrdered-get_elem? i j l h (omega arith) ei ej
