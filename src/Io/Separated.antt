-- ===== src/Io/Separated.antt =====
-- `strings.Join` and `strings.Split` with a separator of one byte.
use swift_go.Prelude.{
  All-append, ℕ, ◌≡◌, refl, ◌≢◌, arith, List, [], ◌∷◌, ◌++◌, ◌==◌, if◌then◌else◌, Bytes, All,
  Bool-cases, inl, inr,
}

unfoldable pub join : ℕ → List Bytes → Bytes
join sep [] = []
join sep (x ∷ []) = x
join sep (x ∷ y ∷ l) = x ++ sep ∷ join sep (y ∷ l)

abbrev cons_head : ℕ → List Bytes → List Bytes
cons_head x [] = (x ∷ []) ∷ []
cons_head x (s ∷ l) = (x ∷ s) ∷ l

unfoldable pub split : ℕ → Bytes → List Bytes
split sep [] = [] ∷ []
split sep (x ∷ s) = let rest = split sep s in if x == sep then [] ∷ rest else cons_head x rest

-- The separator stands in none of the parts.
abbrev pub NoSeparator : ℕ → List Bytes → Type 0
NoSeparator sep = All (All (λ x. x ≢ sep))

-- Splitting never gives an empty list: no parts come back as one empty part.
abbrev pub or_one_empty : List Bytes → List Bytes
or_one_empty [] = [] ∷ []
or_one_empty (x ∷ l) = x ∷ l

split-part : (sep : ℕ) (x : Bytes) → All (λ c. c ≢ sep) x → split sep x ≡ x ∷ []
unfolding split
split-part sep [] h = refl
split-part sep (c ∷ x) (hc, hx) = ground (arith, split-part sep x hx)

split-part-append :
    (sep : ℕ) (x rest : Bytes)
    → All (λ c. c ≢ sep) x
    → split sep (x ++ sep ∷ rest) ≡ x ∷ split sep rest
unfolding split
split-part-append sep [] rest h = ground arith
split-part-append sep (c ∷ x) rest (hc, hx) = ground (arith, split-part-append sep x rest hx)

-- Parts without the separator are told apart again; no parts come back as one empty part.
pub split-join :
    (sep : ℕ) (l : List Bytes) → NoSeparator sep l → split sep (join sep l) ≡ or_one_empty l
unfolding join
split-join sep [] h = unfold split in refl
split-join sep (x ∷ []) (hx, h) = split-part sep x hx
split-join sep (x ∷ y ∷ l) (hx, h) =
    ground (arith, split-part-append sep x (join sep (y ∷ l)) hx, split-join sep (y ∷ l) h)

-- What holds of the separator and of every byte of the parts holds of the whole.
pub All-join :
    (P : ℕ → Type 0) (sep : ℕ) (l : List Bytes) → P sep → All (All P) l → All P (join sep l)
unfolding join
All-join P sep [] p h = tt
All-join P sep (x ∷ []) p (hx, h) = hx
All-join P sep (x ∷ y ∷ l) p (hx, h) =
    All-append P x (sep ∷ join sep (y ∷ l)) hx (p, All-join P sep (y ∷ l) p h)

-- the first part of a split, which is never empty
abbrev pub first_part : List Bytes → Bytes
first_part [] = []
first_part (x ∷ l) = x

first_part-cons_head : (x : ℕ) (l : List Bytes) → first_part (cons_head x l) ≡ x ∷ first_part l
first_part-cons_head x [] = refl
first_part-cons_head x (s ∷ l) = refl

-- The separator is not in the first part.
pub first_part-split : (sep : ℕ) (s : Bytes) → All (λ x. x ≢ sep) (first_part (split sep s))
unfolding split
first_part-split sep [] = tt
first_part-split sep (x ∷ s) =
    let rest = first_part-split sep s in
    elim (Bool-cases (x == sep)) [
      | inl same ↦ rw same tt
      | inr other ↦ rw (other, first_part-cons_head x (split sep s)) (ground arith, rest)
    ]
