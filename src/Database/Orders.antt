-- ===== src/Database/Orders.antt =====
-- The rows of a table come in any order: what the readings keep of rows in two orders.
use mathlib.Core.List.Permᴰ.{Permᴰ}
use mathlib.Core.List.Permᴰ
use mathlib.Core.Path.{subst}
use swift_go.Prelude.{
  ◌≡◌, refl, Bool, true, false, List, [], ◌∷◌, ◌++◌, if◌then◌else◌, Bytes, equal, All, sym,
}
use swift_go.Node.{Secret}
use swift_go.Database.{NodeItem, SecretItem, SecretRow, rows_of_items}
use swift_go.Database.Rows.{items_of}
use swift_go.Database.Attached.{secrets_of}

-- Rows in another order are the same rows.
pub All-perm {ℓ κ} :
    {A : Type ℓ} (P : A → Type κ) {xs ys : List A} → Permᴰ xs ys → All P ys → All P xs
All-perm P Permᴰ.nil h = h
All-perm P (Permᴰ.cons e p) (h, hs) = (subst P (sym e) h, All-perm P p hs)
All-perm P (Permᴰ.swap e f) (h, (k, hs)) = (subst P (sym e) k, (subst P (sym f) h, hs))
All-perm P (Permᴰ.trans p q) h = All-perm P p (All-perm P q h)

perm-nil {ℓ} : {A : Type ℓ} {xs ys : List A} → Permᴰ xs ys → ys ≡ [] → xs ≡ []
perm-nil Permᴰ.nil e = e
perm-nil (Permᴰ.cons x p) e = cc e
perm-nil (Permᴰ.swap x y) e = cc e
perm-nil (Permᴰ.trans p q) e = perm-nil p (perm-nil q e)

pub perm-single {ℓ} :
    {A : Type ℓ} {xs ys : List A} {a : A} → Permᴰ xs ys → ys ≡ a ∷ [] → xs ≡ a ∷ []
perm-single Permᴰ.nil e = e
perm-single (Permᴰ.cons x p) e = let gone = perm-nil p (cc e) in cc (x, gone, e)
perm-single (Permᴰ.swap x y) e = cc e
perm-single (Permᴰ.trans p q) e = perm-single p (perm-single q e)

-- What one test keeps of two rows in two orders.
abbrev keep {ℓ} : {A : Type ℓ} → Bool → A → List A → List A
keep b x xs = if b then x ∷ xs else xs

keep-perm {ℓ} :
    {A : Type ℓ} (b : Bool) (x : A) {xs ys : List A}
    → Permᴰ xs ys
    → Permᴰ (keep b x xs) (keep b x ys)
keep-perm true x p = Permᴰ.cons refl p
keep-perm false x p = p

keep-swap {ℓ} :
    {A : Type ℓ} (b c : Bool) (x y : A) (xs : List A)
    → Permᴰ (keep b x (keep c y xs)) (keep c y (keep b x xs))
keep-swap true true x y xs = Permᴰ.swap refl refl
keep-swap true false x y xs = Permᴰ.refl _
keep-swap false c x y xs = Permᴰ.refl _

pub items_of-perm :
    (d : Bytes) {is js : List NodeItem} → Permᴰ is js → Permᴰ (items_of d is) (items_of d js)
unfolding items_of
items_of-perm d Permᴰ.nil = Permᴰ.nil
items_of-perm d (Permᴰ.cons {a = i} {l₁} {l₂} e p) =
    subst (λ j. Permᴰ (items_of d (i ∷ l₁)) (items_of d (j ∷ l₂))) e
      (keep-perm (equal d i.domain) i (items_of-perm d p))
items_of-perm d (Permᴰ.swap {a = i} {b = j} {b' = k} {l} e f) =
    subst (λ x. Permᴰ (items_of d (i ∷ j ∷ l)) (items_of d (x ∷ k ∷ l))) f
      (subst (λ x. Permᴰ (items_of d (i ∷ j ∷ l)) (items_of d (j ∷ x ∷ l))) e
        (keep-swap (equal d i.domain) (equal d j.domain) i j (items_of d l)))
items_of-perm d (Permᴰ.trans p q) = Permᴰ.trans (items_of-perm d p) (items_of-perm d q)

abbrev secret_of_row : SecretRow → Secret
secret_of_row r = record { time_stamp = r.time_stamp; key = r.key }

pub secrets_of-perm :
    (d : Bytes) {rs ts : List SecretRow} → Permᴰ rs ts → Permᴰ (secrets_of d rs) (secrets_of d ts)
unfolding secrets_of
secrets_of-perm d Permᴰ.nil = Permᴰ.nil
secrets_of-perm d (Permᴰ.cons {a = r} {l₁} {l₂} e p) =
    subst (λ t. Permᴰ (secrets_of d (r ∷ l₁)) (secrets_of d (t ∷ l₂))) e
      (keep-perm (equal d r.domain) (secret_of_row r) (secrets_of-perm d p))
secrets_of-perm d (Permᴰ.swap {a = r} {b = t} {b' = u} {l} e f) =
    subst (λ x. Permᴰ (secrets_of d (r ∷ t ∷ l)) (secrets_of d (x ∷ u ∷ l))) f
      (subst (λ x. Permᴰ (secrets_of d (r ∷ t ∷ l)) (secrets_of d (t ∷ x ∷ l))) e
        (keep-swap (equal d r.domain) (equal d t.domain) (secret_of_row r) (secret_of_row t)
          (secrets_of d l)))
secrets_of-perm d (Permᴰ.trans p q) = Permᴰ.trans (secrets_of-perm d p) (secrets_of-perm d q)

pub rows_of_items-perm :
    {is js : List SecretItem} → Permᴰ is js → Permᴰ (rows_of_items is) (rows_of_items js)
unfolding rows_of_items
rows_of_items-perm Permᴰ.nil = Permᴰ.nil
rows_of_items-perm (Permᴰ.cons e p) = Permᴰ.cons (cc e) (rows_of_items-perm p)
rows_of_items-perm (Permᴰ.swap e f) = Permᴰ.swap (cc e) (cc f)
rows_of_items-perm (Permᴰ.trans p q) = Permᴰ.trans (rows_of_items-perm p) (rows_of_items-perm q)

pub rows_of_items-append :
    (is js : List SecretItem) → rows_of_items (is ++ js) ≡ rows_of_items is ++ rows_of_items js
unfolding rows_of_items
rows_of_items-append [] js = refl
rows_of_items-append (i ∷ is) js = cc (rows_of_items-append is js)
