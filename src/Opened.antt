-- ===== src/Opened.antt =====
-- store.go: `NewStore`, which opens the stores that are configured.
use mathlib.Core.Path.{subst}
use swift_go.Prelude.{
  ◌≡◌, ◌≢◌, refl, Bool, true, false, ◌||◌, ◌&&◌, List, [], ◌∷◌, ◌++◌, Result, ok, err, bind,
  runtime_panic, if◌then◌else◌, Bytes, bind-eq-ok, ok_injective, sym, Bool-cases, inl, inr,
}

-- The settings of the stores, of the configuration that the library for it loads.
pub record Settings : Type 0 where
  pub azure_storage_account : Bytes
  pub azure_storage_access_key : Bytes
  pub gcp_project : Bytes
  pub swift_file : Bytes
  pub aws_enabled : Bool

abbrev pub is_given : Bytes → Bool
is_given [] = false
is_given (b ∷ bs) = true

-- The makers of the four kinds of store.
pub record Makers (S : Type 0) : Type 0 where
  pub new_azure : Bytes → Bytes → Result S
  pub new_firebase : Bytes → Result S
  pub new_local_store : Bytes → Result S
  pub new_aws : Result S

abbrev pub any_azure : Settings → Bool
any_azure s = is_given s.azure_storage_account || is_given s.azure_storage_access_key

abbrev pub both_azure : Settings → Bool
both_azure s = is_given s.azure_storage_account && is_given s.azure_storage_access_key

-- an error is a panic
abbrev made_or_panic : {S : Type 0} → Result S → Result (List S)
made_or_panic (ok s) = ok (s ∷ [])
made_or_panic (err e) = err runtime_panic

abbrev when : {S : Type 0} → Bool → Result (List S) → Result (List S)
when b r = if b then r else ok []

abbrev some_store : {S : Type 0} → List S → Result (List S)
some_store [] = err runtime_panic
some_store (s ∷ ss) = ok (s ∷ ss)

module _ {S : Type 0} (m : Makers S) (s : Settings) where
  abbrev azure : Result (List S)
  azure =
      if both_azure s
      then made_or_panic (m.new_azure s.azure_storage_account s.azure_storage_access_key)
      else err runtime_panic

  unfoldable pub new_store : Result (List S)
  new_store = bind (when (any_azure s) azure) λ a.
      bind (when (is_given s.gcp_project) (made_or_panic (m.new_firebase s.gcp_project))) λ f.
        bind (when (is_given s.swift_file) (made_or_panic (m.new_local_store s.swift_file))) λ l.
          bind (when s.aws_enabled (made_or_panic m.new_aws)) λ d. some_store (a ++ f ++ l ++ d)

-- What one kind of store gives: a store where it is configured, and none where it is not.
pub data Given {S : Type 0} (r : Result S) : Bool → List S → Type 0 where
  one : {s : S} → r ≡ ok s → Given r true (s ∷ [])
  nothing : Given r false []

when-Given :
    {S : Type 0} (b : Bool) (r : Result S) (l : List S)
    → when b (made_or_panic r) ≡ ok l
    → Given r b l
when-Given false r l e = subst (Given r false) (ok_injective e) nothing
when-Given true (ok s) l e = subst (Given (ok s) true) (ok_injective e) (one refl)
when-Given true (err x) l e = cc e

some_store-ok : {S : Type 0} (l m : List S) → some_store l ≡ ok m → (m ≡ l) × (m ≢ [])
some_store-ok [] m e = cc e
some_store-ok (s ∷ l) m e = let is : m ≡ s ∷ l = cc e in (is, λ gone. cc (gone, is))

module _ {S : Type 0} (m : Makers S) (s : Settings) where
  -- The stores are those that are configured, in one order, and there is one.
  pub record Opened (l : List S) : Type 0 where
    pub azure_part : List S
    pub firebase_part : List S
    pub local_part : List S
    pub aws_part : List S
    pub parts : l ≡ azure_part ++ firebase_part ++ local_part ++ aws_part
    pub of_azure :
        Given
          (m.new_azure s.azure_storage_account s.azure_storage_access_key)
          (any_azure s)
          azure_part
    pub both : any_azure s ≡ true → both_azure s ≡ true
    pub of_firebase : Given (m.new_firebase s.gcp_project) (is_given s.gcp_project) firebase_part
    pub of_local : Given (m.new_local_store s.swift_file) (is_given s.swift_file) local_part
    pub of_aws : Given m.new_aws s.aws_enabled aws_part
    pub not_empty : l ≢ []

  azure-Given :
      (a : List S)
      → when (any_azure s) (azure m s) ≡ ok a
      → Given (m.new_azure s.azure_storage_account s.azure_storage_access_key) (any_azure s) a
        × (any_azure s ≡ true → both_azure s ≡ true)
  azure-Given a e =
      let r = m.new_azure s.azure_storage_account s.azure_storage_access_key in
      elim (Bool-cases (both_azure s)) [
        | inl all ↦ (when-Given (any_azure s) _ a (rw all at e), λ any. all)
        | inr part ↦ elim (Bool-cases (any_azure s)) [
          | inl any ↦ cc (rw (any, part) at e)
          | inr not_any ↦ (
            subst (λ b. Given r b a) (sym not_any) (when-Given false r a (rw not_any at e)),
            λ any. cc (any, not_any),
          )
        ]
      ]

  -- Where `NewStore` returns, it has opened every kind of store that is configured and no other, in the
  -- order Azure, Firebase, file, DynamoDB; there is one at least; and both settings of Azure are given
  -- where one is.
  pub new_store-Opened : (l : List S) → new_store m s ≡ ok l → Opened l
  unfolding new_store
  new_store-Opened l e =
      let (a, azured, more) = bind-eq-ok (when (any_azure s) (azure m s)) _ e in
      let (f, fired, more) =
        bind-eq-ok (when (is_given s.gcp_project) (made_or_panic (m.new_firebase s.gcp_project))) _
          more in
      let (p, filed, more) =
        bind-eq-ok (when (is_given s.swift_file) (made_or_panic (m.new_local_store s.swift_file))) _
          more in
      let (d, awsed, more) = bind-eq-ok (when s.aws_enabled (made_or_panic m.new_aws)) _ more in
      let (parts, not_empty) = some_store-ok (a ++ f ++ p ++ d) l more in
      let (of_azure, both) = azure-Given a azured in
      record {
        azure_part = a;
        firebase_part = f;
        local_part = p;
        aws_part = d;
        parts = parts;
        of_azure = of_azure;
        both = both;
        of_firebase = when-Given (is_given s.gcp_project) _ f fired;
        of_local = when-Given (is_given s.swift_file) _ p filed;
        of_aws = when-Given s.aws_enabled m.new_aws d awsed;
        not_empty = not_empty;
      }
