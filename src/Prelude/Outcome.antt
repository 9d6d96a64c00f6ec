-- ===== src/Prelude/Outcome.antt =====
-- Go's `(value, error)` results: a value or an error, and chains that stop at the first error.
use Prim.Native.Nat.{ℕ}
use mathlib.Core.Path.{◌≡◌, refl}
use mathlib.Core.Logic.{◌⊎◌, inl, inr}
use mathlib.Core.Bool.{Bool, true, false}

-- One constructor for each error that the modelled code makes.
pub data Error : Type 0 where
  -- io.EOF of the buffer
  eof : Error
  -- "'%d' bytes incorrect for Byte", and the same for Uint16, Uint32 and Uint64
  wrong_count : ℕ → Error
  -- "Byte array empty"
  empty_array : Error
  -- "%d bytes remaining"
  remaining : ℕ → Error
  -- "Conflict flag is not initialized"
  no_conflict_flag : Error
  -- "data length '%d' shorter than nonce '%d'"
  shorter_than_nonce : ℕ → Error
  -- "no secrets for node '%s'"
  no_secrets : Error
  -- "no secrets available to decrypt byte array"
  not_decrypted : Error
  -- "Next node must be set"
  no_next_node : Error
  -- "None of the %d available nodes were identified as a home node ..."
  no_home_node : Error
  -- "host '%s' is not a SWIFT node"
  not_a_node : Error
  -- "domain '%s' is not an access node"
  not_an_access_node : Error
  -- "'%s' is not a valid access node"
  unknown_access_node : Error
  -- "'%s' is node a valid access node for network '%s'"
  other_network : Error
  -- "SWIFT node count must be greater than 0", and "... must be less than 255"
  count_not_positive count_too_large : Error
  -- "%s must be a valid URL", "... must include a scheme" and "... must include a host"
  url_missing scheme_absent host_absent : Error
  -- "Missing table name"
  table_missing : Error
  -- "Key '%s' must include a '+' ..."
  no_conflict_character : Error
  -- "Character '%c' invalid"
  invalid_character : Error
  -- "Key expiry date '%s' must be in the future"
  expiry_not_future : Error
  -- "Pair does not contain valid conflict flag"
  invalid_conflict : Error
  -- "no access nodes for network '%s'", and "no access node for network '%s'"
  no_access_nodes no_access_node : Error
  -- "No access node for '%s'", and "Node '%s' incorrect type"
  no_node_for_host incorrect_type : Error
  -- "supply some nodes to set"
  no_nodes_given : Error
  -- "no writable stores found", with or without a name, and "multiple writable stores available ..."
  no_writable_store several_writable_stores : Error
  -- "too many stores have been configured ..."
  too_many_stores : Error
  -- "no node for '%s'", and "domain '%s' is not a share node"
  no_node not_a_share_node : Error
  -- "Network must be longer than 3 characters", and "... can not be longer than 20 characters"
  network_too_short network_too_long : Error
  -- "Role '%d' invalid", and "Expiry date must be in the future"
  invalid_role expiry_in_past : Error
  -- "Access denied", and "Not authorized" with its spelling in small letters
  access_denied not_authorized : Error
  -- "data expired and can no longer be used"
  data_expired : Error
  -- "%s '%s' must use http or https scheme"
  scheme_not_http : Error
  -- "store '%s' is read only"
  read_only_store : Error
  -- a panic of the run time: a failed type assertion, a nil pointer, an index out of range
  runtime_panic : Error
  -- an error of the standard library, passed on
  library_error : Error

pub data Result {ℓ} (A : Type ℓ) : Type ℓ where
  ok : A → Result A
  err : Error → Result A

-- A panic ends the goroutine, whatever a caller does with errors.
abbrev pub is_panic : Error → Bool
is_panic runtime_panic = true
is_panic _ = false

-- `bind` of a module that also has the readers' `>>=`.
abbrev pub bind {ℓ κ} : {A : Type ℓ} {B : Type κ} → Result A → (A → Result B) → Result B
bind (ok a) f = f a
bind (err e) f = err e

pub Result-cases {ℓ} :
    {A : Type ℓ} (r : Result A) → ((a : A) × (r ≡ ok a)) ⊎ ((e : Error) × (r ≡ err e))
Result-cases (ok a) = inl (a, refl)
Result-cases (err e) = inr (e, refl)

-- One step of a chain of results that ended well.
pub bind-eq-ok {ℓ κ} :
    {A : Type ℓ} {B : Type κ} (r : Result A) (f : A → Result B) {b : B}
    → bind r f ≡ ok b
    → (a : A) × (r ≡ ok a) × (f a ≡ ok b)
bind-eq-ok (ok a) f h = (a, refl, h)
bind-eq-ok (err e) f h = cc

-- A chain may be bracketed either way.
pub bind_assoc {ℓ} :
    {A B C : Type ℓ} (r : Result A) (f : A → Result B) (k : B → Result C)
    → bind r (λ a. bind (f a) k) ≡ bind (bind r f) k
bind_assoc (ok a) f k = refl
bind_assoc (err e) f k = refl

pub ok_injective {ℓ} : {A : Type ℓ} {a b : A} → ok a ≡ ok b → a ≡ b
ok_injective e = cc e
