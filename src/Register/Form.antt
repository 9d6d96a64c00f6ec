-- ===== src/Register/Form.antt =====
-- register.go and handlerRegister.go: the register that is filled from the form, and its checks.
use swift_go.Prelude.{
  ℕ, ◌≤◌, ℤ, pos, negsuc, Bool, true, false, ◌&&◌, ◌||◌, Option, none, some, List, Result, ok, err,
  Error, network_too_short, network_too_long, invalid_role, expiry_in_past, ltb, leb, if◌then◌else◌,
  Bytes, codes, equal, length,
}
use swift_go.Io.{Time, before, zero_time}
use swift_go.Node.{role_storage}
use swift_go.HandlerCreate.{Values, value_of, is_empty_text}

-- The fields of the form and of the page. An error is `none` where the source has an empty text.
pub record Register : Type 0 where
  pub store_names : List Bytes
  pub store : Bytes
  pub domain : Bytes
  pub network : Bytes
  pub starts : Time
  pub expires : Time
  pub role : ℤ
  pub scramble : Bool
  pub secret : Bool
  pub cookie_domain : Bytes
  pub error : Option Error
  pub network_error : Option Error
  pub expires_error : Option Error
  pub starts_error : Option Error
  pub store_error : Option Error
  pub role_error : Option Error
  pub read_only : Bool
  pub display_errors : Bool

-- What the code calls and is not in the repository: `AddDate` with months and days, which
-- never goes back, `strconv.Atoi`,
-- what it leaves on an error, `time.Parse` of the two layouts, base64.RawURLEncoding, and the draw of `getHash`.
pub record Tools : Type 0 where
  pub add_date : Time → ℕ → ℕ → Time
  pub parse_int : Bytes → Result ℤ
  pub failed_int : Bytes → ℤ
  pub parse_day : Bytes → Result Time
  pub parse_minute : Bytes → Result Time
  pub encode_key : Bytes → Bytes
  pub decode_key : Bytes → Result Bytes
  pub draw : ℕ → ℕ
  pub add_date-le : (t : Time) (months days : ℕ) → t ≤ add_date t months days

-- "true", "yes" or "1"
abbrev is_yes : Bytes → Bool
is_yes v = equal v (codes "true") || equal v (codes "yes") || equal v (codes "1")

abbrev pub check_network : Bytes → Option Error
check_network s =
    if leb (length s) 3
    then some network_too_short
    else if ltb 20 (length s)
    then some network_too_long
    else none

abbrev pub check_role : ℤ → Option Error
check_role (pos n) = if leb n 2 then none else some invalid_role
check_role (negsuc n) = some invalid_role

abbrev pub check_expiry : Time → Time → Option Error
check_expiry now t = if before t now then some expiry_in_past else none

-- a value that was given and parsed, or the value that `err` leaves, with the error
abbrev pub parsed : {A : Type 0} → Bytes → Result A → A → A → (A → Option Error) → A × Option Error
parsed v (ok a) default failed_value check =
    if is_empty_text v then (default, none) else (a, check a)
parsed v (err e) default failed_value check =
    if is_empty_text v then (default, none) else (failed_value, some e)

abbrev pub role_number : ℤ → ℕ
role_number (pos n) = n
role_number (negsuc n) = 0

abbrev pub is_none : Option Error → Bool
is_none none = true
is_none (some e) = false

abbrev pub is_valid : Register → Bool
is_valid d = is_none d.expires_error && is_none d.role_error && is_none d.network_error

module _ (t : Tools) where
  -- The register that the handler fills from the form. `time.Parse` leaves the zero time on an error.
  unfoldable pub register_of : List Bytes → Time → Bytes → Values → Register
  register_of store_names now host form =
      let text = λ (k : Bytes). value_of k form in
      let role = text (codes "role") in
      let expires = text (codes "expires") in
      let starts = text (codes "starts") in
      let (r, role_error) =
        parsed role (t.parse_int role) (pos role_storage) (t.failed_int role) check_role in
      let (e, expires_error) =
        parsed expires (t.parse_day expires) (t.add_date now 3 0) zero_time (check_expiry now) in
      let (s, starts_error) =
        parsed starts (t.parse_minute starts) (t.add_date now 0 1) zero_time (λ s. none) in
      let cookie_domain = text (codes "cookieDomain") in
      record {
        store_names = store_names;
        store = text (codes "store");
        domain = host;
        network = text (codes "network");
        starts = s;
        expires = e;
        role = r;
        scramble = is_yes (text (codes "scramble"));
        secret = is_yes (text (codes "secret"));
        cookie_domain = if is_empty_text cookie_domain then host else cookie_domain;
        error = none;
        network_error = check_network (text (codes "network"));
        expires_error = expires_error;
        starts_error = starts_error;
        store_error = none;
        role_error = role_error;
        read_only = false;
        display_errors = ltb 0 (length form);
      }
