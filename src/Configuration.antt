-- ===== src/Configuration.antt =====
-- configuration.go: the settings and what `Validate` checks of them.
pub mod Validity
use swift_go.Prelude.{
  ℕ, ◌*◌, Bool, not, ◌||◌, List, [], ◌∷◌, ltb, if◌then◌else◌, Bytes, codes, equal, length, ℤ,
  is_positive, is_negative, pos, negsuc,
}
use swift_go.Io.{second}

-- The settings that the modelled code reads. `max_stores` and the two lengths of time that become
-- durations are `int`s of the source.
pub record Configuration : Type 0 where
  pub alive_polling_seconds : ℤ
  pub storage_operation_timeout : ℤ
  pub storage_manager_refresh_minutes : ℤ
  pub max_stores : ℤ
  pub home_node_timeout : ℤ
  pub message : Bytes
  pub title : Bytes
  pub background_color : Bytes
  pub message_color : Bytes
  pub progress_color : Bytes
  pub scheme : Bytes
  pub node_count : ℕ
  pub debug : Bool

-- `time.Duration(i) * time.Second` in nanoseconds, for settings of up to 292 years; a negative
-- setting, which `Validate` refuses, is 0 here.
abbrev seconds_of : ℤ → ℕ
seconds_of (pos n) = n * second
seconds_of (negsuc n) = 0

unfoldable pub home_node_timeout_duration : Configuration → ℕ
home_node_timeout_duration c = seconds_of c.home_node_timeout

unfoldable pub storage_operation_timeout_duration : Configuration → ℕ
storage_operation_timeout_duration c = seconds_of c.storage_operation_timeout

-- One constructor for each error of `Validate`.
pub data Problem : Type 0 where
  message_missing title_missing background_color_missing message_color_missing : Problem
  progress_color_missing scheme_missing scheme_invalid node_count_zero : Problem
  storage_operation_timeout_not_positive home_node_timeout_not_positive : Problem
  alive_polling_seconds_negative storage_manager_refresh_minutes_not_positive : Problem

pub data Verdict : Type 0 where
  usable : Verdict
  unusable : Problem → Verdict

abbrev pub given : Bytes → Bool
given s = ltb 0 (length s)

abbrev pub known_scheme : Bytes → Bool
known_scheme s = equal s (codes "http") || equal s (codes "https")

-- The checks in their order, each with the error of its failure.
abbrev pub checks : Configuration → List (Bool × Problem)
checks c =
    (given c.message, message_missing)
    ∷ (given c.title, title_missing)
    ∷ (given c.background_color, background_color_missing)
    ∷ (given c.message_color, message_color_missing)
    ∷ (given c.progress_color, progress_color_missing)
    ∷ (given c.scheme, scheme_missing)
    ∷ (known_scheme c.scheme, scheme_invalid)
    ∷ (ltb 0 c.node_count, node_count_zero)
    ∷ (is_positive c.storage_operation_timeout, storage_operation_timeout_not_positive)
    ∷ (is_positive c.home_node_timeout, home_node_timeout_not_positive)
    ∷ (not (is_negative c.alive_polling_seconds), alive_polling_seconds_negative)
    ∷ (is_positive c.storage_manager_refresh_minutes, storage_manager_refresh_minutes_not_positive)
    ∷ []

-- Each check runs only if `err == nil` still holds: the first failure is the result.
unfoldable pub first_failure : List (Bool × Problem) → Verdict
first_failure [] = usable
first_failure ((good, problem) ∷ rest) =
    let later = first_failure rest in if good then later else unusable problem

unfoldable pub validate : Configuration → Verdict
validate c = first_failure (checks c)
