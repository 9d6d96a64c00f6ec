-- ===== src/Configuration/Validity.antt =====
-- Which settings `Validate` accepts.
use swift_go.Prelude.{
  ℕ, ◌<◌, ◌≡◌, ◌≢◌, ◌⊎◌, ◌↔◌, refl, arith, true, false, [], codes, Bytes, ℤ, pos, negsuc, ltb→lt,
  lt→ltb, is_positive, is_negative, equal_iff, equal, Bool, ◌∷◌, List, All, not,
}
use swift_go.Configuration.{
  Configuration, Problem, checks, first_failure, validate, usable, given, known_scheme,
}

-- What `Validate` checks, in words.
pub record IsChecked (c : Configuration) : Type 0 where
  pub message : c.message ≢ []
  pub title : c.title ≢ []
  pub background_color : c.background_color ≢ []
  pub message_color : c.message_color ≢ []
  pub progress_color : c.progress_color ≢ []
  pub scheme : (c.scheme ≡ codes "http") ⊎ (c.scheme ≡ codes "https")
  pub node_count : 0 < c.node_count
  pub storage_operation_timeout : (n : ℕ) × (0 < n) × (c.storage_operation_timeout ≡ pos n)
  pub home_node_timeout : (n : ℕ) × (0 < n) × (c.home_node_timeout ≡ pos n)
  pub alive_polling_seconds : (n : ℕ) × (c.alive_polling_seconds ≡ pos n)
  pub storage_manager_refresh_minutes :
      (n : ℕ) × (0 < n) × (c.storage_manager_refresh_minutes ≡ pos n)

given_iff : (s : Bytes) → (given s ≡ true) ↔ (s ≢ [])
given_iff [] = (λ e. cc, λ h. absurd (h refl))
given_iff (x ∷ s) = (λ e p. cc, λ h. ground arith)

known_scheme_iff :
    (s : Bytes) → (known_scheme s ≡ true) ↔ ((s ≡ codes "http") ⊎ (s ≡ codes "https"))
known_scheme_iff s = ground (arith, equal_iff s (codes "http"), equal_iff s (codes "https"))

is_positive_iff : (a : ℤ) → (is_positive a ≡ true) ↔ ((n : ℕ) × (0 < n) × (a ≡ pos n))
is_positive_iff (pos n) = (λ e. (n, ground arith, refl), λ h. ground arith)
is_positive_iff _ = (λ e. cc, λ h. cc (h.2))

All-pass : (l : List (Bool × Problem)) → first_failure l ≡ usable → All (λ c. c.0 ≡ true) l
unfolding first_failure
All-pass [] h = tt
All-pass ((true, p) ∷ l) h = (refl, All-pass l h)
All-pass ((false, p) ∷ l) h = cc

passes-All : (l : List (Bool × Problem)) → All (λ c. c.0 ≡ true) l → first_failure l ≡ usable
unfolding first_failure
passes-All [] h = refl
passes-All ((true, p) ∷ l) (e, h) = passes-All l h
passes-All ((false, p) ∷ l) (e, h) = cc

-- a known scheme is not empty
given-known_scheme : (s : Bytes) → known_scheme s ≡ true → given s ≡ true
unfolding equal
given-known_scheme [] h = cc
given-known_scheme (x ∷ s) h = ground arith

not_negative : (a : ℤ) → not (is_negative a) ≡ true → (n : ℕ) × (a ≡ pos n)
not_negative (pos n) h = (n, refl)
not_negative (negsuc n) h = cc

validate-IsChecked : (c : Configuration) → (validate c ≡ usable) ↔ IsChecked c
unfolding validate
validate-IsChecked c = (
  λ h.
      let ok = All-pass (checks c) h in
      record {
        message = (given_iff c.message).0 ok.0;
        title = (given_iff c.title).0 ok.1.0;
        background_color = (given_iff c.background_color).0 ok.1.1.0;
        message_color = (given_iff c.message_color).0 ok.1.1.1.0;
        progress_color = (given_iff c.progress_color).0 ok.1.1.1.1.0;
        scheme = (known_scheme_iff c.scheme).0 ok.1.1.1.1.1.1.0;
        node_count = ltb→lt 0 c.node_count ok.1.1.1.1.1.1.1.0;
        storage_operation_timeout =
            (is_positive_iff c.storage_operation_timeout).0 ok.1.1.1.1.1.1.1.1.0;
        home_node_timeout = (is_positive_iff c.home_node_timeout).0 ok.1.1.1.1.1.1.1.1.1.0;
        alive_polling_seconds = not_negative c.alive_polling_seconds ok.1.1.1.1.1.1.1.1.1.1.0;
        storage_manager_refresh_minutes =
            (is_positive_iff c.storage_manager_refresh_minutes).0 ok.1.1.1.1.1.1.1.1.1.1.1.0;
      },
  λ u. passes-All (checks c) (
      let known = (known_scheme_iff c.scheme).1 u.scheme in
      (
        (given_iff c.message).1 u.message,
        (
          (given_iff c.title).1 u.title,
          (
            (given_iff c.background_color).1 u.background_color,
            (
              (given_iff c.message_color).1 u.message_color,
              (
                (given_iff c.progress_color).1 u.progress_color,
                (
                  given-known_scheme c.scheme known,
                  (
                    known,
                    (
                      lt→ltb 0 c.node_count u.node_count,
                      (
                        (is_positive_iff c.storage_operation_timeout).1 u.storage_operation_timeout,
                        (
                          (is_positive_iff c.home_node_timeout).1 u.home_node_timeout,
                          (
                            rw (u.alive_polling_seconds.1) refl,
                            (
                              (is_positive_iff c.storage_manager_refresh_minutes).1
                                  u.storage_manager_refresh_minutes,
                              tt,
                            ),
                          ),
                        ),
                      ),
                    ),
                  ),
                ),
              ),
            ),
          ),
        ),
      )),
)

-- `Validate` reports no error exactly where the texts are given, the scheme is http or https, the
-- node count, the two timeouts and the minutes between refreshes are positive, and the seconds of
-- polling are not negative. The bound on the number of stores makes no difference to it.
pub validate_iff :
    (c : Configuration)
    → ((validate c ≡ usable) ↔ IsChecked c)
      × ((bound : ℤ) → validate (record c { max_stores = bound }) ≡ validate c)
unfolding validate
validate_iff c = (validate-IsChecked c, λ bound. refl)
