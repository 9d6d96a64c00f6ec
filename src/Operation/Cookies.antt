-- ===== src/Operation/Cookies.antt =====
-- When the cookies of the home node can be relied upon.
use swift_go.Prelude.{
  ℕ, suc, ◌+◌, ◌<◌, ◌≡◌, refl, ◌⊎◌, ◌↔◌, inl, inr, arith, Bool, true, false, Option, none, some,
  List, [], ◌∷◌, length, All, Bool-cases, Option-cases,
}
use swift_go.Io.{Time, is_zero, before}
use swift_go.Pair.{OperationPair, is_empty}
use swift_go.Configuration.{Configuration, home_node_timeout_duration}
use swift_go.Operation.{
  Operation, Scan, going, refused, scan_pairs, finish_scan, find_pair, get_cookies_valid,
}

module _ (timeout : ℕ) (later : Time) where
  -- A pair whose cookie was written within the timeout, or holds no write time; without a cookie it
  -- has no values.
  abbrev pub IsCurrent : OperationPair → Option OperationPair → Type 0
  IsCurrent p none = is_empty p ≡ true
  IsCurrent p (some c) =
      (is_zero c.cookie_write_time ≡ true) ⊎ (later < c.cookie_write_time + timeout)

abbrev one_more : Option OperationPair → ℕ → ℕ
one_more none n = suc n
one_more (some c) n = n

-- How many pairs have no cookie.
abbrev pub missing : List OperationPair → List OperationPair → ℕ
missing cookies [] = 0
missing cookies (p ∷ ps) = one_more (find_pair p.key cookies) (missing cookies ps)

module _ (timeout : ℕ) (later : Time) (count : ℕ) (cookies : List OperationPair) where
  abbrev finished : Scan → List OperationPair → Bool
  finished s ps = finish_scan timeout later count (scan_pairs cookies ps s)

  refused_stays : (ps : List OperationPair) → finished refused ps ≡ false
  unfolding scan_pairs
  refused_stays [] = refl
  refused_stays (p ∷ ps) = refl

  abbrev Passes : Time → ℕ → List OperationPair → Type 0
  Passes t e ps =
      (later < t + timeout)
      × All (λ p. IsCurrent timeout later p (find_pair p.key cookies)) ps
      × (e + missing cookies ps < count)

  module _ (p : OperationPair) (ps : List OperationPair) (t : Time) (e : ℕ) where
    -- one round at a pair without a cookie
    no_cookie :
        find_pair p.key cookies ≡ none
        → ((finished (going t (suc e)) ps ≡ true) ↔ Passes t (suc e) ps)
        → (finished (going t e) (p ∷ ps) ≡ true) ↔ Passes t e (p ∷ ps)
    unfolding scan_pairs
    no_cookie gone (there, back) = elim (Bool-cases (is_empty p)) [
      | inl empty ↦
          rw (gone, empty)
            (
              λ h. let (a, b, c) = there h in (a, (refl, b), omega arith),
              λ (a, b, c). back (a, b.1, omega arith),
            )
      | inr full ↦ rw (gone, full) (λ h. cc (refused_stays ps), λ (a, b, c). cc (b.0))
    ]

    -- one round at a pair with a cookie
    with_cookie :
        (c : OperationPair)
        → find_pair p.key cookies ≡ some c
        → ((u : Time) → (finished (going u e) ps ≡ true) ↔ Passes u e ps)
        → (finished (going t e) (p ∷ ps) ≡ true) ↔ Passes t e (p ∷ ps)
    unfolding scan_pairs
    with_cookie c found rest = elim (Bool-cases (is_zero c.cookie_write_time)) [
      | inl unset ↦
          rw (found, unset)
            (
              λ h. let (a, b, d) = (rest t).0 h in (a, (inl refl, b), d),
              λ (a, b, d). (rest t).1 (a, b.1, d),
            )
      | inr written ↦ elim (Bool-cases (before c.cookie_write_time t)) [
        | inl older ↦
            rw (found, written, older)
              (
                λ h.
                    let (a, b, d) = (rest c.cookie_write_time).0 h in (ground arith, (inr a, b), d),
                λ (a, b, d). (rest c.cookie_write_time).1 (ground (arith, b.0), b.1, d),
              )
        | inr newer ↦
            rw (found, written, newer)
              (
                λ h. let (a, b, d) = (rest t).0 h in (a, (inr (ground arith), b), d),
                λ (a, b, d). (rest t).1 (a, b.1, d),
              )
      ]
    ]

  scan_pairs_iff :
      (ps : List OperationPair) (t : Time) (e : ℕ)
      → (finished (going t e) ps ≡ true) ↔ Passes t e ps
  unfolding scan_pairs
  scan_pairs_iff [] t e = (λ h. (ground arith, tt, ground arith), λ (a, b, c). ground arith)
  scan_pairs_iff (p ∷ ps) t e = elim (Option-cases (find_pair p.key cookies)) [
    | inl gone ↦ no_cookie p ps t e gone (scan_pairs_iff ps t (suc e))
    | inr (c, found) ↦ with_cookie p ps t e c found (λ u. scan_pairs_iff ps u e)
  ]

-- The cookies are valid exactly if the second reading of the clock is within the home node timeout
-- of the first, every pair is current, and not all the pairs lack a cookie.
pub get_cookies_valid_iff :
    (c : Configuration) (now later : Time) (o : Operation)
    → (get_cookies_valid c now later o ≡ true) ↔ (
        (later < now + home_node_timeout_duration c)
        × All
            (λ p. IsCurrent (home_node_timeout_duration c) later p (find_pair p.key o.cookie_pairs))
            o.resolved
        × (0 + missing o.cookie_pairs o.resolved < length o.resolved))
unfolding get_cookies_valid
get_cookies_valid_iff c now later o =
    scan_pairs_iff (home_node_timeout_duration c) later (length o.resolved) o.cookie_pairs
      o.resolved now 0
