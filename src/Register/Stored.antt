-- ===== src/Register/Stored.antt =====
-- What holds of a node that the registration has stored.
use swift_go.Prelude.{
  ℕ, ℤ, pos, negsuc, ◌&&◌, codes, ◌≤◌, ◌<◌, ◌≡◌, refl, arith, Bool, true, false, Option, none, some,
  List, [], ◌∷◌, Result, ok, err, Error, is_panic, Bytes, length, ap, ◌∙◌, Bool-cases, Option-cases,
  inl, inr,
}
use swift_go.Io.{Time, zero_time}
use swift_go.Node.{Node, role_storage}
use swift_go.Manager.{StoreOps, set_nodes}
use swift_go.Manager.Setting.{Written, set_nodes-Written}
use swift_go.HandlerCreate.{Values, value_of, is_empty_text}
use swift_go.Register.{
  Register, Tools, shown, check_network, check_role, check_expiry, register_of, store, store_node,
  registered, handle_register, is_valid, is_none, node_of, parsed, shown_of,
}

-- What the form must have been, for the node to be stored.
pub record Admitted (now : Time) (d : Register) : Type 0 where
  pub long_enough : 3 < length d.network
  pub short_enough : length d.network ≤ 20
  pub role : (n : ℕ) × (d.role ≡ pos n) × (n ≤ 2)
  pub expires : now ≤ d.expires

abbrev IsRole : ℤ → Type 0
IsRole r = (n : ℕ) × (r ≡ pos n) × (n ≤ 2)

check_role_none : (r : ℤ) → is_none (check_role r) ≡ true → IsRole r
check_role_none (pos n) h = (n, refl, ground arith)
check_role_none (negsuc n) h = cc

-- What a check says of a value that was given, and what holds of the default, holds of the outcome.
parsed-holds :
    {A : Type 0} (P : A → Type 0) (v : Bytes) (r : Result A) (default failed : A)
    (check : A → Option Error)
    → P default
    → ((a : A) → is_none (check a) ≡ true → P a)
    → is_none (parsed v r default failed check).1 ≡ true
    → P (parsed v r default failed check).0
parsed-holds P v (ok a) default failed check d good h = elim (Bool-cases (is_empty_text v)) [
  | inl empty ↦ rw empty d
  | inr given ↦ rw given (good a (rw given at h))
]
parsed-holds P v (err e) default failed check d good h = elim (Bool-cases (is_empty_text v)) [
  | inl empty ↦ rw empty d
  | inr given ↦ let wrong = rw given at h in cc wrong
]

check_network_none :
    (s : Bytes) → is_none (check_network s) ≡ true → (3 < length s) × (length s ≤ 20)
check_network_none s h = ground arith

check_expiry_none : (now e : Time) → is_none (check_expiry now e) ≡ true → now ≤ e
check_expiry_none now e h = ground arith

and_true : (a b c : Bool) → (a && b && c) ≡ true → (a ≡ true) × (b ≡ true) × (c ≡ true)
and_true true true c h = (refl, refl, h)
and_true true false c h = cc
and_true false b c h = cc

register_of-Admitted :
    (t : Tools) (store_names : List Bytes) (now : Time) (host : Bytes) (form : Values)
    → is_valid (register_of t store_names now host form) ≡ true
    → Admitted now (register_of t store_names now host form)
unfolding register_of
register_of-Admitted t store_names now host form h =
    let (no_expiry, no_role, no_network) = and_true _ _ _ h in
    let (long, short) = check_network_none (value_of (codes "network") form) no_network in
    let role = value_of (codes "role") form in
    let expires = value_of (codes "expires") form in
    record {
      long_enough = long;
      short_enough = short;
      role =
          parsed-holds IsRole role (t.parse_int role) (pos role_storage) (t.failed_int role)
            check_role (1, refl, omega arith) check_role_none no_role;
      expires =
          parsed-holds (λ e. now ≤ e) expires (t.parse_day expires) (t.add_date now 3 0) zero_time
            (check_expiry now) (t.add_date-le now 3 0) (check_expiry_none now) no_expiry;
    }

module _ (t : Tools) {S : Type 0} (ops : StoreOps S) where
  -- The page says that the node was stored: a node was made of the register, and `setNodes` has
  -- written it to the one store that it may write to.
  pub record Stored (made : Result Node) (d page : Register) (stores left : List S) : Type 0 where
    pub node : Node
    pub is_made : made ≡ ok node
    pub change : Written ops d.store (node ∷ []) stores (set_nodes ops d.store (node ∷ []) stores)
    pub is_left : left ≡ (set_nodes ops d.store (node ∷ []) stores).stores

  store-Stored :
      (made : Result Node) (d page : Register) (stores left : List S)
      → d.read_only ≡ false
      → store t ops made d stores ≡ ok (page, left)
      → page.read_only ≡ true
      → Stored made d page stores left
  unfolding store
  store-Stored (ok n) d page stores left closed h said =
      elim (Option-cases (set_nodes ops d.store (n ∷ []) stores).error) [
        | inl well ↦ record {
          node = n;
          is_made = refl;
          change = set_nodes-Written ops d.store (n ∷ []) stores well;
          is_left = cc h;
        }
        | inr (e, failed) ↦
            let same : record d { store_error = some e } ≡ page = cc (rw failed at h) in
            let opened = ap (λ (p : Register). p.read_only) same ∙ said in cc (closed, opened)
      ]
  store-Stored (err e) d page stores left closed h said = elim (Bool-cases (is_panic e)) [
    | inl panic ↦ let ended = rw panic at h in cc ended
    | inr other ↦
        let same : record d { error = some e } ≡ page = cc (rw other at h) in
        let opened = ap (λ (p : Register). p.read_only) same ∙ said in cc (closed, opened)
  ]

  shown_parts :
      (r : Result (Register × List S)) (page : Register) (left : List S)
      → shown_of t ops r ≡ ok (shown page left)
      → r ≡ ok (page, left)
  shown_parts (ok (p, l)) page left h =
      let same_page : p ≡ page = cc h in
      let same_left : l ≡ left = cc h in rw (same_page, same_left) refl
  shown_parts (err e) page left h = cc

  -- A node is stored only where the `get_node` that the handler asks, which need not know what the
  -- stores hold by now, gives none for the host, and for a network of 4 to 20 bytes, one of the three
  -- roles and an expiry that is not past: where the page says so, the register that was filled from
  -- the form is of that kind, and its node was made and written to the only store that `setNodes` may
  -- write to, while the other stores are left.
  pub handle_register-Stored :
      (get_node : Bytes → Option Node) (store_names : List Bytes) (address : ℕ)
      (for_scrambler for_secret : Result Bytes) (now : Time) (host : Bytes) (form : Values)
      (page : Register) (stores left : List S)
      → handle_register t ops get_node store_names address for_scrambler for_secret now host
          (ok form)
          stores
        ≡ ok (shown page left)
      → page.read_only ≡ true
      → (get_node host ≡ none)
        × Admitted now (register_of t store_names now host form)
        × Stored
            (node_of t address for_scrambler for_secret now
              (register_of t store_names now host form))
            (register_of t store_names now host form)
            page
            stores
            left
  unfolding handle_register registered store_node
  handle_register-Stored get_node store_names address for_scrambler for_secret now host form page
        stores left h said =
      elim (Option-cases (get_node host)) [
        | inr (n, found) ↦ let known = rw (found, handle_register) at h in cc known
        | inl missing ↦
            let d = register_of t store_names now host form in
            let ran : registered t ops address for_scrambler for_secret now d stores
                ≡ ok (shown page left) =
              rw (missing, handle_register) at h in
            elim (Bool-cases (is_valid d)) [
              | inr invalid ↦
                  let same : d ≡ page = cc (rw (invalid, registered) at ran) in
                  let closed : false ≡ true = ap (λ (p : Register). p.read_only) same ∙ said in
                  cc closed
              | inl valid ↦
                  let made = node_of t address for_scrambler for_secret now d in
                  let shows : shown_of t ops (store t ops made d stores) ≡ ok (shown page left) =
                    rw (valid, registered) at ran in
                  (
                    missing,
                    register_of-Admitted t store_names now host form valid,
                    store-Stored made d page stores left refl
                        (shown_parts (store t ops made d stores) page left shows) said,
                  )
            ]
      ]
