-- ===== src/Manager/Bound.antt =====
-- The loop of `newStorageManager` ends, although it makes its own list of stores longer.
use swift_go.Prelude.{
  ℕ, zero, suc, ◌+◌, ◌≤◌, ◌<◌, ◌≡◌, refl, arith, false, some, List, ok, err, Result, bind, length,
  get_elem?, ℤ, pos, negsuc, Option-cases, Result-cases, Bool-cases, inl, inr, lt_of_get_elem?,
}
use swift_go.Io.{Time}
use swift_go.Node.{Gcm, Zlib}
use swift_go.Configuration.{Configuration}
use swift_go.Manager.{StoreOps, Manager}
use swift_go.Manager.Sharing.{Remote}
use swift_go.Manager.Loading.{Loading, exceeds, bound_of, round, load, start, new_storage_manager}

exceeds_bound : (n : ℕ) (m : ℤ) → exceeds n m ≡ false → n ≤ bound_of m
exceeds_bound n (pos m) h = ground arith
exceeds_bound n (negsuc m) h = cc

module _ {S : Type 0} (ops : StoreOps S) (x : Remote) (g : Gcm) (z : Zlib) (c : Configuration)
    (now : Time) where
  -- A round that ends well had no more stores than the bound.
  pub round-ok :
      (i : ℕ) (s : S) (st after : Loading S)
      → round ops x g z c now i s st ≡ ok after
      → length st.sts ≤ bound_of c.max_stores
  unfolding round
  round-ok i s st after h = elim (Bool-cases (exceeds (length st.sts) c.max_stores)) [
    | inl too_many ↦ ground (arith, too_many, h)
    | inr within ↦ exceeds_bound (length st.sts) c.max_stores within
  ]

  rounds-some :
      (f i : ℕ) (st : Loading S)
      → bound_of c.max_stores ≤ f + i
      → (0 < f
          → (after : Loading S)
          → (r : Result (Loading S)) × (load ops x g z c now f (suc i) after ≡ some r))
      → (r : Result (Loading S)) × (load ops x g z c now (suc f) i st ≡ some r)
  unfolding load
  rounds-some f i st enough again = elim (Option-cases (get_elem? st.sts i)) [
    | inl missing ↦ (ok st, rw (missing, load) refl)
    | inr (s, found) ↦ elim (Result-cases (round ops x g z c now i s st)) [
      | inr (e, failed) ↦ (err e, rw (found, load, failed) refl)
      | inl (after, passed) ↦
          let within = round-ok i s st after passed in
          let before = lt_of_get_elem? st.sts i found in
          let (r, done) = again (omega (arith, enough, within, before)) after in
          (r, rw (found, load, passed) done)
    ]
  ]

  load-some :
      (f i : ℕ) (st : Loading S)
      → bound_of c.max_stores ≤ f + i
      → (r : Result (Loading S)) × (load ops x g z c now (suc f) i st ≡ some r)
  load-some zero i st enough = rounds-some zero i st enough (λ more after. absurd (omega arith))
  load-some (suc f) i st enough =
      rounds-some (suc f) i st enough
        (λ more after. load-some f (suc i) after (omega (arith, enough)))

  -- `newStorageManager` returns, with a manager or with an error, whatever stores it is given and
  -- whatever the nodes that it asks answer: the fuel of the model never ends.
  pub new_storage_manager_ends :
      (sts : List S) → (r : Result (Manager S)) × (new_storage_manager ops x g z c now sts ≡ some r)
  unfolding new_storage_manager
  new_storage_manager_ends sts =
      let (r, done) = load-some (bound_of c.max_stores) 0 (start sts) (omega arith) in
      (bind r (λ st. ok (record { stores = st.stores; nodes = st.nodes })), rw done refl)
