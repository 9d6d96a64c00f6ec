-- ===== src/StorageService/Alike.antt =====
-- What a call of `setNodes` leaves as it was in each of the stores.
use swift_go.Prelude.{
  ◌≡◌, refl, arith, true, false, List, [], ◌∷◌, ◌++◌, Bytes, length, take, drop, All, ◌∙◌,
  Result-cases, inl, inr,
}
use swift_go.Node.{Node}
use swift_go.Manager.{StoreOps, candidates, selected, set_each, set_in, set_nodes, get_store_names}
use swift_go.Manager.Setting.{candidates_one}

module _ {S : Type 0} (ops : StoreOps S) where
  -- A store that may have taken nodes, which one that is read only has not.
  pub record Same (s t : S) : Type 0 where
    pub name : ops.get_name t ≡ ops.get_name s
    pub rights : ops.get_read_only t ≡ ops.get_read_only s
    pub closed : ops.get_read_only s ≡ true → t ≡ s

  abbrev pub Alike : List S → List S → Type 0
  Alike [] [] = Unit
  Alike [] (t ∷ ts) = ⊥
  Alike (s ∷ ss) [] = ⊥
  Alike (s ∷ ss) (t ∷ ts) = Same s t × Alike ss ts

  Same-refl : (s : S) → Same s s
  Same-refl s = record { name = refl; rights = refl; closed = λ e. refl }

  Same-trans : (s t u : S) → Same s t → Same t u → Same s u
  Same-trans s t u p q = record {
    name = q.name ∙ p.name;
    rights = q.rights ∙ p.rights;
    closed = λ e. q.closed (p.rights ∙ e) ∙ p.closed e;
  }

  pub Alike-refl : (l : List S) → Alike l l
  Alike-refl [] = tt
  Alike-refl (s ∷ l) = (Same-refl s, Alike-refl l)

  pub Alike-trans : (l m n : List S) → Alike l m → Alike m n → Alike l n
  Alike-trans [] [] [] p q = tt
  Alike-trans [] [] (u ∷ n) p q = elim q [ ]
  Alike-trans [] (t ∷ m) n p q = elim p [ ]
  Alike-trans (s ∷ l) [] n p q = elim p [ ]
  Alike-trans (s ∷ l) (t ∷ m) [] p q = elim q [ ]
  Alike-trans (s ∷ l) (t ∷ m) (u ∷ n) (p, ps) (q, qs) =
      (Same-trans s t u p q, Alike-trans l m n ps qs)

  Alike-middle : (l r : List S) (s t : S) → Same s t → Alike (l ++ s ∷ r) (l ++ t ∷ r)
  Alike-middle [] r s t p = (p, Alike-refl r)
  Alike-middle (x ∷ l) r s t p = (Same-refl x, Alike-middle l r s t p)

  pub Alike-take : (l r m : List S) → Alike (l ++ r) m → Alike l (take (length l) m)
  Alike-take [] r m p = tt
  Alike-take (s ∷ l) r [] p = elim p [ ]
  Alike-take (s ∷ l) r (t ∷ m) (p, ps) = (p, Alike-take l r m ps)

  -- Behind the configured stores there are only stores that are read only.
  pub Alike-drop :
      (l r m : List S)
      → All (λ s. ops.get_read_only s ≡ true) r
      → Alike (l ++ r) m
      → drop (length l) m ≡ r
  Alike-drop [] [] [] closed p = refl
  Alike-drop [] [] (t ∷ m) closed p = elim p [ ]
  Alike-drop [] (s ∷ r) [] closed p = elim p [ ]
  Alike-drop (s ∷ l) r [] closed p = elim p [ ]
  Alike-drop [] (s ∷ r) (t ∷ m) (c, cs) (p, ps) = cc (p.closed c, Alike-drop [] r m cs ps)
  Alike-drop (s ∷ l) r (t ∷ m) closed (p, ps) = Alike-drop l r m closed ps

  pub get_store_names-Alike :
      (l m : List S) → Alike l m → get_store_names ops m ≡ get_store_names ops l
  unfolding get_store_names
  get_store_names-Alike [] [] p = refl
  get_store_names-Alike [] (t ∷ m) p = elim p [ ]
  get_store_names-Alike (s ∷ l) [] p = elim p [ ]
  get_store_names-Alike (s ∷ l) (t ∷ m) (p, ps) =
      rw (p.rights, p.name, get_store_names-Alike l m ps) refl

  set_each-Same :
      (ns : List Node) (s : S) → ops.get_read_only s ≡ false → Same s (set_each ops ns s).0
  unfolding set_each
  set_each-Same [] s writable = Same-refl s
  set_each-Same (n ∷ ns) s writable = elim (Result-cases (ops.set_node s n)) [
    | inl (t, set) ↦
        let rights = ops.get_read_only-set_node s t n set in
        let one : Same s t = record {
          name = ops.get_name-set_node s t n set;
          rights = rights;
          closed = λ e. cc (e, writable);
        } in
        rw set (Same-trans s t (set_each ops ns t).0 one (set_each-Same ns t (rights ∙ writable)))
    | inr (e, failed) ↦ rw failed (Same-refl s)
  ]

  selected-open :
      (store : Bytes) (s : S) → selected ops store s ≡ true → ops.get_read_only s ≡ false
  unfolding selected
  selected-open store s e = ground (arith, e)

  set_in-Alike :
      (store : Bytes) (ns : List Node) (l c : List S)
      → candidates ops store l ≡ c
      → Alike l (set_in ops store ns l c).stores
  unfolding set_in
  set_in-Alike store ns l [] e = Alike-refl l
  set_in-Alike store ns l (s ∷ []) e =
      let o = candidates_one ops store l s e in
      let t = (set_each ops ns s).0 in
      rw (o.replaced t, o.split)
        (Alike-middle o.before o.after s t
          (set_each-Same ns s (selected-open store s o.is_selected)))
  set_in-Alike store ns l (s ∷ t ∷ c) e = Alike-refl l

  -- A call of `setNodes`, with or without an error, leaves every store its name and its rights, and a
  -- store that is read only as it was.
  pub set_nodes-Alike :
      (store : Bytes) (ns : List Node) (l : List S) → Alike l (set_nodes ops store ns l).stores
  unfolding set_nodes
  set_nodes-Alike store [] l = Alike-refl l
  set_nodes-Alike store (n ∷ ns) l = set_in-Alike store (n ∷ ns) l (candidates ops store l) refl
