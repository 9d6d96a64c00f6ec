-- ===== src/Manager/Setting.antt =====
-- Which stores `setNodes` changes.
use swift_go.Prelude.{
  ℕ, zero, suc, ◌≡◌, refl, arith, true, none, some, List, [], ◌∷◌, ◌++◌, Bytes, get_elem?,
  Bool-cases, inl, inr, ap,
}
use swift_go.Node.{Node}
use swift_go.Manager.{StoreOps, Change, selected, candidates, replace, set_each, set_in, set_nodes}

cons_injective : {A : Type 0} {x y : A} {xs ys : List A} → x ∷ xs ≡ y ∷ ys → (x ≡ y) × (xs ≡ ys)
cons_injective e = (cc e, cc e)

module _ {S : Type 0} (ops : StoreOps S) (store : Bytes) where
  replace-none : (t : S) (l : List S) → candidates ops store l ≡ [] → replace ops store t l ≡ l
  unfolding candidates replace
  replace-none t [] e = refl
  replace-none t (s ∷ l) e = elim (Bool-cases (selected ops store s)) [
    | inl is_it ↦ ground (arith, is_it, e)
    | inr not_it ↦ rw not_it (ap (◌∷◌ s) (replace-none t l (rw not_it at e)))
  ]

  -- The place of the only candidate among the stores.
  pub record Only (s : S) (l : List S) : Type 0 where
    pub before : List S
    pub after : List S
    pub split : l ≡ before ++ s ∷ after
    pub is_selected : selected ops store s ≡ true
    none_before : candidates ops store before ≡ []
    none_after : candidates ops store after ≡ []
    pub replaced : (t : S) → replace ops store t l ≡ before ++ t ∷ after

  pub candidates_one : (l : List S) (s : S) → candidates ops store l ≡ s ∷ [] → Only s l
  unfolding candidates replace
  candidates_one [] s e = cc e
  candidates_one (r ∷ l) s e = elim (Bool-cases (selected ops store r)) [
    | inl is_it ↦
        let (same, others) = cons_injective (rw is_it at e) in
        record {
          before = [];
          after = l;
          split = rw same refl;
          is_selected = rw⁻¹ same is_it;
          none_before = refl;
          none_after = others;
          replaced = λ t. rw is_it (ap (◌∷◌ t) (replace-none t l others));
        }
    | inr not_it ↦
        let o = candidates_one l s (rw not_it at e) in
        record {
          before = r ∷ o.before;
          after = o.after;
          split = ap (◌∷◌ r) o.split;
          is_selected = o.is_selected;
          none_before = rw not_it o.none_before;
          none_after = o.none_after;
          replaced = λ t. rw not_it (ap (◌∷◌ r) (o.replaced t));
        }
  ]

  -- `setNodes` has written the nodes to the one store that it may write to, and left the others.
  pub record Written (ns : List Node) (stores : List S) (c : Change S) : Type 0 where
    pub before : List S
    pub written : S
    pub after : List S
    pub result : S
    pub split : stores ≡ before ++ written ∷ after
    pub is_selected : selected ops store written ≡ true
    pub none_before : candidates ops store before ≡ []
    pub none_after : candidates ops store after ≡ []
    pub is_set : set_each ops ns written ≡ (result, none)
    pub is_result : c.stores ≡ before ++ result ∷ after

  set_in-Written :
      (ns : List Node) (stores l : List S)
      → candidates ops store stores ≡ l
      → (set_in ops store ns stores l).error ≡ none
      → Written ns stores (set_in ops store ns stores l)
  unfolding set_in
  set_in-Written ns stores [] e h = cc
  set_in-Written ns stores (s ∷ []) e h =
      let o = candidates_one stores s e in
      record {
        before = o.before;
        written = s;
        after = o.after;
        result = (set_each ops ns s).0;
        split = o.split;
        is_selected = o.is_selected;
        none_before = o.none_before;
        none_after = o.none_after;
        is_set = (λ i. ((set_each ops ns s).0, h i));
        is_result = o.replaced (set_each ops ns s).0;
      }
  set_in-Written ns stores (s ∷ t ∷ more) e h = cc

  -- Where `setNodes` returns no error, exactly one of the stores was writable and had the name that
  -- was asked for, or any name where none was; every node was set in that store, one after the other,
  -- and all other stores are what they were.
  pub set_nodes-Written :
      (ns : List Node) (stores : List S)
      → (set_nodes ops store ns stores).error ≡ none
      → Written ns stores (set_nodes ops store ns stores)
  unfolding set_nodes
  set_nodes-Written [] stores h = cc
  set_nodes-Written (n ∷ ns) stores h =
      set_in-Written (n ∷ ns) stores (candidates ops store stores) refl h

  replace-read_only :
      (t s : S) (l : List S) (i : ℕ)
      → ops.get_read_only s ≡ true
      → get_elem? l i ≡ some s
      → get_elem? (replace ops store t l) i ≡ some s
  unfolding replace selected
  replace-read_only t s [] i closed at = at
  replace-read_only t s (r ∷ l) zero closed at = ground (arith, closed)
  replace-read_only t s (r ∷ l) (suc i) closed at =
      ground (arith, replace-read_only t s l i closed at)

  -- A store that is read only is what it was after a call of `setNodes`, at its place among the
  -- stores, whether the call returns an error or not.
  set_nodes-read_only :
      (ns : List Node) (s : S) (stores : List S) (i : ℕ)
      → ops.get_read_only s ≡ true
      → get_elem? stores i ≡ some s
      → get_elem? (set_nodes ops store ns stores).stores i ≡ some s
  unfolding set_nodes set_in
  set_nodes-read_only [] s stores i closed at = at
  set_nodes-read_only (n ∷ ns) s stores i closed at = set_in-read_only (candidates ops store stores)
    where
      set_in-read_only :
          (l : List S) → get_elem? (set_in ops store (n ∷ ns) stores l).stores i ≡ some s
      set_in-read_only [] = at
      set_in-read_only (r ∷ []) = replace-read_only (set_each ops (n ∷ ns) r).0 s stores i closed at
      set_in-read_only (r ∷ t ∷ more) = at
