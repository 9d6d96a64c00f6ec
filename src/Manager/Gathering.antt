-- ===== src/Manager/Gathering.antt =====
-- What `newStorageManager` has gathered when it returns a manager.
use swift_go.Prelude.{
  ℕ, zero, suc, ◌≤◌, ◌≡◌, refl, arith, some, none, List, [], ◌∷◌, ◌++◌, ok, err, Option, Result,
  length, get_elem?, append-nil, append_assoc, length-append, foldl, ◌∙◌, sym, ap, All,
  Option-cases, Result-cases, Bool-cases, inl, inr, bind-eq-ok, ok_injective, All-append, All-map,
  append-at_length, append-at_end, append-shift,
}
use swift_go.Io.{Time}
use swift_go.Node.{Node, Gcm, Zlib}
use swift_go.Configuration.{Configuration}
use swift_go.Stores.{Map, add_node}
use swift_go.Stores.Newest.{Keeps, add_node-Keeps, add_nodes-old}
use swift_go.Manager.{StoreOps, Manager}
use swift_go.Manager.Sharing.{Remote, get_sharing_nodes_from_store}
use swift_go.Manager.Loading.{
  Loading, bound_of, exceeds, ask_each, take_in, round, load, start, new_storage_manager, or_panic,
  and_then, manager_of,
}
use swift_go.Manager.Bound.{round-ok}
use swift_go.Manager.Growth.{Added, Known, Grown, ask_each-Grown}

or_panic_ok : (r : Result (List Node)) (ns : List Node) → or_panic r ≡ ok ns → r ≡ ok ns
or_panic_ok (ok os) ns e = e
or_panic_ok (err x) ns e = cc

module _ {S : Type 0} (ops : StoreOps S) where
  -- The manager has the configured stores in their order, then stores of shared nodes, no more in
  -- all than the bound, and its map knows the nodes of all of them.
  pub record Gathered (bound : ℕ) (sts : List S) (sm : Manager S) : Type 0 where
    pub shared : List S
    pub all : sm.stores ≡ sts ++ shared
    pub added : All (Added ops) shared
    pub known : All (Known ops sm.nodes) sm.stores
    pub within : length sm.stores ≤ bound

  Known_later :
      (m : Map Node) (ns : List Node) (s : S) → Known ops m s → Known ops (foldl add_node m ns) s
  Known_later m ns s known os at =
      All-map (Keeps m) (Keeps (foldl add_node m ns)) os (add_nodes-old m ns) (known os at)

  module _ (x : Remote) (g : Gcm) (z : Zlib) (c : Configuration) (now : Time) where
    -- What holds at the start of the round with the number `i`.
    record Inv (sts : List S) (i : ℕ) (st : Loading S) : Type 0 where
      rest : List S
      ahead : st.sts ≡ st.stores ++ rest
      count : length st.stores ≡ i
      shared : List S
      all : st.sts ≡ sts ++ shared
      added : All (Added ops) shared
      known : All (Known ops st.nodes) st.stores
      within : length st.stores ≤ bound_of c.max_stores

    round_parts :
        (i : ℕ) (s : S) (st st' : Loading S)
        → round ops x g z c now i s st ≡ ok st'
        → (mid : Loading S) × (ask_each ops x g z c now i (get_sharing_nodes_from_store ops s) st
            ≡ ok mid)
          × (take_in ops x g z c now s mid ≡ ok st')
    unfolding round
    round_parts i s st st' h = elim (Bool-cases (exceeds (length st.sts) c.max_stores)) [
      | inl too_many ↦ ground (arith, too_many, h)
      | inr within ↦
          bind-eq-ok (ask_each ops x g z c now i (get_sharing_nodes_from_store ops s) st)
            (take_in ops x g z c now s) (rw within at h)
    ]

    take_in-Inv :
        (sts rest : List S) (i : ℕ) (st mid : Loading S) (s : S) (ns : List Node)
        → Inv sts i st
        → Grown ops st mid
        → st.sts ≡ st.stores ++ s ∷ rest
        → length st.sts ≤ bound_of c.max_stores
        → ops.nodes_of s ≡ ok ns
        → Inv sts
            (suc i)
            (record mid { nodes = foldl add_node mid.nodes ns; stores = mid.stores ++ s ∷ [] })
    take_in-Inv sts rest i st mid s ns inv grown ahead bounded visited =
        let longer = length-append st.stores (s ∷ []) in
        let whole = ap length ahead ∙ length-append st.stores (s ∷ rest) in
        record {
          rest = rest ++ grown.more;
          ahead = rw grown.same_stores (
              grown.longer
              ∙ (ap (λ l. l ++ grown.more) ahead ∙ append-shift st.stores rest grown.more s));
          count = rw grown.same_stores (omega (arith, longer, inv.count));
          shared = inv.shared ++ grown.more;
          all =
              grown.longer
              ∙ (ap (λ l. l ++ grown.more) inv.all ∙ append_assoc sts inv.shared grown.more);
          added = All-append (Added ops) inv.shared grown.more inv.added grown.new;
          known =
              rw (grown.same_stores, grown.same_nodes)
                (All-append (Known ops (foldl add_node st.nodes ns)) st.stores (s ∷ [])
                  (All-map (Known ops st.nodes) (Known ops (foldl add_node st.nodes ns)) st.stores
                    (Known_later st.nodes ns) inv.known)
                  (fresh, tt));
          within = rw grown.same_stores (omega (arith, longer, whole, inv.count, bounded));
        }
      where
        fresh : Known ops (foldl add_node st.nodes ns) s
        fresh os at = rw (ok_injective (sym at ∙ visited)) (add_node-Keeps st.nodes ns)

    round-Inv :
        (sts : List S) (i : ℕ) (st st' : Loading S) (s : S)
        → Inv sts i st
        → get_elem? st.sts i ≡ some s
        → round ops x g z c now i s st ≡ ok st'
        → Inv sts (suc i) st'
    unfolding take_in
    round-Inv sts i st st' s inv found passed =
        let bounded = round-ok ops x g z c now i s st st' passed in
        let (mid, asked, taken) = round_parts i s st st' passed in
        let (ns, iterated, is) = bind-eq-ok (or_panic (ops.nodes_of s)) _ taken in
        let grown =
          ask_each-Grown ops x g z c now i (get_sharing_nodes_from_store ops s) st mid asked in
        let (rest, at) =
          append-at_length st.stores inv.rest s (rw (inv.count, sym inv.ahead) found) in
        let ahead = inv.ahead ∙ ap (λ l. st.stores ++ l) at in
        rw⁻¹ (ok_injective is) (
          take_in-Inv sts rest i st mid s ns inv grown ahead bounded
            (or_panic_ok (ops.nodes_of s) ns iterated))

    load_end :
        (f i : ℕ) (st : Loading S)
        → get_elem? st.sts i ≡ none
        → load ops x g z c now (suc f) i st ≡ some (ok st)
    unfolding load
    load_end f i st missing = rw (missing, load) refl

    load-round :
        (f i : ℕ) (st : Loading S) (s : S)
        → get_elem? st.sts i ≡ some s
        → load ops x g z c now (suc f) i st
          ≡ and_then (round ops x g z c now i s st) (load ops x g z c now f (suc i))
    unfolding load
    load-round f i st s found = rw (found, load) refl

    Inv-end :
        (sts : List S) (i : ℕ) (st : Loading S)
        → Inv sts i st
        → get_elem? st.sts i ≡ none
        → Gathered (bound_of c.max_stores) sts (record { stores = st.stores; nodes = st.nodes })
    Inv-end sts i st inv missing =
        let over = append-at_end st.stores inv.rest (rw (inv.count, sym inv.ahead) missing) in
        let whole = inv.ahead ∙ (ap (λ l. st.stores ++ l) over ∙ append-nil st.stores) in
        record {
          shared = inv.shared;
          all = sym whole ∙ inv.all;
          added = inv.added;
          known = inv.known;
          within = inv.within;
        }

    load-Inv :
        (f i : ℕ) (sts : List S) (st st' : Loading S)
        → Inv sts i st
        → load ops x g z c now f i st ≡ some (ok st')
        → Gathered (bound_of c.max_stores) sts (record { stores = st'.stores; nodes = st'.nodes })
    load-Inv zero i sts st st' inv h = unfold load in cc h
    load-Inv (suc f) i sts st st' inv h = elim (Option-cases (get_elem? st.sts i)) [
      | inl missing ↦
          let same : st ≡ st' = cc (sym (load_end f i st missing) ∙ h) in
          rw⁻¹ same (Inv-end sts i st inv missing)
      | inr (s, found) ↦
          let ran = sym (load-round f i st s found) ∙ h in
          elim (Result-cases (round ops x g z c now i s st)) [
            | inr (e, failed) ↦ let stopped = rw failed at ran in cc stopped
            | inl (after, passed) ↦
                load-Inv f (suc i) sts after st' (round-Inv sts i st after s inv found passed)
                  (rw passed at ran)
          ]
    ]

    start-Inv : (sts : List S) → Inv sts 0 (start sts)
    start-Inv sts = record {
      rest = sts;
      ahead = refl;
      count = refl;
      shared = [];
      all = sym (append-nil sts);
      added = tt;
      known = tt;
      within = omega arith;
    }

    -- A manager that `newStorageManager` returns has the configured stores in their order, and after
    -- them stores in memory that are read only, no more in all than `MaxStores`; and for every node of
    -- every one of its stores, its map has a node of the same domain that was created no earlier.
    pub new_storage_manager-Gathered :
        (sts : List S) (sm : Manager S)
        → new_storage_manager ops x g z c now sts ≡ some (ok sm)
        → Gathered (bound_of c.max_stores) sts sm
    unfolding new_storage_manager
    new_storage_manager-Gathered sts sm h =
        managed (load ops x g z c now (suc (bound_of c.max_stores)) 0 (start sts)) refl h
      where
        managed :
            (o : Option (Result (Loading S)))
            → load ops x g z c now (suc (bound_of c.max_stores)) 0 (start sts) ≡ o
            → manager_of o ≡ some (ok sm)
            → Gathered (bound_of c.max_stores) sts sm
        managed none e m = cc
        managed (some (err y)) e m = cc
        managed (some (ok st)) e m =
            let same : record { stores = st.stores; nodes = st.nodes } ≡ sm = cc m in
            rw⁻¹ same
              (load-Inv (suc (bound_of c.max_stores)) 0 sts (start sts) st (start-Inv sts) e)
