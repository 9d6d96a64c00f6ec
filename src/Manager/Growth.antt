-- ===== src/Manager/Growth.antt =====
-- What the sharing nodes of one store add to the stores of the manager.
use swift_go.Prelude.{
  ℕ, ◌≡◌, refl, true, List, [], ◌∷◌, ◌++◌, ok, append-nil, append_assoc, ◌∙◌, sym, ap, All,
  Bool-cases, inl, inr, bind-eq-ok, ok_injective, codes, Bytes, All-append,
}
use swift_go.Io.{Time}
use swift_go.Node.{Node, Gcm, Zlib}
use swift_go.Configuration.{Configuration}
use swift_go.Stores.{Map, Volatile, new_volatile}
use swift_go.Stores.Newest.{Keeps}
use swift_go.Manager.{StoreOps}
use swift_go.Manager.Sharing.{Remote, shared_nodes, has_storage}
use swift_go.Manager.Loading.{Loading, is_checked, with_shared, ask, ask_each}

module _ {S : Type 0} (ops : StoreOps S) where
  -- The store was made of shared nodes: it is in memory and read only.
  abbrev pub Added : S → Type 0
  Added s = (v : Volatile) × ((s ≡ ops.of_volatile v) × (v.read_only ≡ true))

  -- For every node that the store has, the map has one of its domain that is no older.
  abbrev pub Known : Map Node → S → Type 0
  Known m s = (ns : List Node) → ops.nodes_of s ≡ ok ns → All (Keeps m) ns

  pub record Grown (st st' : Loading S) : Type 0 where
    pub more : List S
    pub longer : st'.sts ≡ st.sts ++ more
    pub new : All Added more
    pub same_stores : st'.stores ≡ st.stores
    pub same_nodes : st'.nodes ≡ st.nodes

  Grown-refl : (st : Loading S) → Grown st st
  Grown-refl st = record {
    more = [];
    longer = sym (append-nil st.sts);
    new = tt;
    same_stores = refl;
    same_nodes = refl;
  }

  Grown-trans : (a b c : Loading S) → Grown a b → Grown b c → Grown a c
  Grown-trans a b c p q = record {
    more = p.more ++ q.more;
    longer = q.longer ∙ (ap (λ l. l ++ q.more) p.longer ∙ append_assoc a.sts p.more q.more);
    new = All-append Added p.more q.more p.new q.new;
    same_stores = q.same_stores ∙ p.same_stores;
    same_nodes = q.same_nodes ∙ p.same_nodes;
  }

  module _ (x : Remote) (g : Gcm) (z : Zlib) (c : Configuration) (now : Time) where
    with_shared-Grown :
        (i : ℕ) (ns : List Node) (checked : List Bytes) (st : Loading S)
        → Grown st (record st { sts = with_shared ops x g z c now i ns st.sts; checked = checked })
    unfolding with_shared new_volatile
    with_shared-Grown i ns checked st = elim (Bool-cases (has_storage ns)) [
      | inl some_storage ↦
          let v = new_volatile now (codes "v-" ++ x.print_int i) true ns in
          record {
            more = ops.of_volatile v ∷ [];
            longer = rw some_storage refl;
            new = ((v, (refl, refl)), tt);
            same_stores = refl;
            same_nodes = refl;
          }
      | inr no_storage ↦ record {
        more = [];
        longer = rw no_storage (sym (append-nil st.sts));
        new = tt;
        same_stores = refl;
        same_nodes = refl;
      }
    ]

    ask-Grown :
        (i : ℕ) (st st' : Loading S) (n : Node) → ask ops x g z c now i st n ≡ ok st' → Grown st st'
    unfolding ask
    ask-Grown i st st' n h = elim (Bool-cases (is_checked n.domain st.checked)) [
      | inl known ↦ rw⁻¹ (ok_injective (rw known at h)) (Grown-refl st)
      | inr new ↦
          let (ns, asked, is) = bind-eq-ok (shared_nodes x g z c.scheme n) _ (rw new at h) in
          rw⁻¹ (ok_injective is) (with_shared-Grown i ns (n.domain ∷ st.checked) st)
    ]

    pub ask_each-Grown :
        (i : ℕ) (ns : List Node) (st st' : Loading S)
        → ask_each ops x g z c now i ns st ≡ ok st'
        → Grown st st'
    unfolding ask_each
    ask_each-Grown i [] st st' h = rw (sym (ok_injective h)) (Grown-refl st)
    ask_each-Grown i (n ∷ ns) st st' h =
        let (mid, first, rest) = bind-eq-ok (ask ops x g z c now i st n) _ h in
        Grown-trans st mid st' (ask-Grown i st mid n first) (ask_each-Grown i ns mid st' rest)
