-- ===== src/StorageService/Steps.antt =====
-- What the steps of the service keep: ticks of its goroutine and calls that set nodes, in any order.
use swift_go.Prelude.{
  ◌≡◌, refl, true, some, List, ◌++◌, ok, err, Error, Bytes, length, drop, All, All-map, ap, ◌∙◌,
  inl, inr, ◌⊎◌, Result-cases, Bool-cases, drop-append_length, is_panic,
}
use swift_go.Io.{Time}
use swift_go.Node.{Node, Gcm, Zlib}
use swift_go.Configuration.{Configuration}
use swift_go.Stores.{find}
use swift_go.Manager.{StoreOps, Manager}
use swift_go.Manager as Manager
use swift_go.Manager.Sharing.{Remote}
use swift_go.Manager.Loading.{bound_of}
use swift_go.Manager.Bound.{new_storage_manager_ends}
use swift_go.Manager.Growth.{Added}
use swift_go.Manager.Gathering.{Gathered, new_storage_manager-Gathered}
use swift_go.StorageService.{
  View, StorageService, view_of, manager, new_storage_service, tick, get_node, set_nodes,
  get_store_names, with_running,
}
use swift_go.StorageService.Alike.{
  Alike, Alike-refl, Alike-trans, Alike-take, Alike-drop, get_store_names-Alike, set_nodes-Alike,
}

module _ {S : Type 0} (ops : StoreOps S) (x : Remote) (g : Gcm) (z : Zlib) (c : Configuration) where
  -- The service after some steps. A tick reads the stores at one time.
  pub data Steps (sv : StorageService S) : StorageService S → Type 0 where
    start : Steps sv sv
    ticked :
        {u w : StorageService S} (now : Time)
        → Steps sv u
        → tick ops x g z c now u ≡ some (ok w)
        → Steps sv w
    set :
        {u : StorageService S} (store : Bytes) (ns : List Node)
        → Steps sv u
        → Steps sv (set_nodes ops store ns u).1

  -- The manager that the requests use has the nodes and the shared stores that it had, and the
  -- configured stores have their names and their rights.
  pub record Kept (sv w : StorageService S) : Type 0 where
    pub served : w.served ≡ sv.served
    pub alike : Alike ops sv.stores w.stores

  -- what a tick comes to
  pub record Renewed (u w : StorageService S) : Type 0 where
    pub stores : w.stores ≡ u.stores
    pub served : w.served ≡ u.served
    pub running : Gathered ops (bound_of c.max_stores) w.stores (manager w.stores w.running)

  manager-view_of :
      (sts : List S) (sm : Manager S)
      → Gathered ops (bound_of c.max_stores) sts sm
      → manager sts (view_of sts sm) ≡ sm
  unfolding view_of
  manager-view_of sts sm g =
      let back : sts ++ drop (length sts) sm.stores ≡ sm.stores =
        rw (g.all, drop-append_length sts g.shared) refl in
      ap (λ l. record sm { stores = l }) back

  -- A tick always comes to an end: the program panics, or the service is as it was, or its goroutine has
  -- a new manager, gathered from the configured stores, while the manager that the requests use is the
  -- one it was.
  pub tick_ends :
      (now : Time) (u : StorageService S)
      → ((e : Error) × (tick ops x g z c now u ≡ some (err e)) × (is_panic e ≡ true))
        ⊎ ((tick ops x g z c now u ≡ some (ok u))
            ⊎ ((w : StorageService S) × (tick ops x g z c now u ≡ some (ok w)) × Renewed u w))
  unfolding tick
  tick_ends now u =
      let (r, done) = new_storage_manager_ends ops x g z c now u.stores in
      elim (Result-cases r) [
        | inl (sm, good) ↦
            let made = done ∙ ap some good in
            let gathered = new_storage_manager-Gathered ops x g z c now u.stores sm made in
            inr (
              inr (
                with_running u sm,
                rw made refl,
                record {
                  stores = refl;
                  served = refl;
                  running = rw (manager-view_of u.stores sm gathered) gathered;
                },
              ))
        | inr (e, bad) ↦
            let made = done ∙ ap some bad in
            elim (Bool-cases (is_panic e)) [
              | inl panics ↦ inl (e, rw (made, panics) refl, panics)
              | inr logged ↦ inr (inl (rw (made, logged) refl))
            ]
      ]

  tick-Kept :
      (now : Time) (u w : StorageService S)
      → tick ops x g z c now u ≡ some (ok w)
      → (w.served ≡ u.served) × (w.stores ≡ u.stores)
  tick-Kept now u w e = elim (tick_ends now u) [
    | inl (p, panics, is) ↦ cc (e, panics)
    | inr (inl same) ↦ let is : w ≡ u = cc (e, same) in rw is (refl, refl)
    | inr (inr (v, to, r)) ↦ let is : w ≡ v = cc (e, to) in rw is (r.served, r.stores)
  ]

  closed : (l : List S) → All (Added ops) l → All (λ s. ops.get_read_only s ≡ true) l
  closed l h =
      All-map (Added ops) (λ s. ops.get_read_only s ≡ true) l
        (λ s (v, (is, ro)). rw is (ops.get_read_only-of_volatile v ∙ ro)) h

  Steps-Kept : (sv w : StorageService S) → All (Added ops) sv.served.shared → Steps sv w → Kept sv w
  unfolding set_nodes
  Steps-Kept sv w added start = record { served = refl; alike = Alike-refl ops sv.stores }
  Steps-Kept sv w added (ticked {u} now before e) =
      let k = Steps-Kept sv u added before in
      let (served, stores) = tick-Kept now u w e in
      record { served = served ∙ k.served; alike = rw stores k.alike }
  Steps-Kept sv w added (set {u} store ns before) =
      let k = Steps-Kept sv u added before in
      let all = set_nodes-Alike ops store ns (u.stores ++ u.served.shared) in
      let ro = closed u.served.shared (rw k.served added) in
      record {
        served =
            ap (λ l. record (u.served) { shared = l })
              (Alike-drop ops u.stores u.served.shared _ ro all)
            ∙ k.served;
        alike = Alike-trans ops _ _ _ k.alike (Alike-take ops u.stores u.served.shared _ all);
      }

  new_storage_service-Added :
      (now : Time) (sts : List S) (sv : StorageService S)
      → new_storage_service ops x g z c now sts ≡ some (ok sv)
      → (sv.stores ≡ sts) × All (Added ops) sv.served.shared
  unfolding new_storage_service view_of
  new_storage_service-Added now sts sv e =
      let (r, done) = new_storage_manager_ends ops x g z c now sts in
      elim (Result-cases r) [
        | inl (sm, good) ↦
            let made = done ∙ ap some good in
            let gathered = new_storage_manager-Gathered ops x g z c now sts sm made in
            let is : sv
                ≡ record { stores = sts; served = view_of sts sm; running = view_of sts sm } =
              cc (rw made at e) in
            let shared : drop (length sts) sm.stores ≡ gathered.shared =
              rw (gathered.all, drop-append_length sts gathered.shared) refl in
            rw is (refl, rw shared gathered.added)
        | inr (x, bad) ↦ cc (rw (done ∙ ap some bad) at e)
      ]

  -- After any ticks and any calls of `setNodes`, in any order, `getNode` of the service that
  -- `NewStorageService` returned gives for every domain what it gave at the start, so a domain that was
  -- unknown then stays unknown, even once its node is set; and the names of the stores that can be
  -- written are still those of the configured stores.
  pub get_node-Steps :
      (now : Time) (sts : List S) (sv w : StorageService S) (domain : Bytes)
      → new_storage_service ops x g z c now sts ≡ some (ok sv)
      → Steps sv w
      → (get_node ops domain w ≡ get_node ops domain sv)
        × (get_store_names ops w ≡ Manager.get_store_names ops sts)
  unfolding get_node Manager.get_node get_store_names
  get_node-Steps now sts sv w domain made steps =
      let (stores, added) = new_storage_service-Added now sts sv made in
      let k = Steps-Kept sv w added steps in
      (
        ap (λ (v : View S). find domain v.nodes) k.served,
        get_store_names-Alike ops sv.stores w.stores k.alike
            ∙ ap (Manager.get_store_names ops) stores,
      )
