-- ===== src/HandlerStore/Outcome.antt =====
-- When the storage handler warns about cookies, and what the warning makes of the operation.
use swift_go.Prelude.{
  ◌<◌, ◌≡◌, refl, sym, arith, ◌↔◌, some, ok, [], Option-cases, Result-cases, ◌⊎◌, inl, inr, Bool,
  true, false, ◌&&◌, not, Option, List, ltb, Bool-cases,
}
use swift_go.Io.{Time}
use swift_go.Html.{java_script}
use swift_go.Node.{Node, Gcm, Zlib}
use swift_go.Configuration.{Configuration}
use swift_go.Operation.{Operation, done}
use swift_go.HandlerStore.{
  World, warning, Reply, page, Url, Cookie, store_complete, store_return, store_warning, store_done,
  store_continue, respond, get_next_url, next_action, Action, to_done, to_complete, to_continue,
}

-- The operation that starts again at the home node.
abbrev pub restarted : Time → Node → Operation → Operation
restarted now home o = record o { next_node = some home; nodes_visited = 0; time_stamp = now }

-- the operation and the next URL of a reply that warns
abbrev pub Warns : Reply → Operation → Url → Type 0
Warns r o' u = (cookies : List Cookie) × (link : Bool) × (r ≡ page warning o' (some u) cookies link)

Action-cases : (a : Action) → (a ≡ to_complete) ⊎ ((a ≡ to_done) ⊎ (a ≡ to_continue))
Action-cases to_complete = inl refl
Action-cases to_done = inr (inl refl)
Action-cases to_continue = inr (inr refl)

module _ (w : World) (g : Gcm) (z : Zlib) (c : Configuration) (now : Time) (home : Option Node)
    (any_cookies : Bool) where
  -- A warning is given for more than one node, when all the visits are done, to a page and not a
  -- script, for a request without cookies. It sends the operation home as a new one, and its URL is
  -- that of the new operation.
  pub record IsWarned (o o' : Operation) (u : Url) : Type 0 where
    pub over : next_action c now o ≡ to_done
    pub several : 1 < o.node_count
    pub finished : done o ≡ true
    pub a_page : java_script o.html ≡ false
    pub no_cookies : any_cookies ≡ false
    pub home_node : Node
    pub has_home : home ≡ some home_node
    pub again : o' ≡ restarted now home_node o
    pub leads : get_next_url w g z c o' ≡ ok u

  complete-Warns :
      (o o' : Operation) (u : Url) → ¬ Warns (store_complete w g z c now any_cookies o) o' u
  unfolding store_complete store_return
  complete-Warns o o' u (cookies, link, e) = ground (arith)

  continue-Warns :
      (o o' : Operation) (u : Url) → ¬ Warns (store_continue w g z c now home any_cookies o) o' u
  unfolding store_continue
  continue-Warns o o' u (cookies, link, e) = ground (arith)

  -- the home node and the operation of a warning
  Leads : Operation → Operation → Url → Type 0
  Leads o o' u =
      (h : Node) × (home ≡ some h) × (o' ≡ restarted now h o) × (get_next_url w g z c o' ≡ ok u)

  page-Leads :
      (o o' : Operation) (h : Node) (u v : Url) (cookies : List Cookie) (link : Bool)
      → home ≡ some h
      → get_next_url w g z c (restarted now h o) ≡ ok v
      → page warning (restarted now h o) (some v) [] false ≡ page warning o' (some u) cookies link
      → Leads o o' u
  unfolding Leads
  page-Leads o o' h u v cookies link at made e =
      let same : restarted now h o ≡ o' = cc e in
      let same_url : v ≡ u = cc e in (h, at, sym same, rw⁻¹ same (rw⁻¹ same_url made))

  warning-Warns :
      (o o' : Operation) (u : Url) → Warns (store_warning w g z c now home o) o' u → Leads o o' u
  unfolding store_warning
  warning-Warns o o' u (cookies, link, e) = elim (Option-cases home) [
    | inl none_known ↦ let ended = rw none_known at e in cc ended
    | inr (h, at) ↦ elim (Result-cases (get_next_url w g z c (restarted now h o))) [
      | inl (v, made) ↦ page-Leads o o' h u v cookies link at made (rw (at, made) at e)
      | inr (x, failed) ↦ let ended = rw (at, failed) at e in cc ended
    ]
  ]

  done-Warns :
      (o o' : Operation) (u : Url)
      → next_action c now o ≡ to_done
      → Warns (store_done w g z c now home any_cookies o) o' u
      → IsWarned o o' u
  unfolding store_done Leads
  done-Warns o o' u over (cookies, link, e) =
      elim (Bool-cases
        (ltb 1 o.node_count && done o && not (java_script o.html) && not any_cookies)) [
          | inl met ↦
              let (h, at, again, leads) = warning-Warns o o' u (cookies, link, rw met at e) in
              record {
                over = over;
                several = ground arith;
                finished = ground arith;
                a_page = ground arith;
                no_cookies = ground arith;
                home_node = h;
                has_home = at;
                again = again;
                leads = leads;
              }
          | inr unmet ↦ absurd (complete-Warns o o' u (cookies, link, rw unmet at e))
        ]

  warned :
      (o o' : Operation) (u : Url)
      → IsWarned o o' u
      → respond w g z c now home any_cookies o ≡ page warning o' (some u) [] false
  unfolding respond store_done store_warning
  warned o o' u is =
      let leads = rw is.again at is.leads in
      ground (
        arith, is.over, is.several, is.finished, is.a_page, is.no_cookies, is.has_home, is.again,
        leads,
      )

  -- The handler warns about cookies exactly for an operation of more than one node whose visits are
  -- done, that asks for a page, when the request had no cookies, and where the home node is known
  -- and has a next URL. The page then carries the operation as it starts again at the home node,
  -- with no visits and a new time stamp, and the URL is the next one of that operation.
  pub respond-Warns :
      (o o' : Operation) (u : Url)
      → Warns (respond w g z c now home any_cookies o) o' u ↔ IsWarned o o' u
  unfolding respond
  respond-Warns o o' u = (
    λ (cookies, link, e). elim (Action-cases (next_action c now o)) [
      | inl whole ↦ absurd (complete-Warns o o' u (cookies, link, ground arith))
      | inr (inl over) ↦ done-Warns o o' u over (cookies, link, ground arith)
      | inr (inr going) ↦ absurd (continue-Warns o o' u (cookies, link, ground arith))
    ],
    λ is. ([], false, warned o o' u is),
  )
