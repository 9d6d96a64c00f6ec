-- ===== src/Api/Creating.antt =====
-- handlerCreate.go: the handler of the requests that create a storage operation.
use swift_go.Prelude.{
  ℕ, ◌≡◌, ◌≢◌, ◌⊎◌, ◌↔◌, refl, arith, access_denied, Bool, Bool-cases, some, Option, [], ◌∷◌,
  Result, ok, Bytes, codes, Result-cases, inl, inr,
}
use swift_go.Io.{Time}
use swift_go.Configuration.{Configuration}
use swift_go.Node.{Node, Gcm, Zlib}
use swift_go.Nodes.{Nodes}
use swift_go.Operation.{Operation}
use swift_go.HandlerStore.{Url, World}
use swift_go.HandlerCreate.{Values, Parsers, create, value_of, delete}
use swift_go.Stores.{put}
use swift_go.Api.{
  Request, Writer, allowed, denied, sent, fresh, on_error, with_access, get_access_allowed,
  return_api_error, send_response, is_allowed,
}

-- `header` is that of the forwarding proxies, and `remote` the address of the connection.
abbrev unless_nil : Bytes → Values → Values
unless_nil [] q = q
unless_nil (b ∷ header) q = put (codes "X-Forwarded-For") ((b ∷ header) ∷ []) q

unfoldable pub set_home_node_headers : Bytes → Bytes → Values → Values
unfolding put
set_home_node_headers header remote q = put (codes "remoteAddr") (remote ∷ []) (unless_nil header q)

abbrev pub plain_text : Bytes
plain_text = codes "text/plain; charset=utf-8"

-- the statuses of the errors
other_status : (k : ℕ) → k ≢ 200 → some k ≢ some 200
other_status k h e = h (cc e)

access-cases :
    (answer : Bytes → Result Bool) (r : Request)
    → ((form : Values) × (get_access_allowed answer fresh r ≡ allowed form))
      ⊎ ((out : Writer) × (get_access_allowed answer fresh r ≡ denied out)
          × (code : ℕ) × (out.status ≡ some code)
          × (some code ≢ some 200))
unfolding get_access_allowed return_api_error
access-cases answer r = elim (Result-cases r.form) [
  | inl (form, parsed) ↦
      elim (Bool-cases (is_allowed (answer (value_of (codes "accessKey") form)))) [
        | inl good ↦ inl (delete (codes "accessKey") form, rw (parsed, good) refl)
        | inr bad ↦ inr (
          return_api_error access_denied 511 fresh,
          rw (parsed, bad) refl,
          511,
          refl,
          other_status 511 (λ e. omega (arith, e)),
        )
      ]
  | inr (e, failed) ↦ inr (
    return_api_error e 500 fresh,
    rw failed refl,
    500,
    refl,
    other_status 500 (λ e. omega (arith, e)),
  )
]

module _ (answer : Bytes → Result Bool) (w : World) (p : Parsers Url) (c : Configuration) (g : Gcm)
    (z : Zlib) (now : Time) (get_node : Bytes → Option Node) (get_nodes : Bytes → Result Nodes)
    (draw : ℕ → ℕ) where
  abbrev pub created : Bytes → Values → Result (Operation × Url)
  created host form = create w p c g z now get_node get_nodes draw host form

  unfoldable pub handler_create : Request → Writer → Writer
  unfolding get_access_allowed return_api_error send_response
  handler_create r out = with_access answer (get_access_allowed answer out r) λ form.
      on_error 400 out (created r.host form) λ x. send_response plain_text (p.url_string x.1) out

  -- The request was answered with the URL of an operation.
  pub record Answered (r : Request) (form : Values) (o : Operation) (u : Url) : Type 0 where
    pub is_allowed : get_access_allowed answer fresh r ≡ allowed form
    pub is_created : created r.host form ≡ ok (o, u)
    pub is_sent :
        handler_create r fresh
        ≡ record { status = some 200; parts = sent plain_text (p.url_string u) ∷ [] }

  -- The status of the answer to a request for a new operation is 200 exactly where the key of the request
  -- is allowed and `Create` makes an operation of the rest of its form, whose URL is then all that is
  -- sent.
  pub handler_create_iff :
      (r : Request)
      → (handler_create r fresh).status ≡ some 200
        ↔ ((form : Values) × (o : Operation) × (u : Url) × Answered r form o u)
  unfolding handler_create return_api_error send_response
  handler_create_iff r = (
    λ ok_status. elim (access-cases answer r) [
      | inl (form, good) ↦ elim (Result-cases (created r.host form)) [
        | inl ((o, u), made) ↦ (
          form,
          o,
          u,
          record { is_allowed = good; is_created = made; is_sent = rw (good, made) refl },
        )
        | inr (e, failed) ↦
            absurd (other_status 400 (λ e. omega (arith, e)) (rw (good, failed) at ok_status))
      ]
      | inr (out, bad, code, is, other) ↦ absurd (other (rw (bad, is) at ok_status))
    ],
    λ (form, o, u, a). rw a.is_sent refl,
  )
