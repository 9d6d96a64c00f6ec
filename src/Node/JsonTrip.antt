-- ===== src/Node/JsonTrip.antt =====
-- What comes back of a node that was written to JSON and read again.
use swift_go.Prelude.{
  ℕ, ◌≡◌, refl, List, [], ◌∷◌, ◌++◌, Result, ok, Bytes, All, bind-eq-ok, codes, equal, ◌∙◌,
  ok_injective,
}
use swift_go.Io.{Time}
use swift_go.Node.{Secret, Node, get_scrambler_key}
use swift_go.Node.Making.{new_secret_from_key, new_node}
use swift_go.Node.Made.{new_node_again}
use swift_go.Node.Json.{
  Json, Items, object, field, no_fields, text, no_items, item, TimeText, marshal_secret,
  marshal_secrets, marshal_node, secret_of_item, unmarshal_secrets, unmarshal_node,
  unmarshal_secret, time_field, get_field,
}

-- The last of the secrets, after those that the receiver had.
abbrev pub kept : List Secret → List Secret → List Secret → List Secret
kept before old [] = before
kept before old (s ∷ ss) = kept (old ++ s ∷ []) old ss

module _ (form : TimeText) (decode_key : Bytes → Result Bytes)
    (parses : (t : Time) (s : Bytes) → form.print t ≡ ok s → form.parse s ≡ ok t) where
  -- The secret is one that `newSecretFromKey` makes of its key.
  abbrev pub IsMade : Secret → Type 0
  IsMade s = new_secret_from_key decode_key s.key s.time_stamp ≡ ok s

  marshal_secret_text :
      (s : Secret) (j : Json)
      → marshal_secret form s ≡ ok j
      → (t : Bytes) × (form.parse t ≡ ok s.time_stamp)
        × (j
            ≡ object
                (field (codes "timeStamp") (text t) (field (codes "key") (text s.key) no_fields)))
  unfolding marshal_secret
  marshal_secret_text s j e =
      let (t, printed, rest) = bind-eq-ok (form.print s.time_stamp) _ e in
      (t, parses s.time_stamp t printed, cc rest)

  secret_of_item-marshal_secret :
      (s : Secret) (j : Json)
      → IsMade s
      → marshal_secret form s ≡ ok j
      → secret_of_item form decode_key j ≡ ok s
  unfolding secret_of_item get_field equal
  secret_of_item-marshal_secret s j made e =
      let (t, parsed, same) = marshal_secret_text s j e in rw (same, parsed, made) refl

  -- A secret that was made of its key comes back from its JSON.
  pub unmarshal_secret-marshal_secret :
      (s : Secret) (j : Json)
      → IsMade s
      → marshal_secret form s ≡ ok j
      → unmarshal_secret form decode_key j ≡ ok s
  unfolding unmarshal_secret get_field equal time_field
  unmarshal_secret-marshal_secret s j made e =
      let (t, parsed, same) = marshal_secret_text s j e in rw (same, parsed, made) refl

  unmarshal_secrets-marshal_secrets :
      (old : List Secret) (np : Node) (ss : List Secret) (js : Items)
      → All IsMade ss
      → marshal_secrets form ss ≡ ok js
      → unmarshal_secrets form decode_key old (ok np) js
        ≡ ok (record np { secrets = kept np.secrets old ss })
  unfolding marshal_secrets unmarshal_secrets
  unmarshal_secrets-marshal_secrets old np [] js made e =
      let same : no_items ≡ js = cc e in rw⁻¹ same refl
  unmarshal_secrets-marshal_secrets old np (s ∷ ss) js (first, made) e =
      let (x, written, more) = bind-eq-ok (marshal_secret form s) _ e in
      let (xs, others, whole) = bind-eq-ok (marshal_secrets form ss) _ more in
      let same : item x xs ≡ js = cc whole in
      rw⁻¹ same (
        rw (secret_of_item-marshal_secret s x first written) (
          unmarshal_secrets-marshal_secrets old (record np { secrets = old ++ s ∷ [] }) ss xs made
            others))

  -- Where times are read as they are printed: a node that `newNode` made, with whichever secrets it
  -- was given since, is read from its JSON as it was, at the place of the receiver, except for the
  -- secrets: of those that were written, only the last is kept, behind those that the receiver had
  -- before.
  pub unmarshal_node-marshal_node :
      (draw : ℕ → ℕ) (address : ℕ) (network domain : Bytes) (created starts expires : Time)
      (role : ℕ) (key cookie_domain : Bytes) (n old : Node) (ss : List Secret) (j : Json)
      → new_node decode_key draw address network domain created starts expires role key
          cookie_domain
        ≡ ok n
      → All IsMade ss
      → old.address ≡ address
      → marshal_node form (record n { secrets = ss }) ≡ ok j
      → unmarshal_node form decode_key draw old j
        ≡ ok (record n { secrets = kept [] old.secrets ss })
  unfolding marshal_node unmarshal_node get_field equal time_field get_scrambler_key
  unmarshal_node-marshal_node draw address network domain created starts expires role key
        cookie_domain n old ss j made valid place e =
      let (again, none_yet) =
        new_node_again decode_key draw address network domain created starts expires role key
          cookie_domain n made in
      let (a, printed_a, e1) = bind-eq-ok (form.print n.created) _ e in
      let (b, printed_b, e2) = bind-eq-ok (form.print n.starts) _ e1 in
      let (c, printed_c, e3) = bind-eq-ok (form.print n.expires) _ e2 in
      let (js, listed, e4) = bind-eq-ok (marshal_secrets form ss) _ e3 in
      let same = ok_injective e4 in
      rw⁻¹ same (
        rw
          (
            parses n.created a printed_a,
            parses n.starts b printed_b,
            parses n.expires c printed_c,
            place,
            again,
          )
          (unmarshal_secrets-marshal_secrets old.secrets n ss js valid listed ∙ rw none_yet refl))
