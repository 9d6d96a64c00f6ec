-- ===== src/Node/Made.antt =====
-- What a node is that `newNode` has made, and a secret that `newSecretFromKey` has.
use swift_go.Prelude.{
  ℕ, ◌≡◌, refl, Option, none, some, [], ◌∷◌, Result, ok, Bytes, bind-eq-ok, ok_injective, false, ap,
}
use swift_go.Io.{Time, zero_time}
use swift_go.Node.{Secret, Node, get_scrambler_key, make_nonce}
use swift_go.Node.Making.{new_secret_from_key, make_scrambler, new_node, or_panic, new_crypto}
use swift_go.Nodes.{get_hash}

module _ (decode_key : Bytes → Result Bytes) where
  -- what `newNode` makes
  pub new_node_made :
      (draw : ℕ → ℕ) (address : ℕ) (network domain : Bytes) (created starts expires : Time)
      (role : ℕ) (key cookie_domain : Bytes) (n : Node)
      → new_node decode_key draw address network domain created starts expires role key
          cookie_domain
        ≡ ok n
      → (o : Option Secret) × (nonce : Bytes) × (make_scrambler decode_key created key ≡ ok o)
        × (n ≡ record {
          address = address;
          network = network;
          domain = domain;
          hash = get_hash draw domain;
          created = created;
          starts = starts;
          expires = expires;
          role = role;
          secrets = [];
          scrambler = o;
          nonce = nonce;
          accessed = zero_time;
          alive = false;
          cookie_domain = cookie_domain;
        })
  unfolding new_node
  new_node_made draw address network domain created starts expires role key cookie_domain n e =
      let (o, scrambled, more) = bind-eq-ok (make_scrambler decode_key created key) _ e in
      let (nonce, made, whole) = bind-eq-ok (or_panic decode_key (make_nonce o domain)) _ more in
      (o, nonce, scrambled, cc whole)

  pub new_secret_from_key_key :
      (key : Bytes) (t : Time) (s : Secret)
      → new_secret_from_key decode_key key t ≡ ok s
      → s.key ≡ key
  unfolding new_secret_from_key
  new_secret_from_key_key key t s e =
      let (b, decoded, more) = bind-eq-ok (decode_key key) _ e in
      let (x, made, whole) = bind-eq-ok (new_crypto b) _ more in cc whole

  make_scrambler_key :
      (created : Time) (key : Bytes) (o : Option Secret)
      → make_scrambler decode_key created key ≡ ok o
      → (elim o [ none ↦ [] | some s ↦ s.key ]) ≡ key
  unfolding make_scrambler
  make_scrambler_key created [] o e = let same : none ≡ o = cc e in rw⁻¹ same refl
  make_scrambler_key created (x ∷ key) o e =
      let (s, made, whole) = bind-eq-ok (new_secret_from_key decode_key (x ∷ key) created) _ e in
      let same : some s ≡ o = cc whole in
      rw⁻¹ same (new_secret_from_key_key (x ∷ key) created s made)

  -- `newNode` makes the node again of what it is written with.
  pub new_node_again :
      (draw : ℕ → ℕ) (address : ℕ) (network domain : Bytes) (created starts expires : Time)
      (role : ℕ) (key cookie_domain : Bytes) (n : Node)
      → new_node decode_key draw address network domain created starts expires role key
          cookie_domain
        ≡ ok n
      → (new_node decode_key draw address n.network n.domain n.created n.starts n.expires n.role
            (get_scrambler_key n)
            n.cookie_domain
          ≡ ok n)
        × (n.secrets ≡ [])
  unfolding get_scrambler_key
  new_node_again draw address network domain created starts expires role key cookie_domain n made =
      let (o, nonce, scrambled, is) =
        new_node_made draw address network domain created starts expires role key cookie_domain n
          made in
      (
        rw is (rw (make_scrambler_key created key o scrambled, made) (ap ok is)),
        ap (λ n. n.secrets) is,
      )

  pub new_secret_from_key_is :
      (key : Bytes) (t : Time) (s : Secret)
      → new_secret_from_key decode_key key t ≡ ok s
      → s ≡ record { time_stamp = t; key = key }
  unfolding new_secret_from_key
  new_secret_from_key_is key t s e =
      let (b, decoded, more) = bind-eq-ok (decode_key key) _ e in
      let (x, made, whole) = bind-eq-ok (new_crypto b) _ more in cc whole

  -- The expiry takes no part in the making of a node.
  pub new_node_expires :
      (draw : ℕ → ℕ) (address : ℕ) (network domain : Bytes) (created starts expires : Time)
      (role : ℕ) (key cookie_domain : Bytes) (n : Node) (other : Time)
      → new_node decode_key draw address network domain created starts expires role key
          cookie_domain
        ≡ ok n
      → new_node decode_key draw address network domain created starts other role key cookie_domain
        ≡ ok (record n { expires = other })
  unfolding new_node
  new_node_expires draw address network domain created starts expires role key cookie_domain n other
        e =
      let (o, scrambled, more) = bind-eq-ok (make_scrambler decode_key created key) _ e in
      let (nonce, made, whole) = bind-eq-ok (or_panic decode_key (make_nonce o domain)) _ more in
      rw (scrambled, made)
        (ap (λ (m : Node). ok (record m { expires = other })) (ok_injective whole))
