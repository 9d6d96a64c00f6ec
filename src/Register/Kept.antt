-- ===== src/Register/Kept.antt =====
-- A registered node in a store that keeps its nodes as JSON.
use swift_go.Prelude.{
  ℕ, ◌≡◌, refl, Bool, true, false, List, [], ◌∷◌, Result, ok, Bytes, bind-eq-ok, ap, ok_injective,
  All, sym, ◌∙◌,
}
use swift_go.Io.{Time}
use swift_go.Node.{Node, Secret, add_secret}
use swift_go.Node.Making.{new_node, new_secret, new_secret_from_key, new_crypto}
use swift_go.Node.Json.{Json, TimeText, marshal_node, unmarshal_node}
use swift_go.Node.Made.{new_node_again}
use swift_go.Node.JsonTrip.{IsMade, unmarshal_node-marshal_node, kept}
use swift_go.Register.{Register, Tools, node_of, scrambler_key, with_secret, role_number}

module _ (t : Tools) (form : TimeText)
    (parses : (d : Time) (s : Bytes) → form.print d ≡ ok s → form.parse s ≡ ok d)
    (decodes : (b : Bytes) → t.decode_key (t.encode_key b) ≡ ok b) where
  -- A new secret is one that is made again of its key.
  new_secret-IsMade :
      (random : Result Bytes) (now : Time) (s : Secret)
      → new_secret t.encode_key random now ≡ ok s
      → IsMade form t.decode_key parses s
  unfolding new_secret new_secret_from_key
  new_secret-IsMade random now s e =
      let (b, drawn, more) = bind-eq-ok random _ e in
      let (x, crypto, is) = bind-eq-ok (new_crypto b) _ more in
      rw⁻¹ (ok_injective is) (rw (decodes b, crypto) refl)

  -- The secrets that a node of the registration has: each was made of its key, and there are not
  -- two.
  record Few (m n : Node) : Type 0 where
    secrets : List Secret
    is : n ≡ record m { secrets = secrets }
    made : All (IsMade form t.decode_key parses) secrets
    last : kept [] [] secrets ≡ secrets

  with_secret-Few :
      (secret : Bool) (random : Result Bytes) (now : Time) (m n : Node)
      → m.secrets ≡ []
      → with_secret t secret random now m ≡ ok n
      → Few m n
  unfolding with_secret add_secret
  with_secret-Few false random now m n empty e = record {
    secrets = [];
    is = cc e;
    made = tt;
    last = refl;
  }
  with_secret-Few true random now m n empty e =
      let (x, new, is) = bind-eq-ok (new_secret t.encode_key random now) _ e in
      record {
        secrets = x ∷ [];
        is = rw⁻¹ (ok_injective is) (rw empty refl);
        made = (new_secret-IsMade random now x new, tt);
        last = refl;
      }

  -- Where times are read as they are printed and base64 decodes what it encodes: a node that the
  -- registration has made, with a secret or without, is read from its JSON as it was,
  -- at the place where it was, by a receiver that has no secrets yet.
  pub unmarshal_node-node_of :
      (address : ℕ) (for_scrambler for_secret : Result Bytes) (now : Time) (d : Register)
      (n old : Node) (j : Json)
      → node_of t address for_scrambler for_secret now d ≡ ok n
      → old.address ≡ address
      → old.secrets ≡ []
      → marshal_node form n ≡ ok j
      → unmarshal_node form t.decode_key t.draw old j ≡ ok n
  unfolding node_of with_secret add_secret
  unmarshal_node-node_of address for_scrambler for_secret now d n old j made place fresh written =
      let (key, keyed, more) = bind-eq-ok (scrambler_key t d.scramble for_scrambler now) _ made in
      let (m, new, last) =
        bind-eq-ok
          (new_node t.decode_key t.draw address d.network d.domain now d.starts d.expires
            (role_number d.role) key d.cookie_domain)
          _ more in
      let (again, empty) =
        new_node_again t.decode_key t.draw address d.network d.domain now d.starts d.expires
          (role_number d.role) key d.cookie_domain m new in
      let few = with_secret-Few d.secret for_secret now m n empty last in
      let back =
        unmarshal_node-marshal_node form t.decode_key parses t.draw address d.network d.domain now
          d.starts d.expires (role_number d.role) key d.cookie_domain m old few.secrets j new
          few.made place (rw⁻¹ few.is written) in
      back ∙ ap ok (ap (λ ss. record m { secrets = ss }) (rw fresh few.last) ∙ sym few.is)
