-- ===== src/Database/Attached.antt =====
-- Which secrets `addSecrets` gives to a node.
use mathlib.Core.List.{Perm}
use swift_go.Prelude.{
  ◌≡◌, refl, arith, Option, some, List, [], ◌∷◌, ◌++◌, append-nil, append_assoc, Result, ok,
  bind-eq-ok, ok_injective, if◌then◌else◌, Bytes, equal, Bool-cases, eq_of_equal, equal_refl, inl,
  inr, All, ap, ◌∙◌, sort_by-perm, sort_by-IsOrdered, IsOrdered,
}
use swift_go.Node.{Secret, Node, add_secret, sort_secrets}
use swift_go.Node.Making.{new_secret_from_key}
use swift_go.Node.Made.{new_secret_from_key_is}
use swift_go.Stores.{Map, find}
use swift_go.Database.{SecretRow, give, give_each, sort_all, add_secrets}

-- the secrets of the rows of a domain
unfoldable pub secrets_of : Bytes → List SecretRow → List Secret
secrets_of d [] = []
secrets_of d (r ∷ rs) =
    let rest = secrets_of d rs in
    if equal d r.domain then record { time_stamp = r.time_stamp; key = r.key } ∷ rest else rest

find-give :
    (d k : Bytes) (s : Secret) (m : Map Node) (n : Node)
    → find d m ≡ some n
    → find d (give k s m) ≡ some (if equal d k then add_secret s n else n)
unfolding find give
find-give d k s [] n e = cc
find-give d k s ((x, v) ∷ m) n e = ground (
  arith,
  find-give d k s m n,
  eq_of_equal d x,
  eq_of_equal k x,
  eq_of_equal d k,
  equal_refl d,
  equal_refl k,
)

find-sort_all :
    (d : Bytes) (m : Map Node) (n : Node)
    → find d m ≡ some n
    → find d (sort_all m) ≡ some (sort_secrets n)
unfolding find sort_all
find-sort_all d [] n e = cc
find-sort_all d ((x, v) ∷ m) n e = elim (Bool-cases (equal d x)) [
  | inl same ↦ let is : v ≡ n = cc (rw same at e) in rw (same, is) refl
  | inr other ↦ rw other (find-sort_all d m n (rw other at e))
]

abbrev with_secrets : Node → List Secret → Node
with_secrets n ss = record n { secrets = n.secrets ++ ss }

abbrev holding : Node → List Secret → Option Node
holding n ss = some (record n { secrets = ss })

module _ (decode_key : Bytes → Result Bytes) where
  -- A secret can be made of the key of the row.
  abbrev pub IsKey : SecretRow → Type 0
  IsKey r = (s : Secret) × (new_secret_from_key decode_key r.key r.time_stamp ≡ ok s)

  give_each_total :
      (rs : List SecretRow) (ns : Map Node)
      → All IsKey rs
      → (ms : Map Node) × (give_each decode_key rs ns ≡ ok ms)
  unfolding give_each
  give_each_total [] ns good = (ns, refl)
  give_each_total (r ∷ rs) ns ((s, made), good) =
      let (ms, done) = give_each_total rs (give r.domain s ns) good in (ms, rw made done)

  find-give_each :
      (d : Bytes) (rs : List SecretRow) (ns ms : Map Node) (n : Node)
      → give_each decode_key rs ns ≡ ok ms
      → find d ns ≡ some n
      → find d ms ≡ some (with_secrets n (secrets_of d rs))
  unfolding give_each secrets_of add_secret
  find-give_each d [] ns ms n e at = rw⁻¹ (ok_injective e) (rw at (rw (append-nil n.secrets) refl))
  find-give_each d (r ∷ rs) ns ms n e at =
      let (s, made, rest) = bind-eq-ok (new_secret_from_key decode_key r.key r.time_stamp) _ e in
      let found = find-give d r.domain s ns n at in
      let is = new_secret_from_key_is decode_key r.key r.time_stamp s made in
      elim (Bool-cases (equal d r.domain)) [
        | inl same ↦
            let back =
              find-give_each d rs (give r.domain s ns) ms (add_secret s n) rest
                (rw same at found) in
            rw same (
              back
              ∙ ap (holding n) (
                  append_assoc n.secrets (s ∷ []) (secrets_of d rs)
                  ∙ ap (λ t. n.secrets ++ t ∷ secrets_of d rs) is))
        | inr other ↦
            rw other (find-give_each d rs (give r.domain s ns) ms n rest (rw other at found))
      ]

  -- The node of a domain has the secrets of the rows of its domain behind its own, in the order of
  -- their times, and no other change.
  pub record Attached (d : Bytes) (rs : List SecretRow) (n : Node) (ms : Map Node) : Type 0 where
    pub node : Node
    pub is_found : find d ms ≡ some node
    pub is_same : node ≡ record n { secrets = node.secrets }
    pub its_secrets : Perm node.secrets (n.secrets ++ secrets_of d rs)
    pub in_order : IsOrdered (λ (s : Secret). s.time_stamp) node.secrets

  pub add_secrets-Attached :
      (d : Bytes) (rs : List SecretRow) (ns : Map Node) (n : Node)
      → All IsKey rs
      → find d ns ≡ some n
      → (ms : Map Node) × (add_secrets decode_key rs ns ≡ ok ms) × Attached d rs n ms
  unfolding add_secrets sort_secrets
  add_secrets-Attached d rs ns n good at =
      let (ms, given) = give_each_total rs ns good in
      let ss = n.secrets ++ secrets_of d rs in
      (
        sort_all ms,
        rw given refl,
        record {
          node = sort_secrets (with_secrets n (secrets_of d rs));
          is_found =
              find-sort_all d ms (with_secrets n (secrets_of d rs))
                (find-give_each d rs ns ms n given at);
          is_same = refl;
          its_secrets = sort_by-perm (λ (s : Secret). s.time_stamp) ss;
          in_order = sort_by-IsOrdered (λ (s : Secret). s.time_stamp) ss;
        },
      )
