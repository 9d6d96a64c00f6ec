-- ===== src/Database/Dynamo/Opening.antt =====
-- `NewAWS`: the making of the tables, the loop that waits for them, and what the service refuses.
use mathlib.Core.Path.{subst}
use swift_go.Prelude.{
  ℕ, zero, suc, ◌+◌, ◌≡◌, refl, arith, Bool, true, false, ◌||◌, not, Option, some, List, [], ◌∷◌,
  Result, ok, err, library_error, Bytes, equal, codes, Result-cases, Bool-cases, inl, inr, ◌≢◌, ◌⊎◌,
}
use swift_go.Io.{Time}
use swift_go.Database.Dynamo.{
  DynamoOps, TableInput, KeyType, AwsError, other_code, Creation, created, refused, chain, prepared,
  refusal, tables_after, check_table_exists, nodes_table_input, secrets_table_input,
  nodes_table_name, secrets_table_name, wait_until_table_active, aws_create_tables, new_aws,
}

-- An attribute that is defined and that no key uses.
abbrev is_key : Bytes → List (Bytes × KeyType) → Bool
is_key name [] = false
is_key name ((k, t) ∷ ks) = equal name k || is_key name ks

abbrev some_unused : List (Bytes × Bytes) → TableInput → Bool
some_unused [] t = false
some_unused ((name, type) ∷ rest) t =
    not (is_key name t.keys || is_key name t.index.keys) || some_unused rest t

abbrev pub has_unused : TableInput → Bool
has_unused t = some_unused t.attributes t

Creation-cases :
    {D : Type 0} (c : Creation D) → ((e : D) × (c ≡ created e)) ⊎ ((x : AwsError) × (c ≡ refused x))
Creation-cases (created e) = inl (e, refl)
Creation-cases (refused x) = inr (x, refl)

check_table_exists-cases :
    (x : AwsError)
    → (check_table_exists (some x) ≡ ok true) ⊎ (check_table_exists (some x) ≡ err library_error)
unfolding check_table_exists
check_table_exists-cases AwsError.table_already_exists = inl refl
check_table_exists-cases AwsError.resource_in_use = inl refl
check_table_exists-cases AwsError.other_code = inr refl
check_table_exists-cases AwsError.no_code = inr refl

-- `createSecretsTable` defines an attribute that no key uses.
unused : has_unused secrets_table_input ≡ true
unfolding secrets_table_input equal
unused = refl

not_nodes : secrets_table_name ≢ nodes_table_name
not_nodes e = cc e

-- a link of a chain that has an end has one, where the next link does
chain-ends {ℓ κ} :
    {A : Type ℓ} {B : Type κ} (o : Option (Result A)) (f : A → Option (Result B))
    → ((r : Result A) × (o ≡ some r))
    → ((a : A) → (r : Result B) × (f a ≡ some r))
    → (r : Result B) × (chain o f ≡ some r)
chain-ends o f (ok a, e) next = let (r, done) = next a in (r, rw e done)
chain-ends o f (err x, e) next = (err x, rw e refl)

module _ {D : Type 0} (ops : DynamoOps D) where
  -- A table that is active at some look.
  abbrev pub IsReady : ℕ → Bytes → D → Type 0
  IsReady k name d = ops.describe_table k name d ≡ ok (codes "ACTIVE")

  wait_until_table_active_ends :
      (i k look : ℕ) (name : Bytes) (d : D)
      → i ≡ look + k
      → IsReady i name d
      → (r : Result D) × (wait_until_table_active ops (suc k) look name d ≡ some r)
  unfolding wait_until_table_active equal
  wait_until_table_active_ends i zero look name d at ready =
      let here : i ≡ look = omega (arith, at) in
      (ok d, rw (subst (λ j. IsReady j name d) here ready) refl)
  wait_until_table_active_ends i (suc k) look name d at ready =
      let (r, more) =
        wait_until_table_active_ends i k (suc look) name d (omega (arith, at)) ready in
      elim (Result-cases (ops.describe_table look name d)) [
        | inl (status, seen) ↦ elim (Bool-cases (equal status (codes "ACTIVE"))) [
          | inl active ↦ (ok d, rw (seen, active) refl)
          | inr not_yet ↦ (r, rw (seen, not_yet) more)
        ]
        | inr (e, seen) ↦ (err e, rw seen refl)
      ]

  prepared_ends :
      (k : ℕ) (existed : Bool) (name : Bytes) (d : D)
      → IsReady k name d
      → (r : Result D) × (prepared ops (suc k) existed name d ≡ some r)
  prepared_ends k true name d ready = (ok d, refl)
  prepared_ends k false name d ready =
      chain-ends _ _ (wait_until_table_active_ends k k 0 name d (omega arith) ready)
        (λ e. (_, refl))

  -- Where both tables are active at the look with the number `k`, `awsCreateTables` returns on `k + 1`
  -- rounds of each of its loops, with the database or with an error, whichever tables were there before.
  aws_create_tables_ends :
      (k : ℕ) (d : D)
      → ((e : D) → IsReady k nodes_table_name e)
      → ((e : D) → IsReady k secrets_table_name e)
      → (r : Result D) × (aws_create_tables ops (suc k) d ≡ some r)
  unfolding aws_create_tables
  aws_create_tables_ends k d nodes secrets =
      let first = ops.create_table nodes_table_input d in
      let with_nodes = tables_after d first in
      let second = ops.create_table secrets_table_input with_nodes in
      let with_secrets = tables_after with_nodes second in
      chain-ends (some (check_table_exists (refusal first))) _ (_, refl)
        λ nodes_existed.
          chain-ends (some (check_table_exists (refusal second))) _ (_, refl)
            λ secrets_existed.
              chain-ends (prepared ops (suc k) nodes_existed nodes_table_name with_secrets) _
                (prepared_ends k nodes_existed nodes_table_name with_secrets (nodes with_secrets))
                λ e. prepared_ends k secrets_existed secrets_table_name e (secrets e)

  -- `Absent` are the tables that the database has not.
  module _ (Absent : Bytes → D → Type 0)
      (refuses_unused : (t : TableInput) (d : D)
        → has_unused t ≡ true
        → Absent t.table_name d
        → ops.create_table t d ≡ refused other_code)
      (makes_one : (t : TableInput) (d e : D) (name : Bytes)
        → ops.create_table t d ≡ created e
        → name ≢ t.table_name
        → Absent name d
        → Absent name e) where
    -- `NewAWS` never makes a store on a database without the table of the secrets, whatever the state of
    -- the table of the nodes and however often it looks: DynamoDB refuses a new table with an attribute
    -- that no key of it uses, as the cookie domain is of the secrets.
    pub new_aws-refused :
        (decode_key : Bytes → Result Bytes) (draw : ℕ → ℕ) (place : Bytes → ℕ) (f : ℕ) (now : Time)
        (d : D)
        → Absent secrets_table_name d
        → new_aws ops decode_key draw place f now d ≡ some (err library_error)
    unfolding new_aws aws_create_tables check_table_exists equal nodes_table_input
    new_aws-refused decode_key draw place f now d absent =
        elim (Creation-cases (ops.create_table nodes_table_input d)) [
          | inl (e, made) ↦
              let gone = makes_one nodes_table_input d e secrets_table_name made not_nodes absent in
              rw (made, refuses_unused secrets_table_input e unused gone) refl
          | inr (x, kept) ↦ elim (check_table_exists-cases x) [
            | inl there ↦ rw (kept, there, refuses_unused secrets_table_input d unused absent) refl
            | inr failed ↦ rw (kept, failed) refl
          ]
        ]
