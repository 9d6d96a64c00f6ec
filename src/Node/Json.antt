-- ===== src/Node/Json.antt =====
-- node.go and secret.go: `MarshalJSON` and `UnmarshalJSON` of nodes and secrets, on the values that the
-- text of encoding/json stands for. A failed type assertion is a panic.
use swift_go.Prelude.{
  ℕ, List, [], ◌∷◌, ◌++◌, Result, ok, err, runtime_panic, library_error, bind, if◌then◌else◌, Bytes,
  codes, equal,
}
use swift_go.Io.{Time}
use swift_go.Node.{Secret, Node, get_scrambler_key}
use swift_go.Node.Making.{new_secret_from_key, new_node}

mutual
  pub data Json : Type 0 where
    null : Json
    text : Bytes → Json
    number : ℕ → Json
    array : Items → Json
    object : Fields → Json

  pub data Items : Type 0 where
    no_items : Items
    item : Json → Items → Items

  pub data Fields : Type 0 where
    no_fields : Fields
    field : Bytes → Json → Fields → Fields

-- `d[key]`, where the nil of a missing key fails the assertions as JSON's null does
unfoldable pub get_field : Bytes → Fields → Json
get_field key no_fields = null
get_field key (field k v fs) = let rest = get_field key fs in if equal key k then v else rest

-- the assertions `.(string)`, `.(float64)`, `.([]interface{})` and `.(map[string]interface{})`
abbrev pub as_text : Json → Result Bytes
as_text (text s) = ok s
as_text _ = err runtime_panic

abbrev pub as_number : Json → Result ℕ
as_number (number n) = ok n
as_number _ = err runtime_panic

abbrev pub as_array : Json → Result Items
as_array (array xs) = ok xs
as_array _ = err runtime_panic

abbrev pub as_object : Json → Result Fields
as_object (object fs) = ok fs
as_object _ = err runtime_panic

-- `json.Marshal` of a time fails for years that have more than four digits; the parser is that of
-- RFC3339Nano.
pub record TimeText : Type 0 where
  pub print : Time → Result Bytes
  pub parse : Bytes → Result Time

-- `UnmarshalJSON` of a node: the map, or an error where the text is no object
abbrev pub fields_of : Json → Result Fields
fields_of (object fs) = ok fs
fields_of null = ok no_fields
fields_of _ = err library_error

module _ (form : TimeText) where
  unfoldable pub marshal_secret : Secret → Result Json
  marshal_secret s = bind (form.print s.time_stamp) λ t.
      ok (object (field (codes "timeStamp") (text t) (field (codes "key") (text s.key) no_fields)))

  unfoldable pub marshal_secrets : List Secret → Result Items
  unfolding marshal_secret
  marshal_secrets [] = ok no_items
  marshal_secrets (s ∷ ss) =
      let rest = marshal_secrets ss in bind (marshal_secret s) λ x. bind rest λ xs. ok (item x xs)

  -- The secrets are a slice that is not nil.
  unfoldable pub marshal_node : Node → Result Json
  unfolding marshal_secrets
  marshal_node n = bind (form.print n.created) λ created. bind (form.print n.starts) λ starts.
      bind (form.print n.expires) λ expires. bind (marshal_secrets n.secrets) λ secrets. ok (
        object (
          field (codes "network") (text n.network) (
            field (codes "domain") (text n.domain) (
              field (codes "created") (text created) (
                field (codes "starts") (text starts) (
                  field (codes "expires") (text expires) (
                    field (codes "role") (number n.role) (
                      field (codes "secrets") (array secrets) (
                        field (codes "scrambler") (text (get_scrambler_key n))
                          (field (codes "cookieDomain") (text n.cookie_domain) no_fields))))))))))

  module _ (decode_key : Bytes → Result Bytes) where
    -- one round of the loop over the secrets
    unfoldable pub secret_of_item : Json → Result Secret
    unfolding get_field
    secret_of_item j = bind (as_object j) λ s. bind (as_text (get_field (codes "key") s)) λ k.
        bind (bind (as_text (get_field (codes "timeStamp") s)) form.parse)
          λ t. new_secret_from_key decode_key k t

    -- `np.secrets = append(n.secrets, sec)`, where `old` are the secrets of the receiver: what it is at
    -- the end of the loop. A round that gets that far panics where `np` is nil.
    abbrev assign : Result Node → List Secret → Result Node
    assign (ok np) ss = ok (record np { secrets = ss })
    assign (err e) ss = err runtime_panic

    unfoldable pub unmarshal_secrets : List Secret → Result Node → Items → Result Node
    unfolding secret_of_item
    unmarshal_secrets old np no_items = np
    unmarshal_secrets old np (item j js) =
        bind (secret_of_item j)
          λ s. bind (assign np (old ++ s ∷ [])) λ np'. unmarshal_secrets old (ok np') js

    unfoldable pub time_field : Bytes → Fields → Result Time
    unfolding get_field
    time_field key d = bind (as_text (get_field key d)) form.parse

    -- `*n = *np`, which panics where `np` is nil: the error of `newNode` is never returned.
    abbrev dereferenced : List Secret → Result Node → Items → Result Node
    dereferenced old (ok np) js = unmarshal_secrets old (ok np) js
    dereferenced old (err e) js = bind (unmarshal_secrets old (err e) js) λ np. err runtime_panic

    -- `n` is the receiver, which keeps its place.
    unfoldable pub unmarshal_node : (ℕ → ℕ) → Node → Json → Result Node
    unfolding time_field unmarshal_secrets
    unmarshal_node draw n j = bind (fields_of j) λ d.
        bind (time_field (codes "created") d) λ created.
          bind (time_field (codes "starts") d) λ starts.
            bind (time_field (codes "expires") d) λ expires.
              bind (as_number (get_field (codes "role") d)) λ role.
                bind (as_text (get_field (codes "network") d)) λ network.
                  bind (as_text (get_field (codes "domain") d)) λ domain.
                    bind (as_text (get_field (codes "scrambler") d)) λ scrambler.
                      bind (as_text (get_field (codes "cookieDomain") d)) λ cookie_domain.
                        bind (as_array (get_field (codes "secrets") d)) λ secrets.
                          dereferenced n.secrets
                            (new_node decode_key draw n.address network domain created starts
                              expires role scrambler cookie_domain)
                            secrets

    -- `*s = *sp` panics where `sp` is nil.
    abbrev or_runtime_panic : Result Secret → Result Secret
    or_runtime_panic (ok s) = ok s
    or_runtime_panic (err e) = err runtime_panic

    unfoldable pub unmarshal_secret : Json → Result Secret
    unfolding time_field
    unmarshal_secret j = bind (fields_of j) λ d. bind (as_text (get_field (codes "key") d)) λ k.
        bind (time_field (codes "timeStamp") d)
          λ t. or_runtime_panic (new_secret_from_key decode_key k t)
