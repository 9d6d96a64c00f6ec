-- ===== src/Register.antt =====
-- register.go, handlerRegister.go, and `SetNode` of storageService.go: a domain becomes a node.
mod Form
pub mod Stored
pub mod Kept
unfoldable pub use Form.*
use swift_go.Prelude.{
  ℕ, Bool, true, false, Option, none, some, List, [], ◌∷◌, Result, ok, err, Error, bind, is_panic,
  if◌then◌else◌, Bytes,
}
use swift_go.Io.{Time}
use swift_go.Node.{Node, add_secret}
use swift_go.Node.Making.{new_node, new_secret}
use swift_go.Manager.{StoreOps, set_nodes}
use swift_go.HandlerCreate.{Values}

-- What the handler does: nothing for a domain that has a node, an error for a form that cannot be
-- read, or the page, with the stores as they are left.
pub data Registration (S : Type 0) : Type 0 where
  already_known : Registration S
  unreadable : Error → Registration S
  shown : Register → List S → Registration S

-- what `setNodes` left: the page, and the stores
abbrev finished : Register → Option Error → Register
finished d none = record d { read_only = true }
finished d (some e) = record d { store_error = some e }

module _ (t : Tools) where
  -- The key of a new secret, where the node is to scramble. `random` is what `randomBytes` returns.
  unfoldable pub scrambler_key : Bool → Result Bytes → Time → Result Bytes
  unfolding new_secret
  scrambler_key scramble random now =
      if scramble then bind (new_secret t.encode_key random now) (λ s. ok s.key) else ok []

  -- the node with a new secret, or with none
  unfoldable pub with_secret : Bool → Result Bytes → Time → Node → Result Node
  unfolding new_secret add_secret
  with_secret secret random now n =
      if secret
      then bind (new_secret t.encode_key random now) (λ x. ok (add_secret x n))
      else ok (record n { secrets = [] })

  -- The node of `storeNode`, at an address; the two random values are those of the scrambler and of
  -- the secret.
  unfoldable pub node_of : ℕ → Result Bytes → Result Bytes → Time → Register → Result Node
  unfolding scrambler_key with_secret
  node_of address for_scrambler for_secret now d =
      bind (scrambler_key d.scramble for_scrambler now) λ key.
        bind
          (new_node t.decode_key t.draw address d.network d.domain now d.starts d.expires
            (role_number d.role) key d.cookie_domain)
          (with_secret d.secret for_secret now)

  -- The same of `SetNode`, which always scrambles, and takes the domain for that of the cookies.
  unfoldable pub node_of_set_node : ℕ → Result Bytes → Result Bytes → Time → Register → Result Node
  unfolding scrambler_key with_secret
  node_of_set_node address for_scrambler for_secret now d =
      bind (scrambler_key true for_scrambler now) λ key.
        bind
          (new_node t.decode_key t.draw address d.network d.domain now d.starts d.expires
            (role_number d.role) key d.domain)
          (with_secret true for_secret now)

  module _ {S : Type 0} (ops : StoreOps S) where
    -- A panic of `newNode` ends the request, and any other error is shown.
    unfoldable pub store : Result Node → Register → List S → Result (Register × List S)
    store (ok n) d stores =
        let c = set_nodes ops d.store (n ∷ []) stores in ok (finished d c.error, c.stores)
    store (err e) d stores = if is_panic e then err e else ok (record d { error = some e }, stores)

    unfoldable pub store_node :
        ℕ → Result Bytes → Result Bytes → Time → Register → List S → Result (Register × List S)
    unfolding node_of store
    store_node address for_scrambler for_secret now d stores =
        store (node_of address for_scrambler for_secret now d) d stores

    -- whether a node was made, and whether the domain had one before
    unfoldable pub set_node :
        (Bytes → Option Node)
        → ℕ
        → Result Bytes
        → Result Bytes
        → Time
        → Register
        → List S
        → Result (Register × List S × Bool × Bool)
    unfolding node_of_set_node store
    set_node get_node address for_scrambler for_secret now d stores =
        let made = node_of_set_node address for_scrambler for_secret now d in
        bind (store made d stores) λ (page, left). ok (page, left, is_made made, is_update)
      where
        is_made : Result Node → Bool
        is_made (ok n) = true
        is_made (err e) = false

        is_update : Bool
        is_update = elim (get_node d.domain) [ none ↦ false | some n ↦ true ]

    abbrev pub shown_of : Result (Register × List S) → Result (Registration S)
    shown_of r = bind r λ (d, stores). ok (shown d stores)

    -- An error of the start date does not keep the node from being stored.
    unfoldable pub registered :
        ℕ → Result Bytes → Result Bytes → Time → Register → List S → Result (Registration S)
    unfolding store_node
    registered address for_scrambler for_secret now d stores =
        if is_valid d
        then shown_of (store_node address for_scrambler for_secret now d stores)
        else ok (shown d stores)

    unfoldable pub handle_register :
        (Bytes → Option Node)
        → List Bytes
        → ℕ
        → Result Bytes
        → Result Bytes
        → Time
        → Bytes
        → Result Values
        → List S
        → Result (Registration S)
    unfolding registered register_of
    handle_register get_node store_names address for_scrambler for_secret now host form stores =
        elim (get_node host) [
          | some n ↦ ok already_known
          | none ↦ elim form [
            | err e ↦ ok (unreadable e)
            | ok q ↦
                registered address for_scrambler for_secret now
                  (register_of t store_names now host q) stores
          ]
        ]
