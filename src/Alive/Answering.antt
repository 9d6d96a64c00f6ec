-- ===== src/Alive/Answering.antt =====
-- When a poll takes a node for alive, and that it does where the node runs `handlerAlive`.
use swift_go.Prelude.{
  ℕ, suc, ◌≡◌, ◌↔◌, refl, Bool, true, Option, some, List, [], ◌∷◌, append-nil, Result, ok, err,
  Error, Bytes, length, equal, equal_refl, eq_of_equal, bind-eq-ok, ◌==◌, ==_iff, Bool-cases,
  Result-cases, inl, inr, sym, ap, ◌∙◌,
}
use swift_go.Io.{Time}
use swift_go.Node.{Node, Gcm, Zlib, encode, decode, decrypt, supports_crypto, nonce_size}
use swift_go.Node.Crypto.{decode-encode}
use swift_go.Api.{fresh, send_response}
use swift_go.Alive.{
  Round, or_nil, update, is_due, poll_node, poll_each, poll_nodes, handle_alive, read_all,
}

module _ (g : Gcm) (z : Zlib) where
  -- A node decodes by its secrets alone.
  decode_same : (n m : Node) (b : Bytes) → m.secrets ≡ n.secrets → decode g z m b ≡ decode g z n b
  unfolding decode decrypt supports_crypto
  decode_same n m b same = rw same refl

  -- A node that is due is taken for alive exactly where random bytes were to be had and its host
  -- answered with the same bytes to their encoded form.
  poll_node_iff :
      (post : Bytes → Bytes → Result Bytes) (interval : ℕ) (round : Round) (n : Node)
      → is_due interval round.now n ≡ true
      → ((poll_node g z post interval round n).alive ≡ true) ↔ (
          (v : Bytes) × (round.nonce ≡ ok v)
          × (post n.domain (or_nil (encode g z round.random n v)) ≡ ok v))
  unfolding poll_node
  poll_node_iff post interval round n due =
      (taken, λ (v, got, replied). rw (due, got, replied, equal_refl v) refl)
    where
      taken :
          (poll_node g z post interval round n).alive ≡ true
          → (v : Bytes) × (round.nonce ≡ ok v)
            × (post n.domain (or_nil (encode g z round.random n v)) ≡ ok v)
      taken h = elim (Result-cases round.nonce) [
        | inr (e, failed) ↦ let no_bytes = rw (due, failed) at h in cc no_bytes
        | inl (v, got) ↦
            elim (Result-cases (post n.domain (or_nil (encode g z round.random n v)))) [
              | inr (e, failed) ↦ let no_answer = rw (due, got, failed) at h in cc no_answer
              | inl (b, replied) ↦ elim (Bool-cases (equal v b)) [
                | inl same ↦ (v, got, replied ∙ ap ok (sym (eq_of_equal v b same)))
                | inr other ↦ let wrong = rw (due, got, replied, other) at h in cc wrong
              ]
            ]
      ]

  -- Where random bytes are to be had, and as many as a nonce has for the encryption, the host runs
  -- `handlerAlive`, and has under the domain a node with the same secrets, the poll of a node that
  -- is due takes it for alive and sets the time of its last access, whatever the random bytes.
  pub poll_node-handle_alive :
      (text : Error → Bytes) (get_node : Bytes → Option Node) (interval : ℕ) (round : Round)
      (n m : Node) (v r : Bytes)
      → get_node n.domain ≡ some m
      → m.secrets ≡ n.secrets
      → round.nonce ≡ ok v
      → round.random ≡ ok r
      → length r ≡ nonce_size
      → is_due interval round.now n ≡ true
      → poll_node g z
          (λ host b. read_all g z text (handle_alive g z get_node host (ok b) fresh))
          interval
          round
          n
        ≡ record n { alive = true; accessed = round.later }
  unfolding poll_node handle_alive send_response
  poll_node-handle_alive text get_node interval round n m v r known same random_v random_r size
        due =
      let (out, made, back) =
        bind-eq-ok (encode g z (ok r) n v) (decode g z n) (decode-encode g z n v r size) in
      rw
        (
          due,
          random_v,
          random_r,
          made,
          known,
          decode_same n m out same,
          back,
          append-nil v,
          equal_refl v,
        )
        refl

  abbrev pub marked : Bool → Time → Node → Node
  marked alive accessed n = record n { alive = alive; accessed = accessed }

  -- A poll changes nothing of a node but whether it is alive and when it was accessed.
  abbrev pub Polled : Node → Node → Type 0
  Polled n m = m ≡ marked m.alive m.accessed n

  poll_node-Polled :
      (post : Bytes → Bytes → Result Bytes) (interval : ℕ) (round : Round) (n : Node)
      → Polled n (poll_node g z post interval round n)
  unfolding poll_node
  poll_node-Polled post interval round n = elim (Bool-cases (is_due interval round.now n)) [
    | inr early ↦ rw early refl
    | inl due ↦ elim (Result-cases round.nonce) [
      | inr (e, failed) ↦ rw (due, failed) refl
      | inl (v, got) ↦ elim (Result-cases (post n.domain (or_nil (encode g z round.random n v)))) [
        | inr (e, failed) ↦ rw (due, got, failed) refl
        | inl (b, replied) ↦ elim (Bool-cases (equal v b)) [
          | inl same ↦ rw (due, got, replied, same) refl
          | inr other ↦ rw (due, got, replied, other) refl
        ]
      ]
    ]
  ]

  Polled-trans : (a b c : Node) → Polled a b → Polled b c → Polled a c
  Polled-trans a b c p q = q ∙ ap (marked c.alive c.accessed) p

  update-Polled :
      (heap : ℕ → Node) (k a : ℕ) (m : Node)
      → Polled (heap k) m
      → Polled (heap a) (update heap k m a)
  update-Polled heap k a m p = elim (Bool-cases (k == a)) [
    | inl same ↦ rw same (at_a ((==_iff k a).0 same))
    | inr other ↦ rw other refl
  ]
    where
      at_a : k ≡ a → Polled (heap a) m
      at_a e = rw⁻¹ e p

  poll_each-Polled :
      (post : Bytes → Bytes → Result Bytes) (interval : ℕ) (rounds : ℕ → Round) (k : ℕ)
      (ns : List Node) (heap : ℕ → Node) (a : ℕ)
      → Polled (heap a) (poll_each g z post interval rounds k ns heap a)
  unfolding poll_each
  poll_each-Polled post interval rounds k [] heap a = refl
  poll_each-Polled post interval rounds k (n ∷ ns) heap a =
      let at = n.address in
      let polled = poll_node g z post interval (rounds k) (heap at) in
      Polled-trans (heap a) (update heap at polled a) _
        (update-Polled heap at a polled (poll_node-Polled post interval (rounds k) (heap at)))
        (poll_each-Polled post interval rounds (suc k) ns (update heap at polled) a)

  -- Polling all nodes changes nothing of any node but whether it is alive and when it was accessed,
  -- even where two of the nodes are one.
  pub poll_nodes-Polled :
      (post : Bytes → Bytes → Result Bytes) (interval : ℕ) (rounds : ℕ → Round)
      (ns : Result (List Node)) (heap : ℕ → Node) (a : ℕ)
      → Polled (heap a) (poll_nodes g z post interval rounds ns heap a)
  unfolding poll_nodes
  poll_nodes-Polled post interval rounds (ok ns) heap a =
      poll_each-Polled post interval rounds 0 ns heap a
  poll_nodes-Polled post interval rounds (err e) heap a = refl
