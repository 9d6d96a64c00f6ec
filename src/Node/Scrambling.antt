-- ===== src/Node/Scrambling.antt =====
-- A name that a node scrambles for a path or a cookie is unscrambled by it.
use swift_go.Prelude.{
  ℕ, ◌≡◌, refl, arith, Option, none, some, [], ◌∷◌, Result, ok, Bytes, length, Option-cases,
  Result-cases, inl, inr,
}
use swift_go.Io.{Time}
use swift_go.Node.{Secret, Node, Gcm, Zlib, encrypt_with_nonce, make_nonce, nonce_loop, nonce_size}
use swift_go.Node.Crypto.{secret_decrypt-encrypt_with_nonce}
use swift_go.Node.Secrets.{make_nonce_total}
use swift_go.Node.Making.{new_node, unscramble, make_scrambler, or_panic}
use swift_go.Configuration.{Configuration}
use swift_go.HandlerStore.{World, scramble}

-- The nonce of a node fits its scrambler.
abbrev pub HasNonce : Node → Type 0
HasNonce n = (s : Secret) → n.scrambler ≡ some s → length n.nonce ≡ nonce_size

make_nonce_size :
    (s : Secret) (d n : Bytes) → make_nonce (some s) d ≡ some n → length n ≡ nonce_size
unfolding make_nonce nonce_loop
make_nonce_size s [] n e = cc
make_nonce_size s (x ∷ d) n e =
    let (m, made, size) = make_nonce_total s (x ∷ d) (λ h. cc) in
    let same : m ≡ n = cc (made, e) in rw⁻¹ same size

module _ (decode_key : Bytes → Result Bytes) where
  -- A node that `newNode` made has a nonce that fits its scrambler.
  pub new_node-HasNonce :
      (draw : ℕ → ℕ) (address : ℕ) (network domain : Bytes) (created starts expires : Time)
      (role : ℕ) (key cookie_domain : Bytes) (n : Node)
      → new_node decode_key draw address network domain created starts expires role key
          cookie_domain
        ≡ ok n
      → HasNonce n
  unfolding new_node or_panic
  new_node-HasNonce draw address network domain created starts expires role key cookie_domain n made
        s e =
      elim (Result-cases (make_scrambler decode_key created key)) [
        | inl (x, scrambled) ↦ elim (Option-cases (make_nonce x domain)) [
          | inl missing ↦ ground arith
          | inr (nonce, found) ↦
              let (same, its) : (x ≡ some s) × (n.nonce ≡ nonce) = (ground arith, ground arith) in
              rw its (make_nonce_size s domain nonce (rw⁻¹ same found))
        ]
        | inr (x, failed) ↦ ground arith
      ]

module _ (w : World) (g : Gcm) (z : Zlib) (c : Configuration) (decode_key : Bytes → Result Bytes)
    (decodes : (b : Bytes) → decode_key (w.raw_url b) ≡ ok b) where
  unscramble-scramble_cases :
      (n : Node) (o : Option Secret) (s : Bytes)
      → n.scrambler ≡ o
      → HasNonce n
      → unscramble decode_key g n (scramble w g z c n s) ≡ ok s
  unfolding unscramble scramble
  unscramble-scramble_cases n none s e h = ground arith
  unscramble-scramble_cases n (some x) s e h = ground (
    arith,
    decodes (encrypt_with_nonce g x s n.nonce),
    secret_decrypt-encrypt_with_nonce g x s n.nonce (h x e),
  )

  -- Where the decoder undoes the encoder of base64, a node whose scrambler and nonce are those of a
  -- node that `newNode` made gives back every name that it scrambled, with or without a scrambler.
  unscramble-scramble :
      (draw : ℕ → ℕ) (address : ℕ) (network domain : Bytes) (created starts expires : Time)
      (role : ℕ) (key cookie_domain : Bytes) (n m : Node) (s : Bytes)
      → new_node decode_key draw address network domain created starts expires role key
          cookie_domain
        ≡ ok n
      → m.scrambler ≡ n.scrambler
      → m.nonce ≡ n.nonce
      → unscramble decode_key g m (scramble w g z c m s) ≡ ok s
  unscramble-scramble draw address network domain created starts expires role key cookie_domain n m
        s made es en =
      let fits =
        new_node-HasNonce decode_key draw address network domain created starts expires role key
          cookie_domain n made in
      unscramble-scramble_cases m m.scrambler s refl (λ x e. rw en (fits x (rw⁻¹ es e)))
