-- ===== src/Node/Crypto.antt =====
-- What a node encrypts it decrypts, and the secrets that it tries.
use swift_go.Prelude.{
  ◌≡◌, ◌≢◌, ◌↔◌, Result-cases, inl, inr, refl, List, [], ◌∷◌, ok, arith, Bytes, length, take_exact,
  drop_exact, length-append, bind,
}
use swift_go.Node.{
  Secret, Node, Gcm, Zlib, nonce_size, secret_decrypt, encrypt_with_nonce, secret_encrypt, encrypt,
  get_secret, first_secret, decrypt_loop, decrypt, supports_crypto, encode, decode,
}

module _ (g : Gcm) where
  -- A secret decrypts what it encrypted with any nonce of the right size.
  pub secret_decrypt-encrypt_with_nonce :
      (s : Secret) (b n : Bytes)
      → length n ≡ nonce_size
      → secret_decrypt g s (encrypt_with_nonce g s b n) ≡ ok b
  unfolding secret_decrypt encrypt_with_nonce
  secret_decrypt-encrypt_with_nonce s b n e =
      let cipher = g.seal s.key n b in
      rw
        (
          take_exact nonce_size n cipher e,
          drop_exact nonce_size n cipher e,
          length-append n cipher,
          e,
        )
        (ground (arith, g.unseal-seal s.key n b))

  -- The secret `s` is the first that gives more than no bytes, and it gives `d`; no secret before it
  -- fails.
  pub data Finds (b d : Bytes) : List Secret → Type 0 where
    at_once : (s : Secret) (rest : List Secret) → secret_decrypt g s b ≡ ok d → Finds b d (s ∷ rest)
    behind :
        (s : Secret) (rest : List Secret)
        → secret_decrypt g s b ≡ ok []
        → Finds b d rest
        → Finds b d (s ∷ rest)

  Finds-decrypt_loop :
      (b d : Bytes) (l : List Secret) → d ≢ [] → Finds b d l → decrypt_loop g l b ≡ ok d
  unfolding decrypt_loop
  Finds-decrypt_loop b [] l ne f = absurd (ne refl)
  Finds-decrypt_loop b (x ∷ d) _ ne (at_once s rest h) = rw h
  Finds-decrypt_loop b (x ∷ d) _ ne (behind s rest h f) =
      rw h (Finds-decrypt_loop b (x ∷ d) rest ne f)

  decrypt_loop-Finds :
      (b d : Bytes) (l : List Secret) → decrypt_loop g l b ≡ ok d → (d ≢ []) × Finds b d l
  unfolding decrypt_loop
  decrypt_loop-Finds b d [] e = cc e
  decrypt_loop-Finds b d (s ∷ rest) e = elim (Result-cases (secret_decrypt g s b)) [
    | inr (x, failed) ↦ let wrong = rw failed at e in cc wrong
    | inl ([], nothing) ↦
        let (ne, f) = decrypt_loop-Finds b d rest (rw nothing at e) in (ne, behind s rest nothing f)
    | inl (y ∷ ys, found) ↦
        let is : y ∷ ys ≡ d = cc (rw found at e) in
        (λ h. cc (is, h), at_once s rest (rw⁻¹ is found))
  ]

  -- A node decrypts data to `d` exactly where `d` is not empty, one of its secrets decrypts the data
  -- to `d`, and every secret before that one decrypts it to no bytes: the first secret that fails ends
  -- the search, though a later one would decrypt the data.
  pub decrypt_iff :
      (n : Node) (b d : Bytes) → (decrypt g n b ≡ ok d) ↔ ((d ≢ []) × Finds b d n.secrets)
  unfolding decrypt
  decrypt_iff n b d =
      (decrypt_loop-Finds b d n.secrets, λ h. Finds-decrypt_loop b d n.secrets h.0 h.1)

  decrypt_loop_own :
      (s : Secret) (rest : List Secret) (b r : Bytes)
      → b ≢ []
      → length r ≡ nonce_size
      → decrypt_loop g (s ∷ rest) (encrypt_with_nonce g s b r) ≡ ok b
  unfolding decrypt_loop
  decrypt_loop_own s rest [] r ne e = absurd (ne refl)
  decrypt_loop_own s rest (x ∷ b) r ne e = rw (secret_decrypt-encrypt_with_nonce s (x ∷ b) r e)

  module _ (z : Zlib) where
    decode-encode_cases :
        (n : Node) (l : List Secret) (b r : Bytes)
        → n.secrets ≡ l
        → length r ≡ nonce_size
        → bind (encode g z (ok r) n b) (decode g z n) ≡ ok b
    unfolding encode decode supports_crypto encrypt get_secret first_secret secret_encrypt decrypt
    decode-encode_cases n [] b r hs e = rw hs (z.inflate-deflate b)
    decode-encode_cases n (s ∷ rest) b r hs e =
        ground (
          arith,
          decrypt_loop_own s rest (z.deflate b) r (z.deflate-ne-nil b) e,
          z.inflate-deflate b,
        )

    -- With a nonce of the right size `encode` succeeds, and `decode` of the same node gives back
    -- what was encoded, whether the node has secrets or not.
    pub decode-encode :
        (n : Node) (b r : Bytes)
        → length r ≡ nonce_size
        → bind (encode g z (ok r) n b) (decode g z n) ≡ ok b
    decode-encode n b r e = decode-encode_cases n n.secrets b r refl e
