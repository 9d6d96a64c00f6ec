-- ===== src/Node/Making.antt =====
-- node.go and secret.go: how nodes and secrets are made, and what a node makes of a scrambled name and
-- of encrypted results.
use swift_go.Prelude.{
  ℕ, false, ◌||◌, Option, none, some, [], ◌∷◌, Result, ok, err, runtime_panic, library_error, bind,
  ◌==◌, if◌then◌else◌, Bytes, length,
}
use swift_go.Io.{Time, zero_time}
use swift_go.Node.{Secret, Node, Gcm, Zlib, make_nonce, secret_decrypt, decode}
use swift_go.Nodes.{get_hash}
use swift_go.Results.{Results, decode_results}

-- `aes.NewCipher` takes keys of 16, 24 and 32 bytes, and `cipher.NewGCM` any AES cipher.
unfoldable pub new_crypto : Bytes → Result Bytes
new_crypto b =
    if (length b == 16) || (length b == 24) || (length b == 32) then ok b else err library_error

-- `decode_key` is the decoder of base64.RawURLEncoding, and `encode_key` its encoder.
module _ (decode_key : Bytes → Result Bytes) where
  unfoldable pub new_secret_from_key : Bytes → Time → Result Secret
  unfolding new_crypto
  new_secret_from_key key t =
      bind (decode_key key) λ b. bind (new_crypto b) λ x. ok (record { time_stamp = t; key = key })

  unfoldable pub make_scrambler : Time → Bytes → Result (Option Secret)
  make_scrambler created [] = ok none
  make_scrambler created (x ∷ key) = bind (new_secret_from_key (x ∷ key) created) λ s. ok (some s)

  unfoldable pub or_panic : Option Bytes → Result Bytes
  or_panic none = err runtime_panic
  or_panic (some b) = ok b

  -- `draw` is that of `get_hash`, and `address` where the node is put.
  unfoldable pub new_node :
      (ℕ → ℕ) → ℕ → Bytes → Bytes → Time → Time → Time → ℕ → Bytes → Bytes → Result Node
  unfolding make_scrambler or_panic
  new_node draw address network domain created starts expires role scramble_key cookie_domain =
      bind (make_scrambler created scramble_key) λ scrambler.
        bind (or_panic (make_nonce scrambler domain)) λ nonce. ok (record {
          address = address;
          network = network;
          domain = domain;
          hash = get_hash draw domain;
          created = created;
          starts = starts;
          expires = expires;
          role = role;
          secrets = [];
          scrambler = scrambler;
          nonce = nonce;
          accessed = zero_time;
          alive = false;
          cookie_domain = cookie_domain;
        })

  unfoldable pub unscramble : Gcm → Node → Bytes → Result Bytes
  unscramble g n s = elim n.scrambler [
    | none ↦ ok s
    | some secret ↦ bind (decode_key s) (secret_decrypt g secret)
  ]

-- `random` is what `randomBytes(32)` returns.
unfoldable pub new_secret : (Bytes → Bytes) → Result Bytes → Time → Result Secret
unfolding new_crypto
new_secret encode_key random now =
    bind random λ b. bind (new_crypto b) λ x. ok (record { time_stamp = now; key = encode_key b })

-- `decode` never gives a nil slice without an error.
unfoldable pub decode_as_results : Gcm → Zlib → Node → Bytes → Result Results
decode_as_results g z n d = bind (decode g z n d) λ b. decode_results (some b)
