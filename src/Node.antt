-- ===== src/Node.antt =====
-- node.go, secret.go and crypto.go: a node, its secrets, and what it encrypts and decrypts.
pub mod Crypto
pub mod Secrets
pub mod Making
pub mod Made
pub mod Scrambling
pub mod Json
pub mod JsonTrip
use swift_go.Prelude.{
  ℕ, zero, suc, Bool, Option, none, some, List, [], ◌∷◌, ◌++◌, Result, ok, err, bind, no_secrets,
  not_decrypted, shorter_than_nonce, library_error, ltb, leb, if◌then◌else◌, Bytes, length, take,
  drop, get_elem?, sort_by,
}
use swift_go.Prelude.{◌≡◌, ◌≢◌}
use swift_go.Io.{Time, after}

abbrev pub role_access : ℕ
role_access = 0

abbrev pub role_storage : ℕ
role_storage = 1

abbrev pub role_share : ℕ
role_share = 2

-- The cipher of a secret is made from its key, and is not a field here.
pub record Secret : Type 0 where
  pub time_stamp : Time
  pub key : Bytes

-- `address` stands for the pointer: `==` on two nodes compares addresses.
pub record Node : Type 0 where
  pub address : ℕ
  pub network : Bytes
  pub domain : Bytes
  pub hash : ℕ
  pub created : Time
  pub starts : Time
  pub expires : Time
  pub role : ℕ
  pub secrets : List Secret
  pub scrambler : Option Secret
  pub nonce : Bytes
  pub accessed : Time
  pub alive : Bool
  pub cookie_domain : Bytes

unfoldable pub get_scrambler_key : Node → Bytes
get_scrambler_key n = elim n.scrambler [ none ↦ [] | some s ↦ s.key ]

unfoldable pub supports_crypto : Node → Bool
supports_crypto n = ltb 0 (length n.secrets)

unfoldable pub is_active : Time → Node → Bool
is_active now n = after n.expires now

unfoldable pub add_secret : Secret → Node → Node
add_secret s n = record n { secrets = n.secrets ++ s ∷ [] }

unfoldable pub first_secret : List Secret → Result Secret
first_secret [] = err no_secrets
first_secret (s ∷ rest) = ok s

unfoldable pub get_secret : Node → Result Secret
unfolding first_secret
get_secret n = first_secret n.secrets

unfoldable pub sort_secrets : Node → Node
sort_secrets n = record n { secrets = sort_by (λ s. s.time_stamp) n.secrets }

abbrev prepend : Option ℕ → Option Bytes → Option Bytes
prepend (some x) (some rest) = some (x ∷ rest)
prepend _ _ = none

-- the loop of `makeNonce` over the `k` bytes that are still to be set, `c` being the index into
-- `d`; `none` is the panic of an index out of range
unfoldable pub nonce_loop : Bytes → ℕ → ℕ → Option Bytes
nonce_loop d c zero = some []
nonce_loop d c (suc k) =
    prepend (get_elem? d c) (nonce_loop d (if leb (length d) (suc c) then 0 else suc c) k)

-- The size of the nonce of `cipher.NewGCM`.
abbrev pub nonce_size : ℕ
nonce_size = 12

unfoldable pub make_nonce : Option Secret → Bytes → Option Bytes
unfolding nonce_loop
make_nonce none d = some []
make_nonce (some s) d = nonce_loop d 0 nonce_size

-- AES-GCM of crypto/cipher under a key. A nil plain text is an empty one.
pub record Gcm : Type 0 where
  pub seal : Bytes → Bytes → Bytes → Bytes
  pub unseal : Bytes → Bytes → Bytes → Option Bytes
  pub unseal-seal : (key nonce plain : Bytes) → unseal key nonce (seal key nonce plain) ≡ some plain

-- compress/zlib, through `compress` and `decompress` of compress.go.
pub record Zlib : Type 0 where
  pub deflate : Bytes → Bytes
  pub inflate : Bytes → Result Bytes
  pub inflate-deflate : (b : Bytes) → inflate (deflate b) ≡ ok b
  pub deflate-ne-nil : (b : Bytes) → deflate b ≢ []

or_library_error : Option Bytes → Result Bytes
or_library_error none = err library_error
or_library_error (some d) = ok d

module _ (g : Gcm) where
  -- `crypto.decrypt` of the secret
  unfoldable pub secret_decrypt : Secret → Bytes → Result Bytes
  unfolding or_library_error
  secret_decrypt s b =
      if ltb (length b) nonce_size
      then err (shorter_than_nonce (length b))
      else or_library_error (g.unseal s.key (take nonce_size b) (drop nonce_size b))

  -- `Seal` appends to the nonce, which it is given as the destination.
  unfoldable pub encrypt_with_nonce : Secret → Bytes → Bytes → Bytes
  encrypt_with_nonce s b n = n ++ g.seal s.key n b

  -- `crypto.encrypt`, with what `randomBytes` returned
  unfoldable pub secret_encrypt : Result Bytes → Secret → Bytes → Result Bytes
  unfolding encrypt_with_nonce
  secret_encrypt random s b = bind random λ n. ok (encrypt_with_nonce s b n)

  unfoldable pub encrypt : Result Bytes → Node → Bytes → Result Bytes
  encrypt random n d = bind (get_secret n) λ s. secret_encrypt random s d

  -- `d != nil`: an empty plain text comes out of `Open` as nil.
  abbrev or_next : Bytes → Result Bytes → Result Bytes
  or_next [] rest = rest
  or_next (x ∷ d) rest = ok (x ∷ d)

  unfoldable pub decrypt_loop : List Secret → Bytes → Result Bytes
  decrypt_loop [] b = err not_decrypted
  decrypt_loop (s ∷ rest) b =
      let further = decrypt_loop rest b in bind (secret_decrypt s b) λ d. or_next d further

  unfoldable pub decrypt : Node → Bytes → Result Bytes
  unfolding decrypt_loop
  decrypt n b = decrypt_loop n.secrets b

  module _ (z : Zlib) where
    unfoldable pub encode : Result Bytes → Node → Bytes → Result Bytes
    encode random n b =
        let e = z.deflate b in if supports_crypto n then encrypt random n e else ok e

    unfoldable pub decode : Node → Bytes → Result Bytes
    decode n b = if supports_crypto n then bind (decrypt n b) z.inflate else z.inflate b
