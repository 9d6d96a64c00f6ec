-- ===== src/Node/Secrets.antt =====
-- The order of the secrets, and the fixed nonce of the scrambler.
use swift_go.Prelude.{
  ℕ, zero, suc, ◌≤◌, ◌<◌, ◌≡◌, ◌≢◌, refl, arith, List, [], ◌∷◌, ok, some, Bytes, length, All,
  All-le, sort_by, IsOrdered, sort_by-perm, sort_by-IsOrdered, get_elem?_lt, ap, leb, if◌then◌else◌,
}
use mathlib.Core.List.{Perm}
use swift_go.Node.{
  Secret, Node, sort_secrets, get_secret, first_secret, nonce_loop, make_nonce, nonce_size,
}

abbrev by_time : Secret → ℕ
by_time s = s.time_stamp

first_secret_oldest :
    (l : List Secret) (s : Secret)
    → IsOrdered by_time l
    → first_secret l ≡ ok s
    → All (λ r. s.time_stamp ≤ r.time_stamp) l
unfolding first_secret
first_secret_oldest [] s o e = tt
first_secret_oldest (r ∷ l) s (hr, o) e =
    (ground arith, All-le by_time s.time_stamp r.time_stamp l (ground arith) hr)

-- Sorting loses no secret and puts the oldest first: the secret that `getSecret` then returns, and
-- `encrypt` takes, is no newer than any other.
get_secret-sort_secrets :
    (n : Node) (s : Secret)
    → get_secret (sort_secrets n) ≡ ok s
    → Perm (sort_secrets n).secrets n.secrets
      × All (λ r. s.time_stamp ≤ r.time_stamp) (sort_secrets n).secrets
unfolding get_secret sort_secrets
get_secret-sort_secrets n s h = (
  sort_by-perm by_time n.secrets,
  first_secret_oldest (sort_by by_time n.secrets) s (sort_by-IsOrdered by_time n.secrets) h,
)

nonce_loop_total :
    (d : Bytes) (c k : ℕ)
    → c < length d
    → (n : Bytes) × (nonce_loop d c k ≡ some n) × (length n ≡ k)
unfolding nonce_loop
nonce_loop_total d c zero h = ([], refl, refl)
nonce_loop_total d c (suc k) h =
    let (x, hx) = get_elem?_lt d c h in
    let (n, hn, e) =
      nonce_loop_total d (if leb (length d) (suc c) then 0 else suc c) k (ground arith) in
    (x ∷ n, rw (hx, hn) refl, ap suc e)

-- For a domain that is not empty the nonce of a scrambler is made, and has the cipher's size.
pub make_nonce_total :
    (s : Secret) (d : Bytes)
    → d ≢ []
    → (n : Bytes) × (make_nonce (some s) d ≡ some n) × (length n ≡ nonce_size)
unfolding make_nonce
make_nonce_total s [] h = absurd (h refl)
make_nonce_total s (x ∷ d) h = nonce_loop_total (x ∷ d) 0 nonce_size (omega arith)
