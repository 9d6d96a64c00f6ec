-- ===== src/HandlerStore/Environment.antt =====
-- What the storage handler calls and the repository does not hold: the URLs, the access node, and the
-- random numbers.
use swift_go.Prelude.{ℕ, Result, Bytes}

-- `path` is the `Path` of the URL, which `URL.String` escapes.
pub record Url : Type 0 where
  pub scheme : Bytes
  pub host : Bytes
  pub path : Bytes

-- What the code calls and is not in the repository: base64.RawURLEncoding, `url.Parse`, the POST to
-- the access node that encrypts the results, and the random numbers of the request.
pub record World : Type 0 where
  pub raw_url : Bytes → Bytes
  pub parse_url : Bytes → Result Url
  pub post_encrypt : Bytes → Bytes → Result Bytes
  -- 0 for the next URL; for the cookie of a pair, its place counted from the end
  pub random_nonce : ℕ → Result Bytes
  -- the draws of the try with the given number
  pub intn : ℕ → ℕ → ℕ
