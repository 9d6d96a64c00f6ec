-- ===== src/HandlerStore/Carried.antt =====
-- What holds of the cookies of a response, and when a browser sends them back to the node.
use swift_go.Prelude.{
  ℕ, ◌&&◌, ◌||◌, leb, ◌==◌, Option, ◌≡◌, ◌≢◌, ◌⊎◌, Bool, true, some, [], ◌∷◌, ◌++◌, Bytes, codes,
  equal, All,
}
use swift_go.Node.{Secret, Node, Gcm, Zlib}
use swift_go.Configuration.{Configuration}
use swift_go.Operation.{Operation}
use swift_go.HandlerStore.{World, Url, scramble}
use swift_go.HandlerStore.HttpCookies.{HttpCookie, none_mode}

-- When RFC 6265 matches the path `q` of a request with the path `p` of a cookie, but for equal paths.
abbrev pub PathMatches : Bytes → Bytes → Type 0
PathMatches p q =
    ((rest : Bytes) × (q ≡ p ++ b'/' ∷ rest))
    ⊎ ((front : Bytes) × (rest : Bytes) × (p ≡ front ++ b'/' ∷ []) × (q ≡ p ++ rest))

-- Letters, digits, `-`, `_` and `/`: the bytes of base64.RawURLEncoding, and the slash.
abbrev pub is_plain : ℕ → Bool
is_plain x =
    (leb 48 x && leb x 57)
    || (leb 65 x && leb x 90)
    || (leb 97 x && leb x 122)
    || (x == 45)
    || (x == 95)
    || (x == 47)

abbrev pub IsPlain : Bytes → Type 0
IsPlain = All (λ x. is_plain x ≡ true)

-- What `http.SetCookie` documents of a cookie that it writes: a path of plain bytes stays, and so do
-- the flags; a domain that is not valid is left out.
pub record Written (k l : HttpCookie) : Type 0 where
  pub path : IsPlain k.path → l.path ≡ k.path
  pub domain : (l.domain ≡ k.domain) ⊎ (l.domain ≡ [])
  pub same_site : l.same_site ≡ k.same_site
  pub secure : l.secure ≡ k.secure
  pub http_only : l.http_only ≡ k.http_only

-- A cookie that a browser takes and sends with a request of the path, if its domain is the URL's:
-- `None` asks for `Secure`, `Secure` asks for https, and a domain has no port. No script reads it.
pub record IsCarried (scheme path_asked : Bytes) (k : HttpCookie) : Type 0 where
  pub path : PathMatches k.path path_asked
  pub asks_secure : k.same_site ≡ none_mode → k.secure ≡ true
  pub asks_https : k.secure ≡ true → equal scheme (codes "https") ≡ true
  pub no_port : All (λ x. x ≢ b':') k.domain
  pub no_script : k.http_only ≡ true

-- The scrambled table of the node is plain: the node has a scrambler, or the table is plain itself.
abbrev pub HasPlainTable : Operation → Type 0
HasPlainTable o = ((s : Secret) × (o.this_node.scrambler ≡ some s)) ⊎ IsPlain o.table

-- `set_cookie` is `http.SetCookie`, and `escape` what `URL.String` makes of the path of a URL.
module _ (w : World) (g : Gcm) (z : Zlib) (c : Configuration) (encode_value : Bytes → Bytes)
    (host : Bytes) (set_cookie : HttpCookie → Option HttpCookie) (escape : Bytes → Bytes)
    (writes : (k l : HttpCookie) → set_cookie k ≡ some l → Written k l)
    (escapes : (p : Bytes) → IsPlain p → escape p ≡ p)
    (plain_url : (b : Bytes) → IsPlain (w.raw_url b)) where
  -- the parts of a URL for the node of an operation
  record IsUrl (o : Operation) (u : Url) : Type 0 where
    scheme : c.scheme ≡ u.scheme
    parameter : Bytes
    plain : IsPlain parameter
    path : scramble w g z c o.this_node o.table ++ b'/' ∷ parameter ≡ u.path
