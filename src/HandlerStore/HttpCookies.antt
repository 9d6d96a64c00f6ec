-- ===== src/HandlerStore/HttpCookies.antt =====
-- operation.go `setValueInCookie` and `getCookieDomain`, handlerStore.go `setBrowserWarningCookie`:
-- the cookies of a response as they are given to `http.SetCookie`.
use swift_go.Prelude.{
  Option, none, some, ◌+◌, ◌*◌, Bool, true, List, [], ◌∷◌, map, if◌then◌else◌, Bytes, codes, equal,
}
use swift_go.Io.{Time, second}
use swift_go.Io.Separated.{split, first_part}
use swift_go.Node.{Gcm, Zlib}
use swift_go.Configuration.{Configuration}
use swift_go.Operation.{Operation}
use swift_go.HandlerStore.{World, Cookie, value_cookie, browser_cookie, scramble, set_cookies}

pub data SameSite : Type 0 where
  none_mode lax_mode : SameSite

pub record HttpCookie : Type 0 where
  pub name : Bytes
  pub domain : Bytes
  pub value : Bytes
  pub path : Bytes
  pub same_site : SameSite
  pub secure : Bool
  pub http_only : Bool
  pub expires : Time

abbrev domain_or : Bytes → Bytes → Bytes
domain_or host [] = host
domain_or host (x ∷ d) = x ∷ d

-- `host` is that of the request.
unfoldable pub get_cookie_domain : Bytes → Operation → Bytes
get_cookie_domain host o = first_part (split b':' (domain_or host o.this_node.cookie_domain))

abbrev pub written : Option HttpCookie → List HttpCookie → List HttpCookie
written none ks = ks
written (some k) ks = k ∷ ks

-- `set_cookie` is what `http.SetCookie` writes for a cookie: nothing where its name is not valid.
unfoldable pub write_each : (HttpCookie → Option HttpCookie) → List HttpCookie → List HttpCookie
write_each set_cookie [] = []
write_each set_cookie (k ∷ ks) = written (set_cookie k) (write_each set_cookie ks)

-- `encode_value` is the encoder of base64.StdEncoding, and `host` that of the request.
module _ (w : World) (g : Gcm) (z : Zlib) (c : Configuration) (encode_value : Bytes → Bytes)
    (host : Bytes) where
  unfoldable pub is_https : Bool
  is_https = equal c.scheme (codes "https")

  unfoldable pub browser_warning_cookie : Time → Operation → HttpCookie
  unfolding is_https
  browser_warning_cookie now o = record {
    name = codes "t";
    domain = get_cookie_domain host o;
    value = [];
    path = codes "/";
    same_site = lax_mode;
    secure = is_https;
    http_only = true;
    expires = now + 60 * second;
  }

  unfoldable pub http_cookie : Time → Operation → Cookie → HttpCookie
  unfolding is_https browser_warning_cookie
  http_cookie now o (value_cookie p v) = record {
    name = scramble w g z c o.this_node p.key;
    domain = get_cookie_domain host o;
    value = encode_value v;
    path = b'/' ∷ scramble w g z c o.this_node o.table;
    same_site = if is_https then none_mode else lax_mode;
    secure = is_https;
    http_only = true;
    expires = p.expires;
  }
  http_cookie now o browser_cookie = browser_warning_cookie now o

  -- the cookies of the response, in the order in which they are set
  unfoldable pub http_cookies :
      (HttpCookie → Option HttpCookie) → Time → Bool → Operation → List HttpCookie
  unfolding http_cookie write_each
  http_cookies set_cookie now any_cookies o =
      write_each set_cookie (map (http_cookie now o) (set_cookies w g z c now any_cookies o))
