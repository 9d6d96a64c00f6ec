-- ===== src/Examples/Cookies.antt =====
-- The cookies of a response on concrete operations.
use swift_go.Prelude.{◌+◌, ◌%◌, ◌/◌, ◌≡◌, refl, [], ◌∷◌, ◌++◌, Bytes, codes}
use swift_go.Operation.{as_byte_array}
use swift_go.HandlerStore.{Url, World}
use swift_go.HandlerStore.HttpCookies.{get_cookie_domain}
use swift_go.Io.Separated.{split}
use swift_go.Examples.{one_nonce, operation, world}

domain_of_host : get_cookie_domain (codes "a.com:80") operation ≡ codes "a.com"
unfolding get_cookie_domain split
domain_of_host = refl

-- An encoding in letters, two for each byte.
abbrev lettered : Bytes → Bytes
lettered [] = []
lettered (x ∷ b) = (65 + x / 16 % 16) ∷ (65 + x % 16) ∷ lettered b

abbrev lettered_world : World
lettered_world = record world { raw_url = lettered }

abbrev here : Url
here = record {
  scheme = codes "https";
  host = b'a' ∷ [];
  path = b'm' ∷ b'/' ∷ lettered (one_nonce ++ 1 ∷ as_byte_array operation);
}
