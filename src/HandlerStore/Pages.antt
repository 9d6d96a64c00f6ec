-- ===== src/HandlerStore/Pages.antt =====
-- handlerStore.go: the URL of the next node, the results, the cookies and the pages of the storage
-- handler.
use swift_go.Prelude.{
  ℕ, suc, ◌+◌, Bool, true, false, ◌&&◌, not, Option, none, some, List, [], ◌∷◌, ◌++◌, map, Result,
  ok, err, Error, no_next_node, bind, ltb, leb, if◌then◌else◌, Bytes, length,
}
use swift_go.Io.{Time, write_time}
use swift_go.Html.{display_user_interface, post_message_on_complete, java_script}
use swift_go.Pair.{OperationPair, is_empty, write_to_buffer}
use swift_go.Results.{Results, encode_results}
use swift_go.Node.{Node, Gcm, Zlib, encrypt_with_nonce, encode}
use swift_go.Configuration.{Configuration, storage_operation_timeout_duration}
use swift_go.Operation.{Operation, as_byte_array, is_time_stamp_valid, done, same_node}
use swift_go.HandlerStore.Environment.{World, Url}

pub data Template : Type 0 where
  warning post_message post_message_blank blank progress : Template
  java_script_return java_script_progress : Template

-- A cookie of the response: a pair and its encoded value, or the one that only shows that cookies work.
pub data Cookie : Type 0 where
  value_cookie : OperationPair → Bytes → Cookie
  browser_cookie : Cookie

-- A page from a template and the operation, with the next URL, the cookies, and whether the header
-- that announces the next domain is set; or an error, with the cookies set before it; or a panic.
pub data Reply : Type 0 where
  page : Template → Operation → Option Url → List Cookie → Bool → Reply
  server_error : Error → List Cookie → Reply
  panicked : Reply

module _ (w : World) (g : Gcm) (z : Zlib) (c : Configuration) where
  unfoldable pub scramble : Node → Bytes → Bytes
  scramble n s = elim n.scrambler [
    | none ↦ s
    | some secret ↦ w.raw_url (encrypt_with_nonce g secret s n.nonce)
  ]

  -- `asURLParameter` for the next node
  unfoldable pub as_url_parameter : Operation → Node → Result Bytes
  as_url_parameter o n =
      bind (encode g z (w.random_nonce 0) n (as_byte_array o)) λ e. ok (w.raw_url e)

  unfoldable pub url_to : Operation → Option Node → Result Url
  url_to o none = err no_next_node
  url_to o (some n) = bind (as_url_parameter o n) λ p.
      ok (record { scheme = c.scheme; host = n.domain; path = scramble n o.table ++ (b'/' ∷ p) })

  unfoldable pub get_next_url : Operation → Result Url
  unfolding url_to
  get_next_url o = url_to o o.next_node

  -- the results that `getResults` builds
  unfoldable pub results_of : Time → Operation → Results
  results_of now o = record {
    html = o.html;
    expires = now + storage_operation_timeout_duration c;
    pairs = map (λ (p : OperationPair). p.pair) o.resolved;
    state = o.state;
  }

  -- The bytes are sent in base64, which the access node undoes.
  unfoldable pub get_results : Time → Operation → Result Bytes
  get_results now o =
      bind (w.post_encrypt o.access_node (encode_results (results_of now o)))
        λ in'. ok (w.raw_url in')

  -- `Results()`, whose error is only logged: what is added to the return URL
  abbrev or_nothing : Result Bytes → Bytes
  or_nothing (ok x) = x
  or_nothing (err e) = []

  unfoldable pub results_text : Time → Operation → Bytes
  results_text now o =
      if is_time_stamp_valid c now o && ltb 0 (length o.access_node)
      then or_nothing (get_results now o)
      else []

  -- `setValueInCookie` up to the value of the cookie
  unfoldable pub cookie_value : Time → Operation → ℕ → OperationPair → Result Bytes
  cookie_value now o i p =
      encode g z (w.random_nonce i) o.this_node (write_to_buffer p (write_time [] now))

  -- the cookies and whether the loop got to its end
  abbrev add_cookie : OperationPair → Result Bytes → List Cookie × Bool → List Cookie × Bool
  add_cookie p (err e) rest = ([], false)
  add_cookie p (ok v) (cookies, fine) = (value_cookie p v ∷ cookies, fine)

  -- the loop of `setCookies`, which an error ends
  unfoldable pub value_cookies : Time → Operation → List OperationPair → List Cookie × Bool
  value_cookies now o [] = ([], true)
  value_cookies now o (p ∷ ps) =
      let rest = value_cookies now o ps in
      if is_empty p then rest else add_cookie p (cookie_value now o (suc (length ps)) p) rest

  abbrev or_browser_cookie : Bool → List Cookie × Bool → List Cookie
  or_browser_cookie any_cookies ([], true) = if any_cookies then [] else browser_cookie ∷ []
  or_browser_cookie any_cookies (cookies, fine) = cookies

  -- `any_cookies` is `getAnyCookiesPresent`.
  unfoldable pub set_cookies : Time → Bool → Operation → List Cookie
  unfolding value_cookies
  set_cookies now any_cookies o = or_browser_cookie any_cookies (value_cookies now o o.resolved)

  abbrev return_page : Operation → Template → List Cookie → Result Url → Reply
  return_page o t cookies (err e) = server_error e cookies
  return_page o t cookies (ok u) =
      page (if java_script o.html then java_script_return else t) o (some u) cookies false

  unfoldable pub store_return : Time → Bool → Operation → Template → Reply
  store_return now any_cookies o t =
      return_page o t (set_cookies now any_cookies o)
        (w.parse_url (o.return_url ++ results_text now o))

  unfoldable pub store_complete : Time → Bool → Operation → Reply
  store_complete now any_cookies o =
      if post_message_on_complete o.html
      then page (if display_user_interface o.html then post_message else post_message_blank) o none
          [] false
      else store_return now any_cookies o (
          if display_user_interface o.html
          then (if leb o.nodes_visited 1 then blank else progress)
          else blank)

  abbrev warning_page : Operation → Result Url → Reply
  warning_page o (err e) = server_error e []
  warning_page o (ok u) = page warning o (some u) [] false

  unfoldable pub store_warning : Time → Option Node → Operation → Reply
  store_warning now none o = panicked
  store_warning now (some home) o =
      let o' = record o { next_node = some home; nodes_visited = 0; time_stamp = now } in
      warning_page o' (get_next_url o')

  unfoldable pub store_done : Time → Option Node → Bool → Operation → Reply
  store_done now home any_cookies o =
      if ltb 1 o.node_count && done o && not (java_script o.html) && not any_cookies
      then store_warning now home o
      else store_complete now any_cookies o

  abbrev continue_page : Time → Option Node → Bool → Operation → Result Url → Reply
  continue_page now home any_cookies o (err e) = server_error e []
  continue_page now none any_cookies o (ok u) = panicked
  continue_page now (some h) any_cookies o (ok u) =
      page
        (if java_script o.html
          then java_script_progress
          else if display_user_interface o.html
          then progress
          else blank)
        o (some u) (set_cookies now any_cookies o) (not (same_node h o.next_node))

  unfoldable pub store_continue : Time → Option Node → Bool → Operation → Reply
  store_continue now home any_cookies o = continue_page now home any_cookies o (get_next_url o)
