-- ===== src/Api.antt =====
-- handlers.go, and the handlers that encrypt, decrypt, decode, share and list: handlerEncrypt.go,
-- handlerDecrypt.go, handlerDecodeAsJSON.go, handlerShare.go and handlerNodes.go; and
-- `getAccessAllowed` of services.go.
pub mod RoundTrip
pub mod Listing
pub mod Creating
use swift_go.Prelude.{
  ℕ, Bool, true, false, Option, none, some, List, [], ◌∷◌, ◌++◌, Result, ok, err, Error,
  access_denied, not_authorized, data_expired, if◌then◌else◌, Bytes, codes,
}
use swift_go.Io.{Time}
use swift_go.Results.{Exported, exported, is_time_stamp_valid}
use swift_go.Node.{Node, Gcm, Zlib, encode, decode}
use swift_go.Node.Making.{decode_as_results}
use swift_go.HandlerCreate.{Values, value_of, delete}
use swift_go.Services.{get_access_node_for_host}

-- What a handler has written: an error as text, or data with its type through gzip.
pub data Part : Type 0 where
  failed : Error → Part
  sent : Bytes → Bytes → Part

-- `http.ResponseWriter`: the status is that of the first call that sets it.
pub record Writer : Type 0 where
  pub status : Option ℕ
  pub parts : List Part

abbrev pub fresh : Writer
fresh = record { status = none; parts = [] }

abbrev or_status : Option ℕ → ℕ → Option ℕ
or_status none code = some code
or_status (some first) code = some first

-- `returnAPIError`, which is `http.Error`
unfoldable pub return_api_error : Error → ℕ → Writer → Writer
return_api_error e code w = record {
  status = or_status w.status code;
  parts = w.parts ++ failed e ∷ [];
}

unfoldable pub send_response : Bytes → Bytes → Writer → Writer
send_response content b w = record {
  status = or_status w.status 200;
  parts = w.parts ++ sent content b ∷ [];
}

-- The host and the form, which `ParseForm` may fail to read.
pub record Request : Type 0 where
  pub host : Bytes
  pub form : Result Values

-- `if err != nil { returnAPIError(s, w, err, code); return }`
abbrev pub on_error : {A : Type 0} → ℕ → Writer → Result A → (A → Writer) → Writer
on_error code w (ok a) next = next a
on_error code w (err e) next = return_api_error e code w

abbrev pub octet_stream : Bytes
octet_stream = codes "application/octet-stream"

-- `v == false || err != nil`
abbrev pub is_allowed : Result Bool → Bool
is_allowed (ok true) = true
is_allowed _ = false

-- What `getAccessAllowed` leaves: the form without the key where the caller may go on.
pub data Access : Type 0 where
  allowed : Values → Access
  denied : Writer → Access

-- What `GetAllowed` of the access service answers.
module _ (answer : Bytes → Result Bool) where
  abbrev access_of_form : Writer → Result Values → Access
  access_of_form w (err e) = denied (return_api_error e 500 w)
  access_of_form w (ok form) =
      if is_allowed (answer (value_of (codes "accessKey") form))
      then allowed (delete (codes "accessKey") form)
      else denied (return_api_error access_denied 511 w)

  unfoldable pub get_access_allowed : Writer → Request → Access
  unfolding return_api_error
  get_access_allowed w r = access_of_form w r.form

  -- The callers answer a second time where access is denied.
  abbrev pub with_access : Access → (Values → Writer) → Writer
  with_access (allowed form) next = next form
  with_access (denied w) next = return_api_error not_authorized 401 w

-- `get_node` is that of the storage service, and `decode_base64` that of base64.StdEncoding.
module _ (g : Gcm) (z : Zlib) (get_node : Bytes → Option Node)
    (decode_base64 : Bytes → Result Bytes) where
  -- `random` is what `randomBytes` returns.
  unfoldable pub handle_encrypt : Result Bytes → Request → Writer → Writer
  unfolding return_api_error send_response
  handle_encrypt random r w = on_error 500 w r.form λ form.
      on_error 500 w (get_access_node_for_host get_node r.host) λ n.
        on_error 400 w (decode_base64 (value_of (codes "plain") form)) λ plain.
          on_error 400 w (encode g z random n plain) λ out. send_response octet_stream out w

  module _ (answer : Bytes → Result Bool) where
    unfoldable pub handle_decrypt : Request → Writer → Writer
    unfolding return_api_error send_response
    handle_decrypt r w = with_access answer (get_access_allowed answer w r) λ form.
        on_error 500 w (get_access_node_for_host get_node r.host) λ n.
          on_error 400 w (decode_base64 (value_of (codes "encrypted") form))
            λ encrypted. on_error 400 w (decode g z n encrypted) λ d. send_response octet_stream d w

    -- `print_results` is `json.Marshal` of the exported fields of results.
    unfoldable pub handle_decode_as_json :
        (Exported → Result Bytes) → Time → Request → Writer → Writer
    unfolding return_api_error send_response
    handle_decode_as_json print_results now r w =
        with_access answer (get_access_allowed answer w r) λ form.
          on_error 500 w (get_access_node_for_host get_node r.host) λ n.
            on_error 400 w (decode_base64 (value_of (codes "encrypted") form)) λ d.
              on_error 500 w (decode_as_results g z n d) λ v.
                if is_time_stamp_valid now v
                then on_error 500 w (print_results (exported v))
                    (λ j. send_response (codes "application/json") j w)
                else return_api_error data_expired 400 w
