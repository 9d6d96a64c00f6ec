-- ===== src/Api/RoundTrip.antt =====
-- The encrypting endpoint, and the decrypting and decoding ones that are given its answer.
use swift_go.Prelude.{
  ◌≡◌, refl, Bool, true, Option, some, [], ◌∷◌, append-nil, Result, ok, Bytes, codes, bind-eq-ok,
  length, equal,
}
use swift_go.Io.{Time}
use swift_go.Results.{Results, Exported, exported, encode_results, is_time_stamp_valid}
use swift_go.Results.RoundTrip.{IsWritable, read_back, decode_results-encode_results}
use swift_go.Node.{Node, Gcm, Zlib, encode, decode, nonce_size}
use swift_go.Node.Crypto.{decode-encode}
use swift_go.Node.Making.{decode_as_results}
use swift_go.HandlerCreate.{value_of, values_of, delete}
use swift_go.Services.{get_access_node_for_host}
use swift_go.Api.{
  Request, Writer, sent, fresh, get_access_allowed, handle_encrypt, handle_decrypt, octet_stream,
  handle_decode_as_json, send_response,
}

-- one answer with data
abbrev pub answered : Bytes → Bytes → Writer
answered content b = record { status = some 200; parts = sent content b ∷ [] }

-- the requests to the endpoints, with base64 of the data
module _ (encode_base64 : Bytes → Bytes) (host : Bytes) where
  abbrev pub to_encrypt : Bytes → Request
  to_encrypt b = record { host = host; form = ok ((codes "plain", encode_base64 b ∷ []) ∷ []) }

  abbrev pub to_decrypt : Bytes → Bytes → Request
  to_decrypt key b = record {
    host = host;
    form = ok ((codes "accessKey", key ∷ []) ∷ (codes "encrypted", encode_base64 b ∷ []) ∷ []);
  }

module _ (g : Gcm) (z : Zlib) (get_node : Bytes → Option Node)
    (decode_base64 : Bytes → Result Bytes) (encode_base64 : Bytes → Bytes)
    (decodes : (b : Bytes) → decode_base64 (encode_base64 b) ≡ ok b)
    (answer : Bytes → Result Bool) where
  encrypted :
      (n : Node) (host b r : Bytes)
      → get_access_node_for_host get_node host ≡ ok n
      → length r ≡ nonce_size
      → (out : Bytes) × (decode g z n out ≡ ok b)
        × (handle_encrypt g z get_node decode_base64 (ok r) (to_encrypt encode_base64 host b) fresh
            ≡ answered octet_stream out)
  unfolding handle_encrypt value_of values_of equal send_response
  encrypted n host b r at size =
      let (out, made, back) =
        bind-eq-ok (encode g z (ok r) n b) (decode g z n) (decode-encode g z n b r size) in
      (out, back, rw (at, decodes b, made) refl)

  -- Where base64 decodes what it encodes, for an access node, random numbers that fill the nonce,
  -- and a key that the access service allows: the encrypting endpoint answers with data that the
  -- decrypting endpoint of the same host turns back into what was encrypted.
  handle_decrypt-handle_encrypt :
      (n : Node) (host key b r : Bytes)
      → get_access_node_for_host get_node host ≡ ok n
      → length r ≡ nonce_size
      → answer key ≡ ok true
      → (out : Bytes) × (handle_encrypt g z get_node decode_base64
            (ok r)
            (to_encrypt encode_base64 host b)
            fresh
          ≡ answered octet_stream out)
        × (handle_decrypt g z get_node decode_base64 answer
              (to_decrypt encode_base64 host key out)
              fresh
            ≡ answered octet_stream b)
  unfolding handle_decrypt value_of values_of equal delete get_access_allowed send_response
  handle_decrypt-handle_encrypt n host key b r at size allow =
      let (out, back, made) = encrypted n host b r at size in
      (out, made, rw (allow, at, decodes out, back) refl)

  decode_as_results-encrypted :
      (n : Node) (r : Results) (out : Bytes)
      → IsWritable r
      → decode g z n out ≡ ok (encode_results r)
      → decode_as_results g z n out ≡ ok (read_back r)
  unfolding decode_as_results
  decode_as_results-encrypted n r out w back =
      rw back (rw⁻¹ (append-nil (encode_results r)) (decode_results-encode_results r [] w))

  -- Where base64 decodes what it encodes, for an access node, random numbers that fill the nonce, a
  -- key that the access service allows, and results that fit their encoding, that have not expired
  -- as they are read back, and whose exported fields can be written as JSON: what the encrypting endpoint makes of
  -- their bytes, the decoding endpoint of the same host answers with as the JSON of the
  -- texts of their page, without their pairs, their state and their expiry.
  pub handle_decode_as_json-handle_encrypt :
      (print_results : Exported → Result Bytes) (now : Time) (n : Node) (host key r j : Bytes)
      (v : Results)
      → get_access_node_for_host get_node host ≡ ok n
      → length r ≡ nonce_size
      → answer key ≡ ok true
      → IsWritable v
      → is_time_stamp_valid now (read_back v) ≡ true
      → print_results (exported v) ≡ ok j
      → (out : Bytes) × (handle_encrypt g z get_node decode_base64
            (ok r)
            (to_encrypt encode_base64 host (encode_results v))
            fresh
          ≡ answered octet_stream out)
        × (handle_decode_as_json g z get_node decode_base64 answer print_results now
              (to_decrypt encode_base64 host key out)
              fresh
            ≡ answered (codes "application/json") j)
  unfolding handle_decode_as_json value_of values_of equal delete get_access_allowed send_response
  handle_decode_as_json-handle_encrypt print_results now n host key r j v at size allow fits valid
        printed =
      let (out, back, made) = encrypted n host (encode_results v) r at size in
      (
        out,
        made,
        rw (allow, at, decodes out, decode_as_results-encrypted n v out fits back, valid, printed)
            refl,
      )
