-- ===== src/Examples/Started.antt =====
-- The creation handler on a concrete network.
use swift_go.Prelude.{
  ℕ, zero, suc, ◌≡◌, refl, Option, some, List, [], ◌∷◌, Result, ok, err, Bytes, equal, codes,
}
use swift_go.Node.{Node}
use swift_go.Nodes.{Nodes}
use swift_go.Operation.{Operation}
use swift_go.HandlerStore.{Url}
use swift_go.HandlerCreate.{Values, create, set_count}
use swift_go.HandlerCreate.Started.{IsStarted, create-IsStarted}
use swift_go.HandlerStore.{get_next_url, as_url_parameter, scramble, url_to}
use swift_go.Operation.{as_byte_array, new_operation, write_pairs}
use swift_go.Nodes.{
  get_home_node, get_node_index_by_hash, index_loop, get_remote_addr_hash, address_run,
  find_client_ip, fnv64a, get_hash, get_remote_addr, up_to_bracket,
}
use swift_go.Html.{
  clear_bit, set_bit, set_display_user_interface, set_java_script, set_post_message_on_complete,
  set_use_home_node, write,
}
use swift_go.Io.{
  be_put, date_number, gob_encode, write_date, write_time, le_put, write_byte, write_byte_array,
  write_byte_array_array, write_string, write_uint16,
}
use swift_go.Pair.{write_to_buffer}
use swift_go.HandlerCreate.{
  create_operation, access_of, set_access_node, delete, validate_url, add_pairs, create_pair,
  is_operation_character, html_of, is_reserved, reduced, value_of, values_of,
  create_pair_with_no_value, create_pair_with_value, find_character, get_conflict_policy,
}
use swift_go.Node.{
  encode, encrypt, encrypt_with_nonce, first_secret, get_secret, secret_encrypt, supports_crypto,
}
use swift_go.Io.Separated.{join}
use swift_go.Examples.{
  plain_gcm, plain_zlib, node_a, node_c, network, operation, settings, world, parsers, site,
}

abbrev pub form : Values
form =
    (codes "returnUrl", (b'u' ∷ []) ∷ [])
    ∷ (codes "table", (b'm' ∷ []) ∷ [])
    ∷ (codes "nodeCount", (b'2' ∷ []) ∷ [])
    ∷ (b'k' ∷ b'+' ∷ b'9' ∷ [], (b'v' ∷ []) ∷ [])
    ∷ []

abbrev pub access_node : Bytes → Option Node
access_node d = some node_c

abbrev made_or : Operation × Url → Result (Operation × Url) → Operation × Url
made_or d (ok m) = m
made_or d (err e) = d

abbrev result : Result (Operation × Url)
result =
    create world parsers settings plain_gcm plain_zlib 60 access_node (λ n. ok network) (λ seed. 5)
      (b'c' ∷ []) form

abbrev made : Operation × Url
made = made_or (operation, site) result

was_made : result ≡ ok (made.0, made.1)
unfolding create create_operation access_of set_access_node equal delete validate_url add_pairs
    create_pair is_operation_character get_home_node get_node_index_by_hash index_loop
    get_remote_addr_hash get_next_url as_url_parameter encode html_of is_reserved reduced set_count
    value_of values_of create_pair_with_no_value create_pair_with_value find_character
    get_conflict_policy scramble url_to clear_bit set_bit set_display_user_interface set_java_script
    set_post_message_on_complete set_use_home_node write be_put date_number gob_encode write_date
    write_time le_put write_byte write_byte_array write_byte_array_array write_string write_uint16
    join encrypt encrypt_with_nonce first_secret get_secret secret_encrypt supports_crypto
    address_run find_client_ip fnv64a get_hash get_remote_addr up_to_bracket as_byte_array
    new_operation write_pairs write_to_buffer
was_made = refl

create-IsStarted_example :
    IsStarted world parsers settings access_node (λ n. ok network) (b'c' ∷ []) form made.0
create-IsStarted_example =
    create-IsStarted world parsers settings plain_gcm plain_zlib 60 access_node (λ n. ok network)
      (λ seed. 5) (b'c' ∷ []) form made.0 made.1 was_made

-- The count of a network of 256 storage nodes is 0.
abbrev copies : ℕ → List Node
copies zero = []
copies (suc n) = node_a ∷ copies n

abbrev many : Nodes
many = record network { hash = copies 256 }

counted : set_count world parsers settings many form ≡ ok 0
unfolding set_count equal
counted = refl
