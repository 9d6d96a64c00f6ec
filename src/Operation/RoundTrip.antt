-- ===== src/Operation/RoundTrip.antt =====
-- An operation that is sent to the next node arrives there.
use swift_go.Prelude.{
  ℕ, ◌%◌, ◌<◌, ◌≡◌, ◌∙◌, arith, some, ok, err, remaining, List, [], ◌∷◌, ◌++◌, map, append-nil,
  append_assoc, Bytes, length, All,
}
use swift_go.Io.{pure, ◌>>=◌}
use swift_go.Io.Encoding.{string_bytes, time_bytes, writers}
use swift_go.Io.RoundTrip.{
  Reads, Reads-pure, Reads-bind, Reads-map, read_string-Reads, read_byte-Reads, read_time-Reads,
  NoNull, IsTime,
}
use swift_go.Io.Separated.{join, or_one_empty, split-join}
use swift_go.Html.RoundTrip as HtmlRoundTrip
use swift_go.Html.RoundTrip.{html_bytes, write-append, set-Reads}
use swift_go.Pair.{OperationPair, empty_value, set_from_buffer, write_to_buffer}
use swift_go.Pair.RoundTrip as PairRoundTrip
use swift_go.Pair.RoundTrip.{pair_bytes, write_to_buffer-append, set_from_buffer-Reads, read_back}
use swift_go.Results.{result_separator}
use swift_go.Results.RoundTrip.{StateIsWritable, NoNull-state}
use swift_go.Operation.{
  Operation, write_pairs, as_byte_array, read_pairs, read_operation, all_read, set_from_byte_array,
}

abbrev pairs_bytes : List OperationPair → Bytes
pairs_bytes [] = []
pairs_bytes (p ∷ ps) = pair_bytes p ++ pairs_bytes ps

write_pairs-append : (b : Bytes) (ps : List OperationPair) → write_pairs b ps ≡ b ++ pairs_bytes ps
unfolding write_pairs
write_pairs-append b [] = rw append-nil
write_pairs-append b (p ∷ ps) =
    write_pairs-append (write_to_buffer p b) ps
    ∙ rw (write_to_buffer-append p b) (append_assoc b (pair_bytes p) (pairs_bytes ps))

operation_bytes : Operation → Bytes
operation_bytes o =
    time_bytes o.time_stamp
    ++ (string_bytes o.return_url
        ++ (string_bytes o.access_node
            ++ (html_bytes o.html
                ++ (o.nodes_visited
                    ∷ (o.node_count
                        ∷ (string_bytes o.prev_node
                            ++ (string_bytes o.home_node
                                ++ (string_bytes (join result_separator o.state)
                                    ++ ((length o.resolved % 256) ∷ pairs_bytes o.resolved)))))))))

as_byte_array-bytes : (o : Operation) → as_byte_array o ≡ operation_bytes o
unfolding as_byte_array operation_bytes
as_byte_array-bytes o = simp (write_pairs-append, write-append, writers)

-- A pair comes back as a new one, with no cookie write time.
abbrev pub received : OperationPair → OperationPair
received p = read_back p empty_value

read_pairs-Reads :
    (ps : List OperationPair)
    → All PairRoundTrip.IsWritable ps
    → Reads (read_pairs (length ps)) (pairs_bytes ps) (map received ps)
unfolding read_pairs
read_pairs-Reads [] h = Reads-pure []
read_pairs-Reads (p ∷ ps) (hp, h) =
    Reads-bind (set_from_buffer empty_value) (λ q. read_pairs (length ps) >>= λ qs. pure (q ∷ qs))
      (pair_bytes p) (pairs_bytes ps) (received p) (set_from_buffer-Reads p empty_value hp)
      (Reads-map (read_pairs (length ps)) (◌∷◌ (received p)) (pairs_bytes ps) (map received ps)
        (read_pairs-Reads ps h))

-- The format can hold the operation.
pub record IsWritable (o : Operation) : Type 0 where
  pub time_stamp : IsTime o.time_stamp
  pub return_url : NoNull o.return_url
  pub access_node : NoNull o.access_node
  pub html : HtmlRoundTrip.IsWritable o.html
  pub prev_node : NoNull o.prev_node
  pub home_node : NoNull o.home_node
  pub state : StateIsWritable o.state
  pub count : length o.resolved < 256
  pub resolved : All PairRoundTrip.IsWritable o.resolved

-- What the operation `q` becomes when it is set from the encoding of `o`: the persisted fields of
-- `o`, whose resolved pairs are now the pairs of the operation.
abbrev pub arrived : Operation → Operation → Operation
arrived q o = record q {
  time_stamp = o.time_stamp;
  return_url = o.return_url;
  access_node = o.access_node;
  html = o.html;
  nodes_visited = o.nodes_visited;
  node_count = o.node_count;
  prev_node = o.prev_node;
  home_node = o.home_node;
  state = or_one_empty o.state;
  pairs = q.pairs ++ map received o.resolved;
}

read_operation-Reads :
    (q o : Operation) → IsWritable o → Reads (read_operation q) (operation_bytes o) (arrived q o)
unfolding read_operation operation_bytes
read_operation-Reads q o w rest =
    let count : length o.resolved % 256 ≡ length o.resolved = omega (arith, w.count) in
    simp (
      append_assoc,
      read_time-Reads o.time_stamp w.time_stamp,
      read_string-Reads o.return_url w.return_url,
      read_string-Reads o.access_node w.access_node,
      set-Reads o.html w.html,
      read_byte-Reads o.nodes_visited,
      read_byte-Reads o.node_count,
      read_string-Reads o.prev_node w.prev_node,
      read_string-Reads o.home_node w.home_node,
      read_string-Reads (join result_separator o.state) (NoNull-state o.state w.state),
      count,
      read_byte-Reads (length o.resolved),
      read_pairs-Reads o.resolved w.resolved,
      split-join result_separator o.state w.state.separators,
    )

-- An operation that the format can hold is set from its encoding: the persisted fields arrive, and
-- the resolved pairs arrive as the pairs.
pub set_from_byte_array-as_byte_array :
    (q o : Operation)
    → IsWritable o
    → set_from_byte_array q (some (as_byte_array o)) ≡ ok (arrived q o)
unfolding set_from_byte_array all_read
set_from_byte_array-as_byte_array q o w =
    rw (as_byte_array-bytes o, ← append-nil (operation_bytes o), read_operation-Reads q o w [])

-- With bytes behind the encoding it is refused, and the error counts them.
pub set_from_byte_array_remaining :
    (q o : Operation) (b : ℕ) (rest : Bytes)
    → IsWritable o
    → set_from_byte_array q (some (as_byte_array o ++ b ∷ rest))
      ≡ err (remaining (length (b ∷ rest)))
unfolding set_from_byte_array all_read
set_from_byte_array_remaining q o b rest w =
    rw (as_byte_array-bytes o, read_operation-Reads q o w (b ∷ rest))
