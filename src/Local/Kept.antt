-- ===== src/Local/Kept.antt =====
-- What the store in a file reads of what it has written.
use swift_go.Prelude.{
  ◌≡◌, ◌≢◌, refl, Option, some, [], ◌∷◌, ok, Bytes, bind-eq-ok, ok_injective, equal, Bool-cases,
  inl, inr, All, ap, sym, ◌∙◌,
}
use swift_go.Io.{Time}
use swift_go.Node.{Node}
use swift_go.Node.Json.{Json, null, Fields, object, marshal_node, marshal_secrets, unmarshal_node}
use swift_go.Manager.Sharing.{zero_node}
use swift_go.Stores.{Map, put, order_all}
use swift_go.Local.{
  Local, Files, present_nodes, networks_of, value_at, unmarshal_map, nodes_of_text, map_of_text,
  refresh, marshal_map, set_node, text_in,
}

-- a map without nil pointers
unfoldable pub pointers : Map Node → Map (Option Node)
pointers [] = []
pointers ((k, n) ∷ m) = (k, some n) ∷ pointers m

put-pointers :
    (k : Bytes) (n : Node) (m : Map Node) → put k (some n) (pointers m) ≡ pointers (put k n m)
unfolding put pointers
put-pointers k n [] = refl
put-pointers k n ((x, v) ∷ m) = elim (Bool-cases (equal k x)) [
  | inl same ↦ rw same refl
  | inr other ↦ rw other (ap (λ l. (x, some v) ∷ l) (put-pointers k n m))
]

present_nodes-pointers : (m : Map Node) → present_nodes (pointers m) ≡ ok m
unfolding present_nodes pointers
present_nodes-pointers [] = refl
present_nodes-pointers ((k, n) ∷ m) = rw (present_nodes-pointers m) refl

module _ (x : Files) where
  -- The node of a key comes back from its JSON.
  abbrev pub Stable : Bytes × Node → Type 0
  Stable (k, n) =
      (j : Json)
      → marshal_node x.form n ≡ ok j
      → unmarshal_node x.form x.decode_key x.draw (zero_node (x.place k)) j ≡ ok n

  marshal_node_object :
      (n : Node) (j : Json) → marshal_node x.form n ≡ ok j → (fs : Fields) × (j ≡ object fs)
  unfolding marshal_node
  marshal_node_object n j e =
      let (created, c, e1) = bind-eq-ok (x.form.print n.created) _ e in
      let (starts, s, e2) = bind-eq-ok (x.form.print n.starts) _ e1 in
      let (expires, p, e3) = bind-eq-ok (x.form.print n.expires) _ e2 in
      let (secrets, q, e4) = bind-eq-ok (marshal_secrets x.form n.secrets) _ e3 in
      (_, sym (ok_injective e4))

  value_at-marshal_node :
      (k : Bytes) (n : Node) (j : Json)
      → Stable (k, n)
      → marshal_node x.form n ≡ ok j
      → value_at x k j ≡ ok (some n)
  unfolding value_at
  value_at-marshal_node k n null stable e = let (fs, is) = marshal_node_object n null e in cc is
  value_at-marshal_node k n (object fs) stable e = rw (stable (object fs) e) refl
  value_at-marshal_node k n j stable e = rw (stable j e) refl

  unmarshal_map-marshal_map :
      (m : Map Node) (fs : Fields)
      → All Stable m
      → marshal_map x (pointers m) ≡ ok fs
      → unmarshal_map x fs ≡ ok (pointers m)
  unfolding unmarshal_map marshal_map pointers
  unmarshal_map-marshal_map [] fs stable e = rw⁻¹ (ok_injective e) refl
  unmarshal_map-marshal_map ((k, n) ∷ m) fs (first, stable) e =
      let (j, written, more) = bind-eq-ok (marshal_node x.form n) _ e in
      let (rest, others, is) = bind-eq-ok (marshal_map x (pointers m)) _ more in
      rw⁻¹ (ok_injective is) (
        rw
          (
            value_at-marshal_node k n j first written,
            unmarshal_map-marshal_map m rest stable others,
          )
          refl)

  nodes_of_text-print :
      (fs : Fields)
      → x.read (x.print (object fs)) ≡ ok (object fs)
      → nodes_of_text x (x.print (object fs)) ≡ unmarshal_map x fs
  unfolding nodes_of_text
  nodes_of_text-print fs reads = read_back (x.print (object fs)) reads (x.print-ne-nil (object fs))
    where
      read_back :
          (b : Bytes) → x.read b ≡ ok (object fs) → b ≢ [] → nodes_of_text x b ≡ unmarshal_map x fs
      read_back [] e full = absurd (full refl)
      read_back (c ∷ b) e full = rw e refl

  -- Where the file has nodes, without nil pointers, each of which, as well as the new one, comes
  -- back from its JSON, where encoding/json reads the text that it writes of them, and the new one
  -- was set: reading the file again finds its nodes with the new one under its domain, in memory
  -- and in the networks.
  pub refresh-set_node :
      (now : Time) (l after : Local) (n : Node) (b : Bytes) (m : Map Node)
      → l.file ≡ some b
      → map_of_text x b ≡ ok (pointers m)
      → All Stable (put n.domain n m)
      → ((fs : Fields)
          → marshal_map x (pointers (put n.domain n m)) ≡ ok fs
          → x.read (x.print (object fs)) ≡ ok (object fs))
      → set_node x l n ≡ ok after
      → refresh x now after
        ≡ ok (record after {
          common = record {
            nodes = put n.domain n m;
            networks = order_all now (networks_of (put n.domain n m) []);
          };
        })
  unfolding refresh set_node
  refresh-set_node now l after n b m there had stable reads e =
      let (c, file, e1) = bind-eq-ok (text_in x l.file) _ e in
      let same : c ≡ b = ok_injective (sym file ∙ ap (text_in x) there) in
      let (nis, parsed, e2) = bind-eq-ok (map_of_text x c) _ e1 in
      let found : nis ≡ pointers m = ok_injective (sym parsed ∙ (ap (map_of_text x) same ∙ had)) in
      let (fs, written, is) = bind-eq-ok (marshal_map x (put n.domain (some n) nis)) _ e2 in
      let whole = ap (λ p. put n.domain (some n) p) found ∙ put-pointers n.domain n m in
      let all : marshal_map x (pointers (put n.domain n m)) ≡ ok fs = rw⁻¹ whole written in
      rw⁻¹ (ok_injective is) (
        rw
          (
            nodes_of_text-print fs (reads fs all),
            unmarshal_map-marshal_map (put n.domain n m) fs stable all,
            present_nodes-pointers (put n.domain n m),
          )
          refl)
