-- ===== src/Database/Rows.antt =====
-- The map that `fetchNodes` makes of the rows of the nodes.
use swift_go.Prelude.{
  ℕ, ◌/◌, ◌*◌, ◌^◌, ◌<◌, ◌≡◌, refl, some, List, [], ◌∷◌, Result, ok, bind-eq-ok, ok_injective,
  if◌then◌else◌, Bytes, equal, Bool-cases, inl, inr, All, ap, ◌∙◌, sym,
}
use swift_go.Io.{second}
use swift_go.Node.{Node, get_scrambler_key}
use swift_go.Node.Making.{new_node}
use swift_go.Node.Made.{new_node_expires}
use swift_go.Stores.{Map, find, put}
use swift_go.Stores.Lookup.{find-put}
use swift_go.Database.{NodeItem, node_item, node_of_item, nodes_of_items}
use swift_go.Database.Seconds.{from_unix-unix}

-- the rows of a domain
unfoldable pub items_of : Bytes → List NodeItem → List NodeItem
items_of d [] = []
items_of d (i ∷ is) = let rest = items_of d is in if equal d i.domain then i ∷ rest else rest

-- What a node comes back as, without its secrets.
abbrev pub without_fraction : Node → Node
without_fraction n = record n { expires = n.expires / second * second; secrets = [] }

module _ (decode_key : Bytes → Result Bytes) (draw : ℕ → ℕ) (place : Bytes → ℕ) where
  -- A node can be made of the row.
  abbrev pub IsRow : NodeItem → Type 0
  IsRow i = (n : Node) × (node_of_item decode_key draw place i ≡ ok n)

  pub nodes_of_items_total :
      (is : List NodeItem) (ns : Map Node)
      → All IsRow is
      → (ms : Map Node) × (nodes_of_items decode_key draw place is ns ≡ ok ms)
  unfolding nodes_of_items
  nodes_of_items_total [] ns good = (ns, refl)
  nodes_of_items_total (i ∷ is) ns ((n, made), good) =
      let (ms, done) = nodes_of_items_total is (put i.domain n ns) good in (ms, rw made done)

  find-nodes_of_items_other :
      (d : Bytes) (is : List NodeItem) (ns ms : Map Node)
      → items_of d is ≡ []
      → nodes_of_items decode_key draw place is ns ≡ ok ms
      → find d ms ≡ find d ns
  unfolding nodes_of_items items_of
  find-nodes_of_items_other d [] ns ms empty e = rw (ok_injective e) refl
  find-nodes_of_items_other d (i ∷ is) ns ms empty e =
      let (n, made, rest) = bind-eq-ok (node_of_item decode_key draw place i) _ e in
      elim (Bool-cases (equal d i.domain)) [
        | inl same ↦ let wrong = rw same at empty in cc wrong
        | inr other ↦
            find-nodes_of_items_other d is (put i.domain n ns) ms (rw other at empty) rest
            ∙ (find-put d i.domain n ns ∙ rw other refl)
      ]

  -- The only row of a domain gives its node.
  pub find-nodes_of_items :
      (d : Bytes) (is : List NodeItem) (ns ms : Map Node) (i : NodeItem) (n : Node)
      → items_of d is ≡ i ∷ []
      → node_of_item decode_key draw place i ≡ ok n
      → nodes_of_items decode_key draw place is ns ≡ ok ms
      → find d ms ≡ some n
  unfolding nodes_of_items items_of
  find-nodes_of_items d [] ns ms i n only made e = cc
  find-nodes_of_items d (j ∷ is) ns ms i n only made e =
      let (m, first, rest) = bind-eq-ok (node_of_item decode_key draw place j) _ e in
      elim (Bool-cases (equal d j.domain)) [
        | inl same ↦
            let here : j ∷ items_of d is ≡ i ∷ [] = rw same at only in
            let (is_i, gone) : (j ≡ i) × (items_of d is ≡ []) = (cc here, cc here) in
            let is_n : m ≡ n =
              ok_injective (sym first ∙ (ap (node_of_item decode_key draw place) is_i ∙ made)) in
            find-nodes_of_items_other d is (put j.domain m ns) ms gone rest
            ∙ (find-put d j.domain m ns ∙ rw (same, is_n) refl)
        | inr other ↦
            find-nodes_of_items d is (put j.domain m ns) ms i n (rw other at only) made rest
      ]

  -- The node is as `newNode` makes it, but for its secrets; it is at the place of its domain; and its
  -- expiry is a time that Go can hold.
  pub record IsMade (n : Node) : Type 0 where
    pub is_new :
        new_node decode_key draw n.address n.network n.domain n.created n.starts n.expires n.role
          (get_scrambler_key n)
          n.cookie_domain
        ≡ ok (record n { secrets = [] })
    pub in_place : place n.domain ≡ n.address
    pub fits : n.expires / second < 2 ^ 64

  -- The row of a node gives it again, with the expiry cut to seconds.
  pub node_of_item-node_item :
      (n : Node)
      → IsMade n
      → node_of_item decode_key draw place (node_item n) ≡ ok (without_fraction n)
  unfolding node_of_item node_item
  node_of_item-node_item n made =
      rw (made.in_place, from_unix-unix n.expires made.fits)
        (new_node_expires decode_key draw n.address n.network n.domain n.created n.starts n.expires
          n.role (get_scrambler_key n) n.cookie_domain (record n { secrets = [] })
          (n.expires / second * second) made.is_new)
