-- ===== src/Database/Documents/Rules.antt =====
-- What Firestore documents of its collections, and the loops of gcp.go over documents that can be read.
use mathlib.Core.List.Permᴰ.{Permᴰ}
use mathlib.Core.List.Permᴰ
use swift_go.Prelude.{
  ℕ, ◌/◌, ◌*◌, ◌≡◌, refl, List, [], ◌∷◌, ◌++◌, map, Result, ok, bind, bind-eq-ok, if◌then◌else◌,
  Bytes, equal, Bool-cases, inl, inr, All, ap, ◌∙◌, ok_injective,
}
use swift_go.Io.{Time}
use swift_go.Node.{Node}
use swift_go.Node.Making.{new_secret_from_key}
use swift_go.Stores.{Map, put}
use swift_go.Database.{
  NodeItem, SecretItem, rows_of_items, node_of_item, nodes_of_items, give, give_each,
}
use swift_go.Database.Rows.{items_of}
use swift_go.Database.Documents.{FirestoreOps, give_documents, nodes_of_documents, add_documents}

-- the documents of the other domains
unfoldable pub other_documents : Bytes → List NodeItem → List NodeItem
other_documents k [] = []
other_documents k (i ∷ is) =
    let rest = other_documents k is in if equal k i.domain then rest else i ∷ rest

abbrev pub read {ℓ} : {A : Type ℓ} → List A → List (Result A)
read xs = map ok xs

-- A timestamp of Firestore keeps microseconds, and cuts what is below.
abbrev pub cut : Time → Time
cut t = t / 1000 * 1000

abbrev pub cut_node : NodeItem → NodeItem
cut_node i = record i { created = cut i.created; starts = cut i.starts }

abbrev pub cut_secret : SecretItem → SecretItem
cut_secret i = record i { time_stamp = cut i.time_stamp }

-- What Firestore documents of its collections, where every node's document is named for its domain, as
-- the code names them: `Set` writes the one document of the name, `Add` always makes another, and
-- the times of both are cut to microseconds.
pub record Documented {D : Type 0} (ops : FirestoreOps D) : Type 0 where
  pub set_document-node_documents :
      (d e : D) (k : Bytes) (i : NodeItem) (is : List NodeItem)
      → ops.set_document d k i ≡ ok e
      → ops.node_documents d ≡ read is
      → (js : List NodeItem) × (ops.node_documents e ≡ read js)
        × Permᴰ js (cut_node i ∷ other_documents k is)
  pub set_document-secret_documents :
      (d e : D) (k : Bytes) (i : NodeItem)
      → ops.set_document d k i ≡ ok e
      → ops.secret_documents e ≡ ops.secret_documents d
  pub add_document-secret_documents :
      (d e : D) (i : SecretItem) (is : List SecretItem)
      → ops.add_document d i ≡ ok e
      → ops.secret_documents d ≡ read is
      → (js : List SecretItem) × (ops.secret_documents e ≡ read js) × Permᴰ js (cut_secret i ∷ is)
  pub add_document-node_documents :
      (d e : D) (i : SecretItem)
      → ops.add_document d i ≡ ok e
      → ops.node_documents e ≡ ops.node_documents d

pub items_of-other_documents :
    (k : Bytes) (is : List NodeItem) → items_of k (other_documents k is) ≡ []
unfolding items_of other_documents
items_of-other_documents k [] = refl
items_of-other_documents k (i ∷ is) =
    let rest = items_of-other_documents k is in
    elim (Bool-cases (equal k i.domain)) [
      | inl same ↦ rw same rest
      | inr other ↦ rw (other, other) rest
    ]

pub All-other_documents {κ} :
    (P : NodeItem → Type κ) (k : Bytes) (is : List NodeItem)
    → All P is
    → All P (other_documents k is)
unfolding other_documents
All-other_documents P k [] h = h
All-other_documents P k (i ∷ is) (h, hs) =
    let rest = All-other_documents P k is hs in
    elim (Bool-cases (equal k i.domain)) [
      | inl same ↦ rw same rest
      | inr other ↦ rw other (h, rest)
    ]

module _ (decode_key : Bytes → Result Bytes) (draw : ℕ → ℕ) (place : Bytes → ℕ) where
  -- Where every document is read, the loops are those over items.
  pub nodes_of_documents-ok :
      (is : List NodeItem) (ns : Map Node)
      → nodes_of_documents decode_key draw place (read is) ns
        ≡ nodes_of_items decode_key draw place is ns
  unfolding nodes_of_documents nodes_of_items
  nodes_of_documents-ok [] ns = refl
  nodes_of_documents-ok (i ∷ is) ns =
      ap (bind (node_of_item decode_key draw place i))
        (λ t n. nodes_of_documents-ok is (put i.domain n ns) t)

  pub give_documents-ok :
      (is : List SecretItem) (ns : Map Node)
      → give_documents decode_key (read is) ns ≡ give_each decode_key (rows_of_items is) ns
  unfolding give_documents give_each rows_of_items
  give_documents-ok [] ns = refl
  give_documents-ok (i ∷ is) ns =
      ap (bind (new_secret_from_key decode_key i.scrambler_key i.time_stamp))
        (λ t s. give_documents-ok is (give i.domain s ns) t)

module _ {D : Type 0} (ops : FirestoreOps D) where
  pub add_documents-node_documents :
      (is : List SecretItem) (d e : D)
      → Documented ops
      → add_documents ops is d ≡ ok e
      → ops.node_documents e ≡ ops.node_documents d
  unfolding add_documents
  add_documents-node_documents [] d e laws done = rw (ok_injective done) refl
  add_documents-node_documents (i ∷ is) d e laws done =
      let (b, added, rest) = bind-eq-ok (ops.add_document d i) _ done in
      add_documents-node_documents is b e laws rest ∙ laws.add_document-node_documents d b i added

  pub add_documents-secret_documents :
      (is ss : List SecretItem) (d e : D)
      → Documented ops
      → ops.secret_documents d ≡ read ss
      → add_documents ops is d ≡ ok e
      → (ts : List SecretItem) × (ops.secret_documents e ≡ read ts)
        × Permᴰ ts (map cut_secret is ++ ss)
  unfolding add_documents
  add_documents-secret_documents [] ss d e laws had done =
      (ss, rw⁻¹ (ok_injective done) had, Permᴰ.refl ss)
  add_documents-secret_documents (i ∷ is) ss d e laws had done =
      let (b, added, rest) = bind-eq-ok (ops.add_document d i) _ done in
      let (js, now_has, p) = laws.add_document-secret_documents d b i ss added had in
      let (ts, has, q) = add_documents-secret_documents is js b e laws now_has rest in
      (
        ts,
        has,
        Permᴰ.trans q (
            Permᴰ.trans (Permᴰ.append_left (map cut_secret is) p)
              (Permᴰ.middle (cut_secret i) (map cut_secret is) ss)),
      )
