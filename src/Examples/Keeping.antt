-- ===== src/Examples/Keeping.antt =====
-- A store in a file, and a store in memory as a directory.
use swift_go.Prelude.{
  ℕ, ◌≡◌, ◌↔◌, ◌⊎◌, refl, false, Option, some, [], ◌∷◌, Result, ok, codes, ok_injective, sym, ◌∙◌,
  foldl, All,
}
use swift_go.Node.{get_scrambler_key}
use swift_go.Node.Json.{Fields, field, no_fields, object}
use swift_go.Manager.Sharing.{zero_node}
use swift_go.Nodes.{Nodes}
use swift_go.Stores.{Volatile, order_all, put, empty, new_volatile, set_node, add}
use swift_go.Stores.Refinement.{enter, nothing, Implements, made, taken, Reaches-Implements}
use swift_go.Local.{
  Local, Files, refresh, get_nodes, networks_of, marshal_map, map_of_text, nodes_of_text,
  present_nodes,
}
use swift_go.Local as InFile
use swift_go.Local.Kept.{Stable, pointers, refresh-set_node}
use swift_go.Local.Unknown.{Known, get_nodes_iff}
use swift_go.Register.Kept.{unmarshal_node-node_of}
use swift_go.Examples.{node_a, not_nil}
use swift_go.Examples.Trips.{
  clock_text, parses, plain_key, key_a, tools, form_of_ab, registered_ab, registered_json,
  registered_ab_made,
}

abbrev whole : Fields
whole = field (codes "ab") registered_json no_fields

-- files that hold one text, the JSON of one node
abbrev files : Files
files = record {
  print = λ j. 1 ∷ [];
  read = λ b. ok (object whole);
  print-ne-nil = λ j. not_nil [];
  form = clock_text;
  decode_key = plain_key;
  draw = λ s. 7;
  place = λ k. 9;
}

abbrev empty_file : Local
empty_file = record { file = some []; common = empty }

abbrev one_file : Local
one_file = record { file = some (1 ∷ []); common = empty }

one_file_made : InFile.set_node files empty_file registered_ab ≡ ok one_file
unfolding InFile.set_node map_of_text marshal_map put get_scrambler_key
one_file_made = refl

stable : All (Stable files) (put (codes "ab") registered_ab [])
unfolding put
stable = (
  λ j e.
      unmarshal_node-node_of tools clock_text parses (λ b. refl) 9 (ok key_a) (ok key_a) 3
        form_of_ab registered_ab (zero_node 9) j registered_ab_made refl refl e,
  tt,
)

written : marshal_map files (pointers (put (codes "ab") registered_ab [])) ≡ ok whole
unfolding marshal_map pointers put get_scrambler_key
written = refl

reads :
    (fs : Fields)
    → marshal_map files (pointers (put (codes "ab") registered_ab [])) ≡ ok fs
    → ok (object whole) ≡ ok (object fs)
reads fs e = let same : whole ≡ fs = ok_injective (sym written ∙ e) in rw same refl

nothing_read : map_of_text files [] ≡ ok (pointers [])
unfolding map_of_text pointers
nothing_read = refl

refresh-set_node_example :
    refresh files 50 one_file
    ≡ ok (record one_file {
      common = record {
        nodes = put (codes "ab") registered_ab [];
        networks = order_all 50 (networks_of (put (codes "ab") registered_ab []) []);
      };
    })
refresh-set_node_example =
    refresh-set_node files 50 empty_file one_file registered_ab [] [] refl nothing_read stable reads
      one_file_made

empty_read : refresh files 50 empty_file ≡ ok empty_file
unfolding refresh nodes_of_text present_nodes networks_of order_all
empty_read = refl

-- The store knows no network, so no call returns.
get_nodes_iff_example :
    ((f : ℕ) × (r : Result (Option Nodes × Local)) × (get_nodes files f 50 (codes "net") empty_file
        ≡ some r))
    ↔ (Known (codes "net") empty_file ⊎ Known (codes "net") empty_file)
get_nodes_iff_example = get_nodes_iff files 50 (codes "net") empty_file empty_file empty_read

abbrev started : Volatile
started = new_volatile 50 (codes "v") false (node_a ∷ [])

abbrev extended : Volatile
extended = record started { common = add started.common registered_ab }

started-extended : set_node started registered_ab ≡ ok extended
unfolding set_node new_volatile
started-extended = refl

Reaches-Implements_example :
    Implements extended.common (enter (foldl enter nothing (node_a ∷ [])) registered_ab)
Reaches-Implements_example = Reaches-Implements {now = 50} {name = codes "v"} {read_only = false} (
    taken started extended (foldl enter nothing (node_a ∷ [])) registered_ab (made (node_a ∷ []))
      started-extended)
