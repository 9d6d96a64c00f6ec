-- ===== src/Local/Unknown.antt =====
-- When `getNodes` of the store in a file returns.
use swift_go.Prelude.{
  ℕ, zero, suc, ◌≡◌, ◌↔◌, ◌⊎◌, refl, Option, none, some, Result, ok, Bytes, bind, bind-eq-ok,
  ok_injective, Option-cases, inl, inr, sym, ◌∙◌,
}
use swift_go.Io.{Time}
use swift_go.Nodes.{Nodes}
use swift_go.Stores.{find}
use swift_go.Local.{Local, Files, refresh, get_nodes, nodes_of_text, present_nodes, text_of}

-- The store in memory has nodes of the network.
abbrev pub Known : Bytes → Local → Type 0
Known network l = (ns : Nodes) × (find network l.common.networks ≡ some ns)

module _ (x : Files) (now : Time) where
  -- Reading the file again finds the same.
  refresh-refresh : (l l1 : Local) → refresh x now l ≡ ok l1 → refresh x now l1 ≡ ok l1
  unfolding refresh
  refresh-refresh l l1 e =
      let (ns, got, is) =
        bind-eq-ok (bind (nodes_of_text x (text_of x l.file)) present_nodes) _ e in
      rw⁻¹ (ok_injective is) (rw got refl)

  get_nodes_miss :
      (f : ℕ) (network : Bytes) (l l1 : Local)
      → find network l.common.networks ≡ none
      → refresh x now l ≡ ok l1
      → get_nodes x (suc f) now network l ≡ get_nodes x f now network l1
  unfolding get_nodes
  get_nodes_miss f network l l1 missing read = rw (missing, get_nodes, read) refl

  get_nodes_hit :
      (f : ℕ) (network : Bytes) (l : Local) (ns : Nodes)
      → find network l.common.networks ≡ some ns
      → get_nodes x (suc f) now network l ≡ some (ok (some ns, l))
  unfolding get_nodes
  get_nodes_hit f network l ns found = rw (found, get_nodes) refl

  get_nodes_endless :
      (f : ℕ) (network : Bytes) (l : Local)
      → refresh x now l ≡ ok l
      → find network l.common.networks ≡ none
      → get_nodes x f now network l ≡ none
  get_nodes_endless zero network l read missing = unfold get_nodes in refl
  get_nodes_endless (suc f) network l read missing =
      get_nodes_miss f network l l missing read ∙ get_nodes_endless f network l read missing

  get_nodes_unknown :
      (f : ℕ) (network : Bytes) (l l1 : Local)
      → find network l.common.networks ≡ none
      → refresh x now l ≡ ok l1
      → find network l1.common.networks ≡ none
      → get_nodes x f now network l ≡ none
  get_nodes_unknown zero network l l1 missing read gone = unfold get_nodes in refl
  get_nodes_unknown (suc f) network l l1 missing read gone =
      get_nodes_miss f network l l1 missing read
      ∙ get_nodes_endless f network l1 (refresh-refresh l l1 read) gone

  -- Where the file can be read, `getNodes` returns, however deep its calls may go, exactly for a
  -- network that the store knows in memory or after it has read the file: for any other network it
  -- calls itself without end.
  pub get_nodes_iff :
      (network : Bytes) (l l1 : Local)
      → refresh x now l ≡ ok l1
      → ((f : ℕ) × (r : Result (Option Nodes × Local)) × (get_nodes x f now network l ≡ some r))
        ↔ (Known network l ⊎ Known network l1)
  get_nodes_iff network l l1 read = (returned, found)
    where
      returned :
          (f : ℕ) × (r : Result (Option Nodes × Local)) × (get_nodes x f now network l ≡ some r)
          → Known network l ⊎ Known network l1
      returned (f, r, h) = elim (Option-cases (find network l.common.networks)) [
        | inr known ↦ inl known
        | inl missing ↦ elim (Option-cases (find network l1.common.networks)) [
          | inr known ↦ inr known
          | inl gone ↦
              let endless = sym (get_nodes_unknown f network l l1 missing read gone) ∙ h in
              cc endless
        ]
      ]

      found :
          Known network l ⊎ Known network l1
          → (f : ℕ) × (r : Result (Option Nodes × Local)) × (get_nodes x f now network l ≡ some r)
      found (inl (ns, known)) = (1, ok (some ns, l), get_nodes_hit 0 network l ns known)
      found (inr (ns, known)) = elim (Option-cases (find network l.common.networks)) [
        | inr (ms, here) ↦ (1, ok (some ms, l), get_nodes_hit 0 network l ms here)
        | inl missing ↦ (
          2,
          ok (some ns, l1),
          get_nodes_miss 1 network l l1 missing read ∙ get_nodes_hit 0 network l1 ns known,
        )
      ]
