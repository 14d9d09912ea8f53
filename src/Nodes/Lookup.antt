-- ===== src/Nodes/Lookup.antt =====
-- `checkIfNodeExists` and the table of indices, on a registry that holds given ids.
use scdtr_project.Prelude.{
  ℕ, zero, suc, ◌+◌, ◌<◌, ◌≡◌, sym, ap, subst, ◌∙◌, ◌↔◌, inl, inr, true, List, [], ◌∷◌, arith, ◌==◌,
  Bool-cases, length, get_or, take, get_or-append,
}
use scdtr_project.Nodes.{Nodes, scan, check_if_node_exists, index_of}
use scdtr_project.Nodes.Index.{Indexed}
use scdtr_project.Nodes.Roster.{IsRoster, take-append_length}

scan_found :
    (d : ℕ) (xs : List ℕ) → scan d xs ≡ true → (i : ℕ) × (i < length xs) × (get_or xs i 0 ≡ d)
unfolding scan
scan_found d [] h = cc
scan_found d (x ∷ xs) h = elim (Bool-cases (d == x)) [
  | inl same ↦ (0, omega arith, ground arith)
  | inr other ↦ let (i, lt, e) = scan_found d xs (ground arith) in (suc i, omega arith, e)
]

scan_complete : (xs : List ℕ) (i : ℕ) → i < length xs → scan (get_or xs i 0) xs ≡ true
unfolding scan
scan_complete [] i h = absurd (omega arith)
scan_complete (x ∷ xs) zero h = ground arith
scan_complete (x ∷ xs) (suc i) h = ground (arith, scan_complete xs i)

Indexed-get_or :
    (k : ℕ) (xs table : List ℕ) (i : ℕ)
    → Indexed k xs table
    → i < length xs
    → get_or table (get_or xs i 0) 0 ≡ k + i
Indexed-get_or k [] table i h lt = absurd (omega arith)
Indexed-get_or k (x ∷ xs) table zero h lt = omega arith
Indexed-get_or k (x ∷ xs) table (suc i) h lt = omega (arith, Indexed-get_or (k + 1) xs table i h.1)

-- On a roster `checkIfNodeExists` answers whether the destination stands among the registered ids.
pub check_if_node_exists_iff :
    (d : ℕ) {xs : List ℕ} {s : Nodes}
    → IsRoster xs s
    → (check_if_node_exists s d ≡ true) ↔ ((i : ℕ) × (i < length xs) × (get_or xs i 0 ≡ d))
unfolding check_if_node_exists
check_if_node_exists_iff d {xs} {s} r =
    let ids : take s.num_total_nodes s.nodes_list ≡ xs =
      ap (take s.num_total_nodes) r.listed ∙ take-append_length xs _ _ r.counted in
    (
      λ h. scan_found d xs (ap (scan d) (sym ids) ∙ h),
      λ (i, lt, e). ap (scan d) ids ∙ subst (λ k. scan k xs ≡ true) e (scan_complete xs i lt),
    )

-- On a roster the gain matrix has a row of its own for each node: the node at position `i` has index `i`.
pub index_of-get_or :
    (i : ℕ) {xs : List ℕ} {s : Nodes}
    → IsRoster xs s
    → i < s.num_total_nodes
    → index_of s (get_or s.nodes_list i 0) ≡ i
index_of-get_or i {xs} {s} r lt =
    ap (λ l. index_of s (get_or l i 0)) r.listed
    ∙ ap (index_of s) (get_or-append i xs _ 0 (omega (arith, r.counted)))
    ∙ Indexed-get_or 0 xs s.node_index_on_gain_matrix i r.indexed (omega (arith, r.counted))
    ∙ omega arith
