-- ===== src/Nodes/Roster.antt =====
-- The registry as a set of ids: what `registerNewNode` and `resetGlob` do to it.
use scdtr_project.Prelude.{
  ℕ, zero, suc, ◌+◌, ◌-◌, ◌≤◌, ◌<◌, ◌≡◌, refl, sym, ap, ap₂, ◌∙◌, ◌≢◌, List, [], ◌∷◌, ◌++◌, arith,
  ◌==◌, if◌then◌else◌, length, set, take, replicate, All, length-set,
}
use scdtr_project.Nodes.{
  Nodes, max_num_nodes, max_node_id, clear_entries, clear_indices, register_new_node, reset_glob,
}
use scdtr_project.Nodes.{insert_from}
use scdtr_project.Nodes.Insert.{insert_sorted, AllPos, insert_from_lem}
use scdtr_project.Nodes.Index.{Ascends, Indexed, index_from-Indexed, length-index_from}

-- The registry holds the ids `xs`: they stand in ascending order in front of the free entries, are
-- counted, and the table gives each its position.
pub record IsRoster (xs : List ℕ) (s : Nodes) : Type 0 where
  pub fits : length xs ≤ max_num_nodes
  pub listed : s.nodes_list ≡ xs ++ replicate (max_num_nodes - length xs) 0
  pub counted : s.num_total_nodes ≡ length xs
  pub ascends : Ascends 0 xs
  pub in_table : All (λ x. x ≤ max_node_id) xs
  pub table_size : length s.node_index_on_gain_matrix ≡ max_node_id + 1
  pub indexed : Indexed 0 xs s.node_index_on_gain_matrix

Ascends-AllPos : (lo : ℕ) (xs : List ℕ) → Ascends lo xs → AllPos xs
Ascends-AllPos lo [] a = tt
Ascends-AllPos lo (x ∷ xs) a = (omega arith, Ascends-AllPos x xs a.1)

pub length-insert_sorted : (id : ℕ) (xs : List ℕ) → length (insert_sorted id xs) ≡ suc (length xs)
unfolding insert_sorted
length-insert_sorted id [] = refl
length-insert_sorted id (x ∷ xs) = ground (arith, length-insert_sorted id xs)

All-insert_sorted {κ} :
    (P : ℕ → Type κ) (id : ℕ) (xs : List ℕ) → P id → All P xs → All P (insert_sorted id xs)
unfolding insert_sorted
All-insert_sorted P id [] p ps = (p, tt)
All-insert_sorted P id (x ∷ xs) p ps = ground (arith, All-insert_sorted P id xs p ps.1)

insert_sorted-Ascends :
    (lo id : ℕ) (xs : List ℕ)
    → lo < id
    → All (λ x. x ≢ id) xs
    → Ascends lo xs
    → Ascends lo (insert_sorted id xs)
unfolding insert_sorted
insert_sorted-Ascends lo id [] h d a = (h, tt)
insert_sorted-Ascends lo id (x ∷ xs) h d a = ground (arith, insert_sorted-Ascends x id xs)

pub take-append_length : (xs ys : List ℕ) (n : ℕ) → n ≡ length xs → take n (xs ++ ys) ≡ xs
take-append_length [] ys zero e = refl
take-append_length [] ys (suc n) e = absurd (omega arith)
take-append_length (x ∷ xs) ys zero e = absurd (omega arith)
take-append_length (x ∷ xs) ys (suc n) e =
    ap (λ l. x ∷ l) (take-append_length xs ys n (omega arith))

abbrev count : ℕ → List ℕ → ℕ
count a [] = 0
count a (x ∷ xs) = (if x == a then 1 else 0) + count a xs

count-insert_sorted : (id : ℕ) (xs : List ℕ) → count id (insert_sorted id xs) ≡ count id xs + 1
unfolding insert_sorted
count-insert_sorted id [] = ground arith
count-insert_sorted id (x ∷ xs) = ground (arith, count-insert_sorted id xs)

All-map {κ μ} :
    {P : ℕ → Type κ} {Q : ℕ → Type μ} (f : (x : ℕ) → P x → Q x) (xs : List ℕ) → All P xs → All Q xs
All-map f [] h = tt
All-map f (x ∷ xs) h = (f x h.0, All-map f xs h.1)

-- The list and the count after a registration, whether or not the id was listed before.
pub register_new_node-listed :
    (id : ℕ) {xs : List ℕ} {s : Nodes}
    → IsRoster xs s
    → length xs < max_num_nodes
    → let s' = (register_new_node id s).0 in
      (s'.nodes_list ≡ insert_sorted id xs ++ replicate (max_num_nodes - suc (length xs)) 0)
      × (s'.num_total_nodes ≡ suc (length xs))
unfolding register_new_node
register_new_node-listed id {xs} {s} r room = (
  ap₂ (λ n l. insert_from n 0 id l) {y = suc (length xs)} (omega (arith, r.counted))
        (r.listed
          ∙ ap (λ k. xs ++ replicate k 0) {y = suc (max_num_nodes - suc (length xs))} (omega arith))
      ∙ insert_from_lem id xs (max_num_nodes - suc (length xs)) (Ascends-AllPos 0 xs r.ascends),
  omega (arith, r.counted),
)

-- The ids whose indices the registration writes.
registered_ids :
    (id : ℕ) {xs : List ℕ} {s : Nodes}
    → IsRoster xs s
    → length xs < max_num_nodes
    → let s' = (register_new_node id s).0 in
      take s'.num_total_nodes s'.nodes_list ≡ insert_sorted id xs
registered_ids id {xs} r room =
    let (listed, counted) = register_new_node-listed id r room in
    ap₂ take counted listed
    ∙ take-append_length (insert_sorted id xs) _ _ (sym (length-insert_sorted id xs))

-- While there is room, registering a new id from 1 to the largest one puts it into the roster, in
-- order, and the index of every node follows.
pub register_new_node-IsRoster :
    (id : ℕ) {xs : List ℕ} {s : Nodes}
    → IsRoster xs s
    → length xs < max_num_nodes
    → 0 < id
    → id ≤ max_node_id
    → All (λ x. x ≢ id) xs
    → IsRoster (insert_sorted id xs) (register_new_node id s).0
unfolding register_new_node
register_new_node-IsRoster id {xs} {s} r room pos small fresh =
    let (listed, counted) = register_new_node-listed id r room in
    let ids = insert_sorted id xs in
    let table = s.node_index_on_gain_matrix in
    let size = length-insert_sorted id xs in
    let known : All (λ x. x ≤ max_node_id) ids =
      All-insert_sorted (λ x. x ≤ max_node_id) id xs small r.in_table in
    let asc = insert_sorted-Ascends 0 id xs pos fresh r.ascends in
    record {
      fits = omega (arith, size);
      listed = rw size listed;
      counted = counted ∙ sym size;
      ascends = asc;
      in_table = known;
      table_size =
          length-index_from 0
            (take (register_new_node id s).0.num_total_nodes (register_new_node id s).0.nodes_list)
            table
          ∙ r.table_size;
      indexed = rw (registered_ids id r room) (
          index_from-Indexed 0 0 ids table asc
            (All-map (λ x h. omega (arith, r.table_size)) ids known));
    }

clear_entries_lem :
    (xs : List ℕ) (free : ℕ)
    → clear_entries (length xs) (xs ++ replicate free 0) ≡ replicate (length xs + free) 0
unfolding clear_entries
clear_entries_lem [] free = ap (λ n. replicate n 0) (omega arith)
clear_entries_lem (x ∷ xs) free =
    ap (λ l. 0 ∷ l) (clear_entries_lem xs free)
    ∙ ap (λ n. replicate n 0) {x = suc (length xs + free)} {y = suc (length xs) + free}
        (omega arith)

length-clear_indices : (ids table : List ℕ) → length (clear_indices ids table) ≡ length table
unfolding clear_indices
length-clear_indices [] table = refl
length-clear_indices (x ∷ xs) table = length-clear_indices xs (set table x 0) ∙ length-set table x 0

-- On a roster `resetGlob` forgets every node but this one, if its id is from 1 to the largest one.
pub reset_glob-IsRoster :
    {xs : List ℕ} {s : Nodes}
    → IsRoster xs s
    → 0 < s.node_id
    → s.node_id ≤ max_node_id
    → IsRoster (s.node_id ∷ []) (reset_glob s).0
unfolding reset_glob insert_sorted
reset_glob-IsRoster {xs} {s} r pos small =
    register_new_node-IsRoster s.node_id cleared (omega arith) pos small tt
  where
    cleared : IsRoster [] (record s {
      node_index_on_gain_matrix =
          clear_indices (take s.num_total_nodes s.nodes_list) s.node_index_on_gain_matrix;
      nodes_list = clear_entries s.num_total_nodes s.nodes_list;
      num_total_nodes = 0;
    })
    cleared = record {
      fits = omega arith;
      listed =
          ap₂ clear_entries r.counted r.listed
          ∙ clear_entries_lem xs (max_num_nodes - length xs)
          ∙ ap (λ n. replicate n 0) {y = 7} (omega (arith, r.fits));
      counted = refl;
      ascends = tt;
      in_table = tt;
      table_size =
          length-clear_indices (take s.num_total_nodes s.nodes_list) s.node_index_on_gain_matrix
          ∙ r.table_size;
      indexed = tt;
    }

-- While a roster has room, an id that is registered is counted and listed once more, whether it stands
-- there already or not.
register_new_node-twice :
    (id : ℕ) {xs : List ℕ} {s : Nodes}
    → IsRoster xs s
    → length xs < max_num_nodes
    → let s' = (register_new_node id s).0 in
      (s'.num_total_nodes ≡ length xs + 1)
      × (count id (take s'.num_total_nodes s'.nodes_list) ≡ count id xs + 1)
register_new_node-twice id {xs} {s} r room = (
  omega (arith, (register_new_node-listed id r room).1),
  ap (count id) (registered_ids id r room) ∙ count-insert_sorted id xs,
)

pub register_new_node-node_id :
    (id : ℕ) (s : Nodes) → (register_new_node id s).0.node_id ≡ s.node_id
unfolding register_new_node
register_new_node-node_id id s = refl

pub reset_glob-node_id : (s : Nodes) → (reset_glob s).0.node_id ≡ s.node_id
unfolding reset_glob register_new_node
reset_glob-node_id s = refl
