-- ===== src/Nodes.antt =====
-- The node registry of src/main.cpp: `nodesList`, `nodeIndexOnGainMatrix`, `numTotalNodes`,
-- `nodeId` and `hubNode` of src/glob.h, with `registerNewNode`, `resetGlob`, `checkIfNodeExists`,
-- and `SerialComm::sendListNodesToPC`, which they call.
pub mod Insert
pub mod Roster
pub mod Index
pub mod Lookup
use scdtr_project.Prelude.{
  ℕ, zero, suc, ◌+◌, ◌%◌, Bool, true, false, ◌||◌, List, [], ◌∷◌, ltb, ◌==◌, if◌then◌else◌, get_or,
  set, take,
}

abbrev pub max_num_nodes : ℕ
max_num_nodes = 7

abbrev pub max_node_id : ℕ
max_node_id = 20

pub record Nodes : Type 0 where
  pub node_id : ℕ
  -- `max_num_nodes` entries; 0 is a free one.
  pub nodes_list : List ℕ
  -- `max_node_id + 1` entries
  pub node_index_on_gain_matrix : List ℕ
  pub num_total_nodes : ℕ
  -- 0 for none
  pub hub_node : ℕ

-- The index of an id, 0 out of range (where the source reads past the array).
abbrev pub index_of : Nodes → ℕ → ℕ
index_of s id = get_or s.node_index_on_gain_matrix id 0

-- The index of the node that this program runs on.
abbrev pub own_index : Nodes → ℕ
own_index s = index_of s s.node_id

-- The inner loop: `j` runs up, `rounds` rounds are left, and `old_val` is the entry to put down.
pub shift_down : ℕ → ℕ → ℕ → List ℕ → List ℕ
shift_down zero j old_val l = l
shift_down (suc rounds) j old_val l =
    let next_val = get_or l j 0 in
    let moved = set l j old_val in
    let rest = shift_down rounds (j + 1) next_val moved in if next_val == 0 then moved else rest

-- The outer loop, from `i` on.
pub insert_from : ℕ → ℕ → ℕ → List ℕ → List ℕ
unfolding shift_down
insert_from zero i id l = l
insert_from (suc rounds) i id l =
    let here = get_or l i 0 in
    let rest = insert_from rounds (i + 1) id l in
    if ltb id here || here == 0 then set (shift_down rounds (i + 1) here l) i id else rest

-- `nodeIndexOnGainMatrix[nodesList[i]] = i` for the ids that are left, from `i` on.
pub index_from : ℕ → List ℕ → List ℕ → List ℕ
index_from i [] table = table
index_from i (id ∷ ids) table = index_from (i + 1) ids (set table id i)

-- The bytes of the list of nodes, for the PC.
pub list_nodes_message : Nodes → List ℕ
list_nodes_message s = 255 ∷ b'L' ∷ s.num_total_nodes ∷ take s.num_total_nodes s.nodes_list

-- `registerNewNode`; the bytes are what it sends to the PC.
pub register_new_node : ℕ → Nodes → Nodes × List ℕ
unfolding insert_from index_from
register_new_node id s =
    let listed = insert_from (s.num_total_nodes + 1) 0 id s.nodes_list in
    let count = (s.num_total_nodes + 1) % 256 in
    let s' : Nodes = record s {
      nodes_list = listed;
      num_total_nodes = count;
      node_index_on_gain_matrix = index_from 0 (take count listed) s.node_index_on_gain_matrix;
    } in
    (s', if s.node_id == s.hub_node then list_nodes_message s' else [])

-- The loop of `resetGlob`: each listed id has its index cleared.
pub clear_indices : List ℕ → List ℕ → List ℕ
clear_indices [] table = table
clear_indices (id ∷ ids) table = clear_indices ids (set table id 0)

-- The loop of `resetGlob`: the first `n` entries are cleared.
pub clear_entries : ℕ → List ℕ → List ℕ
clear_entries zero l = l
clear_entries (suc n) [] = []
clear_entries (suc n) (x ∷ l) = 0 ∷ clear_entries n l

pub reset_glob : Nodes → Nodes × List ℕ
unfolding clear_indices clear_entries
reset_glob s = register_new_node s.node_id (record s {
  node_index_on_gain_matrix =
      clear_indices (take s.num_total_nodes s.nodes_list) s.node_index_on_gain_matrix;
  nodes_list = clear_entries s.num_total_nodes s.nodes_list;
  num_total_nodes = 0;
})

-- The loop of `checkIfNodeExists`.
pub scan : ℕ → List ℕ → Bool
scan destination [] = false
scan destination (id ∷ ids) = if destination == id then true else scan destination ids

pub check_if_node_exists : Nodes → ℕ → Bool
unfolding scan
check_if_node_exists s destination = scan destination (take s.num_total_nodes s.nodes_list)
