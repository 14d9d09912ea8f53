-- ===== src/Setup/Start.antt =====
-- The program of a node from `setup` on.
use scdtr_project.Prelude.{
  ℕ, ◌+◌, ◌≤◌, ◌<◌, refl, ◌∙◌, List, [], ◌∷◌, arith, replicate, length-set, get_or-set_ne,
}
use scdtr_project.Stream.{buff_size, blank}
use scdtr_project.Stream.Inv.{new-IsValid}
use scdtr_project.Float.{Float}
use scdtr_project.Nodes.{Nodes, max_num_nodes, max_node_id, register_new_node}
use scdtr_project.Nodes.Roster.{IsRoster, register_new_node-IsRoster, register_new_node-node_id}
use scdtr_project.Nodes.Insert.{insert_sorted}
use scdtr_project.MainLoop.Running.{Event, IsRunning, happen_all, happen_all-IsRunning}
use scdtr_project.Setup.{Eeprom, setup}

-- The registry before any node is in it.
abbrev no_nodes : ℕ → Nodes
no_nodes id = record {
  node_id = id;
  nodes_list = replicate max_num_nodes 0;
  node_index_on_gain_matrix = replicate (max_node_id + 1) 0;
  num_total_nodes = 0;
  hub_node = 0;
}

no_nodes-IsRoster : (id : ℕ) → IsRoster [] (no_nodes id)
no_nodes-IsRoster id = record {
  fits = omega arith;
  listed = refl;
  counted = refl;
  ascends = tt;
  in_table = tt;
  table_size = refl;
  indexed = tt;
}

module _ {ℓ} {F : Type ℓ} ⦃d : Float F⦄ where
  setup-IsRunning : (e : Eeprom F) → IsRunning e.node_id (setup e).0
  unfolding setup
  setup-IsRunning e = record {
    valid = new-IsValid (replicate buff_size blank) refl;
    good = (register_new_node-node_id e.node_id _, refl, λ on. cc);
  }

  setup-IsRoster :
      (e : Eeprom F)
      → 0 < e.node_id
      → e.node_id ≤ max_node_id
      → IsRoster (e.node_id ∷ []) (setup e).0.node.nodes
  unfolding setup insert_sorted
  setup-IsRoster e pos small =
      let r =
        register_new_node-IsRoster e.node_id (no_nodes-IsRoster e.node_id) (omega arith) pos small
          tt in
      let table = (register_new_node e.node_id (no_nodes e.node_id)).0.node_index_on_gain_matrix in
      record {
        fits = r.fits;
        listed = r.listed;
        counted = r.counted;
        ascends = r.ascends;
        in_table = r.in_table;
        table_size = length-set table 0 0 ∙ r.table_size;
        indexed = (get_or-set_ne table 0 0 (λ e'. absurd (omega arith)) ∙ r.indexed.0, tt);
      }

  -- A node whose stored id is from 1 to the largest one starts with a roster of itself alone, and
  -- whatever rounds of the main loop and interrupts follow, its frame buffer is valid, its id is the
  -- stored one, its reference is that of the desk's occupancy, and a consensus that runs has this
  -- reference.
  pub setup-starts :
      (e : Eeprom F) (events : List Event)
      → 0 < e.node_id
      → e.node_id ≤ max_node_id
      → IsRoster (e.node_id ∷ []) (setup e).0.node.nodes
        × IsRunning e.node_id (happen_all events (setup e).0)
  setup-starts e events pos small = (
    setup-IsRoster e pos small,
    happen_all-IsRunning e.node_id events (setup e).0 (setup-IsRunning e),
  )
