-- ===== src/Tests/Roster.antt =====
-- The node registry of a small network.
use scdtr_project.Prelude.{ℕ, refl, List, [], ◌∷◌, arith}
use scdtr_project.Nodes.{register_new_node, reset_glob}
use scdtr_project.Nodes.Insert.{insert_sorted}
use scdtr_project.Nodes.Roster.{IsRoster, register_new_node-IsRoster, reset_glob-IsRoster}
use scdtr_project.Tests.Data.{two_nodes}

abbrev ids : List ℕ
ids = 3 ∷ 5 ∷ []

two_nodes-IsRoster : IsRoster (3 ∷ 5 ∷ []) two_nodes
two_nodes-IsRoster = record {
  fits = omega arith;
  listed = refl;
  counted = refl;
  ascends = (omega arith, (omega arith, tt));
  in_table = (omega arith, (omega arith, tt));
  table_size = refl;
  indexed = (refl, (refl, tt));
}

register_new_node-IsRoster_example :
    IsRoster (insert_sorted 4 (3 ∷ 5 ∷ [])) (register_new_node 4 two_nodes).0
register_new_node-IsRoster_example =
    register_new_node-IsRoster 4 two_nodes-IsRoster (omega arith) (omega arith) (omega arith)
      (ground arith, (ground arith, tt))

reset_glob-IsRoster_example : IsRoster (3 ∷ []) (reset_glob two_nodes).0
reset_glob-IsRoster_example = reset_glob-IsRoster two_nodes-IsRoster (omega arith) (omega arith)
