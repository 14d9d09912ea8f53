-- ===== src/Nodes/Index.antt =====
-- `nodeIndexOnGainMatrix` after the loop of `registerNewNode`.
use scdtr_project.Prelude.{
  ℕ, ◌+◌, ◌≤◌, ◌<◌, ◌≡◌, refl, ◌∙◌, List, [], ◌∷◌, arith, length, get_or, set, All, length-set,
  get_or-set_self, get_or-set_ne,
}
use scdtr_project.Nodes.{index_from}

-- Above `lo` and strictly ascending.
abbrev pub Ascends : ℕ → List ℕ → Type 0
Ascends lo [] = Unit
Ascends lo (x ∷ xs) = (lo < x) × Ascends x xs

-- The table gives the ids their positions, from `i` on.
abbrev pub Indexed : ℕ → List ℕ → List ℕ → Type 0
Indexed i [] table = Unit
Indexed i (x ∷ xs) table = (get_or table x 0 ≡ i) × Indexed (i + 1) xs table

pub Ascends-mono : (lo hi : ℕ) (xs : List ℕ) → lo ≤ hi → Ascends hi xs → Ascends lo xs
Ascends-mono lo hi [] h a = tt
Ascends-mono lo hi (x ∷ xs) h a = (omega arith, a.1)

pub length-index_from :
    (i : ℕ) (ids table : List ℕ) → length (index_from i ids table) ≡ length table
unfolding index_from
length-index_from i [] table = refl
length-index_from i (x ∷ xs) table =
    length-index_from (i + 1) xs (set table x i) ∙ length-set table x i

-- An index below the ids that are written stays.
get_or-index_from :
    (i k : ℕ) (ids table : List ℕ)
    → Ascends k ids
    → get_or (index_from i ids table) k 0 ≡ get_or table k 0
unfolding index_from
get_or-index_from i k [] table a = refl
get_or-index_from i k (x ∷ xs) table a =
    get_or-index_from (i + 1) k xs (set table x i) (Ascends-mono k x xs (omega arith) a.1)
    ∙ get_or-set_ne table i 0 (omega arith)

-- Every listed id has its position as its index.
pub index_from-Indexed :
    (i lo : ℕ) (ids table : List ℕ)
    → Ascends lo ids
    → All (λ x. x < length table) ids
    → Indexed i ids (index_from i ids table)
unfolding index_from
index_from-Indexed i lo [] table a h = tt
index_from-Indexed i lo (x ∷ xs) table a h = (
  get_or-index_from (i + 1) x xs (set table x i) a.1 ∙ get_or-set_self table x i 0 h.0,
  index_from-Indexed (i + 1) x xs (set table x i) a.1 (rw (length-set table x i) h.1),
)
