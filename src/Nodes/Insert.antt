-- ===== src/Nodes/Insert.antt =====
-- The two loops of `registerNewNode` as an insertion into a list.
use scdtr_project.Prelude.{
  ℕ, zero, suc, ◌+◌, ◌<◌, ◌≡◌, refl, List, [], ◌∷◌, ◌++◌, arith, ltb, if◌then◌else◌, length, get_or,
  set, replicate, All,
}
use scdtr_project.Nodes.{shift_down, insert_from}

-- The specification: before the first larger id.
unfoldable pub insert_sorted : ℕ → List ℕ → List ℕ
insert_sorted id [] = id ∷ []
insert_sorted id (x ∷ xs) = if ltb id x then id ∷ x ∷ xs else x ∷ insert_sorted id xs

abbrev pub AllPos : List ℕ → Type 0
AllPos = All (λ x. 0 < x)

-- Loops that start one entry further leave the first entry alone.
shift_down-cons :
    (rounds j old_val y : ℕ) (l : List ℕ)
    → shift_down rounds (suc j) old_val (y ∷ l) ≡ y ∷ shift_down rounds j old_val l
unfolding shift_down
shift_down-cons zero j old_val y l = refl
shift_down-cons (suc rounds) j old_val y l =
    ground (arith, shift_down-cons rounds (j + 1) (get_or l j 0) y (set l j old_val))

insert_from-cons :
    (rounds i id y : ℕ) (l : List ℕ)
    → insert_from rounds (suc i) id (y ∷ l) ≡ y ∷ insert_from rounds i id l
unfolding insert_from
insert_from-cons zero i id y l = refl
insert_from-cons (suc rounds) i id y l = ground (
  arith,
  shift_down-cons rounds (i + 1) (get_or l i 0) y l,
  insert_from-cons rounds (i + 1) id y l,
)

-- The inner loop moves every id down by one entry, into the first free one.
shift_down_lem :
    (old_val : ℕ) (xs : List ℕ) (free : ℕ)
    → AllPos xs
    → shift_down (suc (length xs)) 0 old_val (xs ++ replicate (suc free) 0)
      ≡ old_val ∷ xs ++ replicate free 0
unfolding shift_down
shift_down_lem old_val [] free h = refl
shift_down_lem old_val (x ∷ xs) free h = ground (
  arith,
  shift_down-cons (suc (length xs)) 0 x old_val (xs ++ replicate (suc free) 0),
  shift_down_lem x xs free h.1,
)

-- Together the loops insert the id, and use up one free entry.
pub insert_from_lem :
    (id : ℕ) (xs : List ℕ) (free : ℕ)
    → AllPos xs
    → insert_from (suc (length xs)) 0 id (xs ++ replicate (suc free) 0)
      ≡ insert_sorted id xs ++ replicate free 0
unfolding insert_from insert_sorted
insert_from_lem id [] free h = ground arith
insert_from_lem id (x ∷ xs) free h = ground (
  arith,
  shift_down-cons (suc (length xs)) 0 x x (xs ++ replicate (suc free) 0),
  shift_down_lem x xs free h.1,
  insert_from-cons (suc (length xs)) 0 id x (xs ++ replicate (suc free) 0),
  insert_from_lem id xs free h.1,
)
