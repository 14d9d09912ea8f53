-- ===== src/Consensus/State.antt =====
-- The state of src/consensus.cpp, as include/consensus.h declares it, and its loops over arrays.
use scdtr_project.Prelude.{ℕ, zero, suc, ◌+◌, Bool, true, false, List, [], ◌∷◌, get_or}
use scdtr_project.Float.{Float, nat}

-- OFF_STATE to UPDATE_STATE, 0 to 4
pub data ConsensusState : Type 0 where
  off iterate sending_duty_cycle waiting_recive_duty_cycle update : ConsensusState

abbrev pub is_iterate : ConsensusState → Bool
is_iterate iterate = true
is_iterate s = false

abbrev pub is_sending : ConsensusState → Bool
is_sending sending_duty_cycle = true
is_sending s = false

abbrev pub is_waiting : ConsensusState → Bool
is_waiting waiting_recive_duty_cycle = true
is_waiting s = false

abbrev pub is_update : ConsensusState → Bool
is_update update = true
is_update s = false

abbrev pub is_off : ConsensusState → Bool
is_off off = true
is_off s = false

abbrev pub max_iter : ℕ
max_iter = 50

-- Every array has `max_num_nodes` entries. `rho` and `maxIter` never change and are constants here.
pub record Consensus {ℓ} (F : Type ℓ) : Type ℓ where
  pub duty_cycle_av : List F
  pub lagrange_multipliers : List F
  pub ki : List F
  pub ki_norm : F
  pub kinorm_kii_diff : F
  pub li_ref : F
  pub node_idx : ℕ
  pub num_iter : ℕ
  pub number_of_msg_expected : ℕ
  pub consensus_state : ConsensusState
  pub duty_cycle_best : List F
  pub received_duty_cycle : List F
  pub number_of_msg_received : ℕ

-- An array written by a loop over `i < n`: entry `i` becomes `f i`, the entries behind stay.
unfoldable pub fill_from {ℓ} : {A : Type ℓ} → ℕ → (ℕ → A) → ℕ → List A → List A
fill_from i f zero l = l
fill_from i f (suc n) [] = []
fill_from i f (suc n) (x ∷ l) = f i ∷ fill_from (i + 1) f n l

-- A local array of `n` entries, written by such a loop.
unfoldable pub tabulate_from {ℓ} : {A : Type ℓ} → ℕ → (ℕ → A) → ℕ → List A
tabulate_from i f zero = []
tabulate_from i f (suc n) = f i ∷ tabulate_from (i + 1) f n

unfoldable pub fill {ℓ} : {A : Type ℓ} → ℕ → (ℕ → A) → List A → List A
unfolding fill_from
fill n f l = fill_from 0 f n l

unfoldable pub tabulate {ℓ} : {A : Type ℓ} → ℕ → (ℕ → A) → List A
unfolding tabulate_from
tabulate n f = tabulate_from 0 f n

module _ {ℓ} {F : Type ℓ} ⦃d : Float F⦄ where
  abbrev pub at : List F → ℕ → F
  at l i = get_or l i (nat 0)

  abbrev pub rho : F
  rho = d.ratio 7 100

  -- A sum over `i < n`, from `i` on.
  unfoldable pub sum_from : ℕ → (ℕ → F) → ℕ → F → F
  sum_from i f zero acc = acc
  sum_from i f (suc n) acc = sum_from (i + 1) f n (d.add acc (f i))
