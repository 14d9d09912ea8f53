-- ===== src/Setup/Filters.antt =====
-- The acceptance filters that `Communication::init` of src/communication.cpp sets in the CAN
-- controller, and the ids that `canMessageId` builds.
use scdtr_project.Prelude.{
  ℕ, ◌*◌, ◌/◌, ◌%◌, ◌^◌, ◌<◌, ◌≡◌, refl, ap, ap₂, ◌∙◌, Bool, true, false, ◌||◌, List, [], ◌∷◌,
  arith, ltb, ◌==◌, if◌then◌else◌,
}
use scdtr_project.Frame.{can_message_id}
use scdtr_project.Setup.{ChipCall, reset, set_bitrate, set_normal_mode, set_filter_mask, set_filter}
use scdtr_project.Setup.{init_can}

-- The mask number `n` after these calls.
unfoldable pub mask_of : ℕ → List ChipCall → ℕ → ℕ
mask_of n [] mask = mask
mask_of n (reset ∷ calls) mask = mask_of n calls 0
mask_of n (set_bitrate ∷ calls) mask = mask_of n calls mask
mask_of n (set_normal_mode ∷ calls) mask = mask_of n calls mask
mask_of n (set_filter_mask k v ∷ calls) mask = mask_of n calls (if k == n then v else mask)
mask_of n (set_filter k v ∷ calls) mask = mask_of n calls mask

-- How the controller compares an id with a filter under a mask: `matches mask filter can_id`.
module _ (matches : ℕ → ℕ → ℕ → Bool) where
  -- The filters 0 and 1 have the first mask, and the others the second one.
  unfoldable pub passes : ℕ → ℕ → List ChipCall → ℕ → Bool
  passes m0 m1 [] can_id = false
  passes m0 m1 (reset ∷ calls) can_id = passes m0 m1 calls can_id
  passes m0 m1 (set_bitrate ∷ calls) can_id = passes m0 m1 calls can_id
  passes m0 m1 (set_normal_mode ∷ calls) can_id = passes m0 m1 calls can_id
  passes m0 m1 (set_filter_mask k v ∷ calls) can_id = passes m0 m1 calls can_id
  passes m0 m1 (set_filter k v ∷ calls) can_id =
      matches (if ltb k 2 then m0 else m1) v can_id || passes m0 m1 calls can_id

  -- The controller takes a frame that passes one of its filters.
  unfoldable pub accepts : List ChipCall → ℕ → Bool
  unfolding passes mask_of
  accepts calls can_id = passes (mask_of 0 calls 0) (mask_of 1 calls 0) calls can_id

or_twice : (a b : Bool) → (a || (b || (a || (b || false)))) ≡ (a || b)
or_twice true b = refl
or_twice false true = refl
or_twice false false = refl

-- If the controller compares, under the mask 0x00FF0000, just the bits 16 to 23, then after the calls
-- of `Communication::init` a node takes a message just when it is for all nodes or for this one,
-- whoever sent it and of whatever type; the ids and the type are bytes.
pub accepts-init_can :
    (matches : ℕ → ℕ → ℕ → Bool)
    → ((filter can_id : ℕ)
        → matches 0x00FF0000 filter can_id ≡ (can_id / 2 ^ 16 % 2 ^ 8 == filter / 2 ^ 16 % 2 ^ 8))
    → (id from destination message_type : ℕ) → id < 256
    → from < 256
    → destination < 256
    → message_type < 256
    → accepts matches (init_can id) (can_message_id from destination message_type)
      ≡ (destination == 0 || destination == id)
unfolding accepts passes mask_of init_can can_message_id
accepts-init_can matches masked id from destination message_type hi hf hd ht =
    let x = can_message_id from destination message_type in
    let to : x / 2 ^ 16 % 2 ^ 8 ≡ destination = omega arith in
    let own : id * 2 ^ 16 / 2 ^ 16 % 2 ^ 8 ≡ id = omega arith in
    ap₂ (λ a b. a || (b || (a || (b || false)))) (masked 0 x ∙ ap (λ t. t == 0) to)
      (masked (id * 2 ^ 16) x ∙ ap₂ ◌==◌ to own)
    ∙ or_twice (destination == 0) (destination == id)
