-- ===== src/LastMinuteBuffer.antt =====
-- SCDTR-PC/SCDTR-PC/LastMinuteBuffer.cpp: what the nodes measured in the last minute.
pub mod Recent
pub mod History
use scdtr_project.Prelude.{
  ℕ, ◌-◌, ◌*◌, ◌/◌, Bool, List, [], ◌∷◌, ◌++◌, map, ltb, ◌==◌, if◌then◌else◌,
}

-- `struct FrequentDataValues`
pub record FrequentDataValues {ℓ} (F : Type ℓ) : Type ℓ where
  pub pwm : ℕ
  pub iluminance : F

-- One text that goes to a stream, without its separator, and the header of a buffer: node and kind.
pub data Printed {ℓ} (F : Type ℓ) : Type ℓ where
  percent : ℕ → Printed F
  number : F → Printed F
  header : ℕ → Bool → Printed F

-- The values at one time.
pub record Entry {ℓ} (F : Type ℓ) : Type ℓ where
  pub time : ℕ
  pub values : List (FrequentDataValues F)

-- The map from a node to its values, where a node with no key has none, and the values by time, in the
-- order of the times, as `std::map` keeps them.
pub record LastMinuteBuffer {ℓ} (F : Type ℓ) : Type ℓ where
  pub last_time_added_entry : ℕ
  pub last_minute_buffer : ℕ → List (Entry F)

module _ {ℓ} {F : Type ℓ} where
  -- The loop over one node's entries: it stops at the first that is recent enough.
  unfoldable pub remove_old : ℕ → List (Entry F) → List (Entry F)
  remove_old threshold [] = []
  remove_old threshold (e ∷ es) =
      let rest = remove_old threshold es in if ltb e.time threshold then rest else e ∷ es

  unfoldable pub remove_old_last_minute_buffer_entries : ℕ → LastMinuteBuffer F → LastMinuteBuffer F
  unfolding remove_old
  remove_old_last_minute_buffer_entries time_now b = record b {
    last_minute_buffer = λ id. remove_old (time_now - 60) (b.last_minute_buffer id);
  }

  -- `map[time].push_back(v)`
  unfoldable pub push_back : ℕ → FrequentDataValues F → List (Entry F) → List (Entry F)
  push_back time v [] = record { time = time; values = v ∷ [] } ∷ []
  push_back time v (e ∷ es) =
      let rest = push_back time v es in
      if ltb time e.time
      then record { time = time; values = v ∷ [] } ∷ e ∷ es
      else if time == e.time
      then record e { values = e.values ++ v ∷ [] } ∷ es
      else e ∷ rest

  -- The clock is read again where old entries are removed: `later`.
  unfoldable pub add_to_last_minute_buffer :
      ℕ → ℕ → ℕ → FrequentDataValues F → LastMinuteBuffer F → LastMinuteBuffer F
  unfolding remove_old_last_minute_buffer_entries push_back
  add_to_last_minute_buffer time_now later node_id v b =
      let b' =
        if time_now == b.last_time_added_entry
        then b
        else remove_old_last_minute_buffer_entries later b in
      record {
        last_time_added_entry = time_now;
        last_minute_buffer = λ id.
            if id == node_id
            then push_back time_now v (b'.last_minute_buffer id)
            else b'.last_minute_buffer id;
      }

  -- What is printed for one value.
  unfoldable pub printed : Bool → FrequentDataValues F → Printed F
  printed pwm v = if pwm then percent (v.pwm * 100 / 255) else number v.iluminance

  -- The loops of `printLastMinuteBuffer` over the times and the values of one time.
  pub print_entries : Bool → List (Entry F) → List (Printed F)
  unfolding printed
  print_entries pwm [] = []
  print_entries pwm (e ∷ es) = map (printed pwm) e.values ++ print_entries pwm es

  -- What goes to the console of the server, whoever asks, and what goes to the given stream. A node
  -- with no values has no key, or an empty map.
  unfoldable pub print_last_minute_buffer :
      ℕ → Bool → LastMinuteBuffer F → List (Printed F) × List (Printed F)
  unfolding print_entries
  print_last_minute_buffer node_id pwm b =
      (header node_id pwm ∷ [], print_entries pwm (b.last_minute_buffer node_id))
