-- ===== src/Server/Frequent.antt =====
-- `receivedFrequentData` of SCDTR-PC/SCDTR-PC/Server.cpp: the file of saved values, the streams, and
-- the last minute.
use scdtr_project.Prelude.{ℕ, ◌*◌, ◌/◌, List, [], ◌∷◌, ◌++◌, if◌then◌else◌}
use scdtr_project.LastMinuteBuffer.{FrequentDataValues, percent, number, add_to_last_minute_buffer}
use scdtr_project.Prelude.Int.{sub_ℕ}
use scdtr_project.Float.{Float, nat}
use scdtr_project.Server.{Server, FileRow, ActiveStream, streamed, write_text}

-- The clock at the places where it is read: in milliseconds, and twice in seconds.
pub record Clock : Type 0 where
  pub millis : ℕ
  pub time_now : ℕ
  pub later : ℕ

module _ {ℓ} {F : Type ℓ} where
  -- `streamPWM`, if it is on, then `streamIluminance`, if it is on, for one client.
  unfoldable pub stream_to : ActiveStream → FrequentDataValues F → Server F → Server F
  unfolding write_text
  stream_to a v s =
      let s' =
        if a.streaming_pwm
        then write_text a.to_client (streamed (percent (v.pwm * 100 / 255))) s
        else s in
      if a.streaming_iluminance
      then write_text a.to_client (streamed (number v.iluminance)) s'
      else s'

  unfoldable pub stream_all : List ActiveStream → FrequentDataValues F → Server F → Server F
  unfolding stream_to
  stream_all [] v s = s
  stream_all (a ∷ more) v s = stream_all more v (stream_to a v s)

module _ {ℓ} {F : Type ℓ} ⦃d : Float F⦄ where
  abbrev pub file_row : ℕ → ℕ → ℕ → FrequentDataValues F → FileRow F
  file_row millis started node_id v = record {
    row_node = node_id;
    row_millis = sub_ℕ millis started;
    row_pwm = d.div (d.mul (nat v.pwm) (nat 100)) (nat 255);
    row_iluminance = v.iluminance;
  }

  unfoldable pub write_to_file : ℕ → ℕ → FrequentDataValues F → Server F → Server F
  write_to_file millis node_id v s =
      if s.writing_to_file
      then record s {
        file_output = s.file_output ++ file_row millis s.file_writing_started node_id v ∷ [];
      }
      else s

  unfoldable pub received_frequent_data : Clock → ℕ → FrequentDataValues F → Server F → Server F
  unfolding write_to_file stream_all add_to_last_minute_buffer
  received_frequent_data clock node_id v s =
      let s' = stream_all (s.active_streams node_id) v (write_to_file clock.millis node_id v s) in
      record s' {
        last_minute_buffer =
            add_to_last_minute_buffer clock.time_now clock.later node_id v s'.last_minute_buffer;
      }
