-- ===== src/MsgType.antt =====
-- The `CAN_*` message types of include/communication.h.
use scdtr_project.Prelude.{ℕ}

abbrev pub wakeup_broadcast : ℕ
wakeup_broadcast = 1

abbrev pub calib_ready : ℕ
calib_ready = 2

abbrev pub calib_led_on : ℕ
calib_led_on = 3

abbrev pub do_consensus : ℕ
do_consensus = 5

abbrev pub consensus : ℕ
consensus = 6

abbrev pub commands_request : ℕ
commands_request = 8

abbrev pub commands_response : ℕ
commands_response = 9

abbrev pub is_hub_node : ℕ
is_hub_node = 10

abbrev pub no_longer_is_hub_node : ℕ
no_longer_is_hub_node = 11

abbrev pub frequent_data : ℕ
frequent_data = 12
