-- ===== src/Examples/Platform.antt =====
-- Examples of the platform: its pulses, its channels and its outputs.
use mathlib.Core.List.{Perm}
use doover_rs.Base.{ℕ, ◌+◌, ◌*◌, ◌/◌, ◌-◌, String, true, none, some, List, [], ◌∷◌, ltb, leb, ◌==◌}
use doover_rs.Base.Int.{ℤ, pos, negsuc}
use doover_rs.Platform.{
  PlatformEvent, IoDetails, all_channels, of_type, channels_in_order, plain_channel,
}
use doover_rs.Platform.Pulses.{
  Seconds, PulseCounterState, new_counter, receive_events, start_listener_pulses,
}
use doover_rs.Platform.Counting.{Counts, IsSpaced, receive_events-Counts}
use doover_rs.Platform.Modes.{
  here, next, start, received as heard, IsOneSource, new_counter-IsOneSource,
}
use doover_rs.Grpc.{Attempt, SharedChannel, Header, Headed, replied, elapsed}
use doover_rs.Platform.Service.{PlatformService}
use doover_rs.Platform.Layout.{IsOrdered, channels_in_order-IsOrdered}

abbrev hundredths : ℤ → ℕ
hundredths (pos n) = n / 10
hundredths (negsuc n) = 0

-- Seconds in hundredths.
abbrev seconds : Seconds
seconds = record {
  F64 = ℕ;
  zero = 0;
  grace = 20;
  spacing = 1;
  sixty = 6000;
  add = λ a b. a + b;
  sub = λ a b. a - b;
  mul = λ a b. a * b;
  div = λ a b. a / b;
  lt = λ a b. ltb a b;
  le = λ a b. leb a b;
  eq = λ a b. a == b;
  of_millis = hundredths;
  of_count = λ n. n;
}

-- A rising edge, one too soon after it, a system event and a falling edge.
abbrev event_at : String → ℕ → ℕ × PlatformEvent
event_at name ms = (
  0,
  record {
    event_id = pos 1;
    event = name;
    pin = pos 2;
    value = "";
    time = pos ms;
    cm4_online = none;
  },
)

abbrev events : List (ℕ × PlatformEvent)
events =
    event_at "DI_R" 1000 ∷ event_at "DI_R" 1005 ∷ event_at "boot" 1500 ∷ event_at "DI_F" 2000 ∷ []

abbrev counter : PulseCounterState seconds
counter = new_counter seconds 6000 0

receive_events-Counts_example :
    Counts seconds 2 counter (receive_events seconds (pos 2) events counter).0
    × IsSpaced seconds (receive_events seconds (pos 2) events counter).0.pulse_timestamps
unfolding receive_events
receive_events-Counts_example = receive_events-Counts seconds (pos 2) events counter tt

new_counter-IsOneSource_example :
    IsOneSource seconds
      (receive_events seconds (pos 2) events (start_listener_pulses seconds 5 counter).0).0
new_counter-IsOneSource_example = new_counter-IsOneSource seconds 6000 0 _ (
    next (next here (start 5 counter))
      (heard (pos 2) events (start_listener_pulses seconds 5 counter).0))

abbrev devices : IoDetails
devices =
    record {
      name = "master";
      type_name = "";
      index = pos 0;
      is_master = true;
      online = true;
      channels =
          plain_channel "di" (pos 2) ∷ plain_channel "do" (pos 0) ∷ plain_channel "di" (pos 1) ∷ [];
    }
    ∷ []

channels_in_order-IsOrdered_example :
    IsOrdered (channels_in_order devices "di")
    × Perm (channels_in_order devices "di") (of_type "di" (all_channels devices))
channels_in_order-IsOrdered_example = channels_in_order-IsOrdered devices "di"

abbrev unanswered : {R : Type 0} → Attempt R
unanswered ch n = elapsed

abbrev good_header : Header
good_header = record { success = true; response_code = none; message = none }

-- A service that sets digital outputs, and answers nothing else.
abbrev service : PlatformService
service = record {
  F = ℕ;
  Entry = ℕ;
  Config = ℕ;
  zero = 0;
  of_u32 = λ n. n;
  set_do = λ pins given ch n. replied (record { header = some good_header; body = given });
  get_di = λ a b. unanswered;
  get_ai = λ a. unanswered;
  get_do = λ a. unanswered;
  get_do_current = λ a. unanswered;
  schedule_do = λ a b c. unanswered;
  get_ao = λ a. unanswered;
  set_ao = λ a b. unanswered;
  schedule_ao = λ a b c. unanswered;
  get_input_voltage = unanswered;
  get_system_power = unanswered;
  get_temperature = unanswered;
  get_location = unanswered;
  get_io_table = unanswered;
  get_io_details = unanswered;
  sync_rtc_time = unanswered;
  reboot = unanswered;
  shutdown = unanswered;
  get_shutdown_immunity = unanswered;
  set_shutdown_immunity = λ a. unanswered;
  get_wake_on_voltage = unanswered;
  set_wake_on_voltage = λ a. unanswered;
  get_wake_reason = unanswered;
  schedule_startup = λ a. unanswered;
  schedule_shutdown = λ a. unanswered;
  get_sleep_log = λ a. unanswered;
  get_sleep_log_interval = unanswered;
  set_sleep_log_interval = λ a. unanswered;
  get_events = λ a. unanswered;
  get_di_events = λ a b c d e. unanswered;
  get_di_config = λ a. unanswered;
  set_di_config = λ a. unanswered;
  test_comms = λ a. unanswered;
}
