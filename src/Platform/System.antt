-- ===== src/Platform/System.antt =====
-- doover/src/docker/platform.rs: what `PlatformClient` asks of the system, its events and its layout, and the
-- listener of pulses over its connections.
use doover_rs.Base.{ℕ, String, Bool, false, Option, none, some, List, unwrap_or, if◌then◌else◌}
use doover_rs.Base.Int.{ℤ}
use doover_rs.Errors.{DooverError, status, Result, ok, err, ◌>>=◌}
use doover_rs.Json.{Value}
use doover_rs.Grpc.{Headed, SharedChannel, Status, call, checked, unary, is_unimplemented}
use doover_rs.Platform.{Edge, flags, as_str, IoDevice, IoDetails, PlatformEvent, from_io_table}
use doover_rs.Platform.Service.{PlatformService, Location, LocationReply, DiConfigUpdate}
use doover_rs.Platform.Client.{Method, then_map}

-- A fix without its latitude or its longitude is none.
abbrev pub fix : {F : Type 0} → LocationReply F → Option F → Option F → Option (Location F)
fix r (some latitude) (some longitude) = some (record {
  latitude = latitude;
  longitude = longitude;
  altitude_m = r.altitude_m;
  accuracy_m = r.accuracy_m;
  speed_mps = r.speed_mps;
  heading_deg = r.heading_deg;
  sat_count = r.sat_count;
  timestamp = r.timestamp;
})
fix r _ _ = none

module _ {N : Type 0} where
  -- The table as it parses; none is passed on.
  abbrev pub parse_table :
      (String → Result DooverError (Value N))
      → Option String
      → Result DooverError (Option (Value N))
  parse_table from_str none = ok none
  parse_table from_str (some raw) = from_str raw >>= λ v. ok (some v)

  abbrev pub details_of_table :
      (N → Option ℤ) → (String → Option ℤ) → Option (Value N) → Option IoDetails
  details_of_table number_i64 parse_i64 none = none
  details_of_table number_i64 parse_i64 (some table) =
      some (from_io_table number_i64 parse_i64 table)

-- The result of a method that another may replace.
abbrev pub and_then_read : {A B : Type 0} → Method A → (A → Result DooverError B) → Method B
and_then_read m f sh = ((m sh).0, (m sh).1 >>= f)

module _ (𝓟 : PlatformService) where
  open 𝓟 use {F, Entry, Config, of_u32}

  abbrev pub fetch_system_voltage : Method (Option F)
  fetch_system_voltage = unary 𝓟.get_input_voltage

  abbrev pub fetch_system_power : Method (Option F)
  fetch_system_power = unary 𝓟.get_system_power

  abbrev pub fetch_system_temperature : Method (Option F)
  fetch_system_temperature = unary 𝓟.get_temperature

  unfoldable pub fetch_location : Method (Option (Location F))
  fetch_location = then_map (λ r. fix r r.latitude r.longitude) (unary 𝓟.get_location)

  abbrev pub sync_rtc : Method (Unit {0})
  sync_rtc = unary 𝓟.sync_rtc_time

  abbrev pub reboot : Method (Unit {0})
  reboot = unary 𝓟.reboot

  abbrev pub shutdown : Method (Unit {0})
  shutdown = unary 𝓟.shutdown

  abbrev pub fetch_immunity_seconds : Method (Option ℤ)
  fetch_immunity_seconds = unary 𝓟.get_shutdown_immunity

  abbrev pub set_immunity_seconds : ℤ → Method (Option ℤ)
  set_immunity_seconds secs = unary (𝓟.set_shutdown_immunity secs)

  abbrev pub fetch_wake_on_voltage : Method (Option F)
  fetch_wake_on_voltage = unary 𝓟.get_wake_on_voltage

  abbrev pub set_wake_on_voltage : Option F → Method (Option F)
  set_wake_on_voltage voltage = unary (𝓟.set_wake_on_voltage voltage)

  abbrev pub fetch_wake_reason : Method (Option String)
  fetch_wake_reason = unary 𝓟.get_wake_reason

  abbrev pub schedule_startup : ℕ → Method (Option F)
  schedule_startup time_secs = unary (𝓟.schedule_startup (of_u32 time_secs))

  abbrev pub schedule_shutdown : ℕ → Method (Option F)
  schedule_shutdown time_secs = unary (𝓟.schedule_shutdown (of_u32 time_secs))

  abbrev pub fetch_sleep_log : ℤ → Method (List Entry)
  fetch_sleep_log since = unary (𝓟.get_sleep_log since)

  abbrev pub fetch_sleep_log_interval : Method (Option ℤ)
  fetch_sleep_log_interval = unary 𝓟.get_sleep_log_interval

  abbrev pub set_sleep_log_interval : ℤ → Method (Option ℤ)
  set_sleep_log_interval interval_secs = unary (𝓟.set_sleep_log_interval interval_secs)

  abbrev pub fetch_events : ℤ → Method (List PlatformEvent)
  fetch_events events_from = unary (𝓟.get_events events_from)

  abbrev pub fetch_di_events : ℤ → Edge → Bool → ℤ → Method (Bool × List PlatformEvent)
  fetch_di_events pin edge include_system_events events_from =
      then_map (λ r. (unwrap_or r.events_synced false, r.events))
        (unary
          (𝓟.get_di_events pin (flags edge).0 (flags edge).1 include_system_events events_from))

  abbrev pub fetch_di_config : ℤ → Method (Option Config)
  fetch_di_config pin = unary (𝓟.get_di_config pin)

  abbrev pub edge_text : Option Edge → Option String
  edge_text none = none
  edge_text (some e) = some (as_str e)

  abbrev pub set_di_config : ℤ → DiConfigUpdate → Method (Option Config)
  set_di_config pin update = unary (
      𝓟.set_di_config (record {
        pin = pin;
        pnp_mode = update.pnp_mode;
        irq_edge = edge_text update.irq_edge;
        debounce_ms = update.debounce_ms;
        wake_on_event = update.wake_on_event;
      }))

  module _ {N : Type 0} (from_str : String → Result DooverError (Value N))
      (number_i64 : N → Option ℤ) (parse_i64 : String → Option ℤ) where
    unfoldable pub fetch_io_table : Method (Option (Value N))
    fetch_io_table = and_then_read (unary 𝓟.get_io_table) (parse_table from_str)

    -- A service that does not know the call is asked for its table.
    abbrev pub or_table :
        SharedChannel × Result Status (Headed (List IoDevice))
        → SharedChannel × Result DooverError (Option IoDetails)
    or_table (sh, ok r) = (sh, checked (ok r) >>= λ devices. ok (some devices))
    or_table (sh, err s) =
        let table = then_map (details_of_table number_i64 parse_i64) fetch_io_table sh in
        if is_unimplemented s.code then table else (sh, err (status s.message))

    unfoldable pub fetch_io_details : Method (Option IoDetails)
    unfolding fetch_io_table
    fetch_io_details sh = or_table (call 𝓟.get_io_details sh)
