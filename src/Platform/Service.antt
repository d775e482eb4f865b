-- ===== src/Platform/Service.antt =====
-- doover/src/docker/platform.rs: the service of the platform as its client calls it. The generated client is a
-- parameter: one function for each call, from its request to the answer at an attempt.
use doover_rs.Base.{ℕ, String, Bool, Option, List}
use doover_rs.Base.Int.{ℤ}
use doover_rs.Grpc.{Attempt, Headed}
use doover_rs.Platform.{Edge, IoDevice, PlatformEvent}

module _ (F : Type 0) where
  pub record Location : Type 0 where
    pub latitude : F
    pub longitude : F
    pub altitude_m : Option F
    pub accuracy_m : Option F
    pub speed_mps : Option F
    pub heading_deg : Option F
    pub sat_count : Option ℤ
    pub timestamp : Option String

  -- A fix as the service sends it, with its parts optional.
  pub record LocationReply : Type 0 where
    pub latitude : Option F
    pub longitude : Option F
    pub altitude_m : Option F
    pub accuracy_m : Option F
    pub speed_mps : Option F
    pub heading_deg : Option F
    pub sat_count : Option ℤ
    pub timestamp : Option String

  pub record DiReading : Type 0 where
    pub pin : ℤ
    pub value : Bool
    pub pulse_count : Option ℕ
    pub pulse_rate_hz : Option F

  pub record DiReply : Type 0 where
    pub di : List Bool
    pub readings : List DiReading

pub record DiEvents : Type 0 where
  pub events : List PlatformEvent
  pub events_synced : Option Bool

pub record DiConfigUpdate : Type 0 where
  pub pnp_mode : Option Bool
  pub irq_edge : Option Edge
  pub debounce_ms : Option ℤ
  pub wake_on_event : Option Bool

pub record SetDiConfig : Type 0 where
  pub pin : ℤ
  pub pnp_mode : Option Bool
  pub irq_edge : Option String
  pub debounce_ms : Option ℤ
  pub wake_on_event : Option Bool

-- The service: `F` is `f32`, and `Entry` and `Config` are messages that the program passes on unread.
pub record PlatformService : Type 1 where
  pub F : Type 0
  pub Entry : Type 0
  pub Config : Type 0
  pub zero : F
  pub of_u32 : ℕ → F
  pub test_comms : String → Attempt (Headed String)
  pub get_di : List ℤ → Option Bool → Attempt (Headed (DiReply F))
  pub get_ai : List ℤ → Attempt (Headed (List F))
  pub get_do : List ℤ → Attempt (Headed (List Bool))
  pub get_do_current : List ℤ → Attempt (Headed (List F))
  pub set_do : List ℤ → List Bool → Attempt (Headed (List Bool))
  pub schedule_do : List ℤ → List Bool → F → Attempt (Headed (List Bool))
  pub get_ao : List ℤ → Attempt (Headed (List F))
  pub set_ao : List ℤ → List F → Attempt (Headed (List F))
  pub schedule_ao : List ℤ → List F → F → Attempt (Headed (List F))
  pub get_input_voltage : Attempt (Headed (Option F))
  pub get_system_power : Attempt (Headed (Option F))
  pub get_temperature : Attempt (Headed (Option F))
  pub get_location : Attempt (Headed (LocationReply F))
  pub get_io_table : Attempt (Headed (Option String))
  pub get_io_details : Attempt (Headed (List IoDevice))
  pub sync_rtc_time : Attempt (Headed (Unit {0}))
  pub reboot : Attempt (Headed (Unit {0}))
  pub shutdown : Attempt (Headed (Unit {0}))
  pub get_shutdown_immunity : Attempt (Headed (Option ℤ))
  pub set_shutdown_immunity : ℤ → Attempt (Headed (Option ℤ))
  pub get_wake_on_voltage : Attempt (Headed (Option F))
  pub set_wake_on_voltage : Option F → Attempt (Headed (Option F))
  pub get_wake_reason : Attempt (Headed (Option String))
  pub schedule_startup : F → Attempt (Headed (Option F))
  pub schedule_shutdown : F → Attempt (Headed (Option F))
  pub get_sleep_log : ℤ → Attempt (Headed (List Entry))
  pub get_sleep_log_interval : Attempt (Headed (Option ℤ))
  pub set_sleep_log_interval : ℤ → Attempt (Headed (Option ℤ))
  pub get_events : ℤ → Attempt (Headed (List PlatformEvent))
  pub get_di_events : ℤ → Bool → Bool → Bool → ℤ → Attempt (Headed DiEvents)
  pub get_di_config : ℤ → Attempt (Headed (Option Config))
  pub set_di_config : SetDiConfig → Attempt (Headed (Option Config))
