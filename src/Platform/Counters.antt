-- ===== src/Platform/Counters.antt =====
-- doover/src/docker/platform.rs: the two ways in which `PlatformClient` makes a counter of pulses. The clock's readings
-- and the answer of the platform are arguments.
use doover_rs.Base.{ℕ, Bool, true, false, Option, none, some, List, [], if◌then◌else◌}
use doover_rs.Base.Int.{ℤ}
use doover_rs.Platform.{PlatformEvent}
use doover_rs.Platform.Pulses.{
  Seconds, PulseCounterState, Told, new_counter, start_listener_pulses, update_events,
}

module _ (𝓢 : Seconds) where
  -- The counter, and the count that its listener starts from if it starts.
  unfoldable pub get_new_pulse_counter :
      𝓢.F64 → 𝓢.F64 → 𝓢.F64 → Bool → PulseCounterState 𝓢 × Option ℕ
  unfolding start_listener_pulses
  get_new_pulse_counter rate_window_secs created started auto_start =
      if auto_start
      then start_listener_pulses 𝓢 started (new_counter 𝓢 rate_window_secs created)
      else (new_counter 𝓢 rate_window_secs created, none)

  -- A failure to collect leaves no counter.
  abbrev pub unless_failed :
      PulseCounterState 𝓢 × List (Told 𝓢) × Bool → Option (PulseCounterState 𝓢 × List (Told 𝓢))
  unless_failed (st, told, true) = some (st, told)
  unless_failed (st, told, false) = none

  unfoldable pub get_new_event_counter :
      ℤ
      → 𝓢.F64
      → 𝓢.F64
      → Option (List (𝓢.F64 × PlatformEvent))
      → Bool
      → Option (PulseCounterState 𝓢 × List (Told 𝓢))
  unfolding update_events
  get_new_event_counter pin rate_window_secs created fetched auto_collect =
      let counter = new_counter 𝓢 rate_window_secs created in
      if auto_collect
      then unless_failed (update_events 𝓢 pin fetched counter)
      else some (counter, [])
