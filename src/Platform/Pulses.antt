-- ===== src/Platform/Pulses.antt =====
-- doover/src/docker/platform.rs: `PulseCounter`. The floats of seconds and the clock are parameters;
-- a callback's calls are results.
use doover_rs.Base.{
  ℕ, ◌+◌, ◌%◌, ◌^◌, String, Bool, true, false, Option, none, some, List, [], ◌∷◌, ◌++◌, str_eq,
  length, unwrap_or, if◌then◌else◌,
}
use doover_rs.Base.Int.{ℤ}
use doover_rs.Platform.{Edge, rising, falling, PlatformEvent}

-- The operations on `f64` that the counter uses; `of_millis` divides by a thousand.
pub record Seconds : Type 1 where
  pub F64 : Type 0
  pub zero : F64
  pub grace : F64
  pub spacing : F64
  pub sixty : F64
  pub add : F64 → F64 → F64
  pub sub : F64 → F64 → F64
  pub mul : F64 → F64 → F64
  pub div : F64 → F64 → F64
  pub lt : F64 → F64 → Bool
  pub le : F64 → F64 → Bool
  pub eq : F64 → F64 → Bool
  pub of_millis : ℤ → F64
  pub of_count : ℕ → F64

-- `count += 1` on a `u64`.
abbrev pub increment : ℕ → ℕ
increment n = (n + 1) % 2 ^ 64

module _ (𝓢 : Seconds) where
  open 𝓢 use {
    F64, zero, grace, spacing, sixty, add as addf, sub, mul, div, lt, le, eq, of_millis, of_count,
  }

  pub record PulseCounterState : Type 0 where
    pub count : ℕ
    pub pulse_timestamps : List 𝓢.F64
    pub rate_window_secs : 𝓢.F64
    pub receiving_pulses : Bool
    pub receiving_events : Bool
    pub start_time : 𝓢.F64

  pub record PulseCounterUpdate : Type 0 where
    pub pin : ℤ
    pub value : Bool
    pub dt_secs : 𝓢.F64
    pub timestamp : Option 𝓢.F64
    pub count : ℕ
    pub edge : Option Edge

  -- One item of the stream of pulses.
  pub record DiPulse : Type 0 where
    pub di : Option ℤ
    pub value : Option Bool
    pub dt_secs : Option 𝓢.F64

  abbrev pub new_counter : F64 → F64 → PulseCounterState
  new_counter rate_window_secs now = record {
    count = 0;
    pulse_timestamps = [];
    rate_window_secs = rate_window_secs;
    receiving_pulses = false;
    receiving_events = false;
    start_time = now;
  }

  abbrev pub last : List F64 → Option F64
  last [] = none
  last (x ∷ []) = some x
  last (_ ∷ x ∷ xs) = last (x ∷ xs)

  -- The result is the count that the listener starts from, if it starts.
  unfoldable pub start_listener_pulses : F64 → PulseCounterState → PulseCounterState × Option ℕ
  start_listener_pulses now st =
      if st.receiving_events
      then (st, none)
      else (record st { receiving_pulses = true; start_time = now }, some st.count)

  -- The callback of the listener: a pulse within the grace period is ignored, and the count told to the
  -- user is the counter's own.
  unfoldable pub on_pulse :
      F64 → PulseCounterUpdate → PulseCounterState → PulseCounterState × Option PulseCounterUpdate
  on_pulse now update st = if lt (sub now st.start_time) grace then (st, none) else (
    record st { count = increment st.count; pulse_timestamps = st.pulse_timestamps ++ now ∷ [] },
    some (record update { count = increment st.count; timestamp = none }),
  )

  -- An item without a time is the handshake of the stream.
  abbrev pub heard : ℤ → Edge → ℕ → DiPulse → Option F64 → List PulseCounterUpdate × ℕ
  heard di edge counter item none = ([], counter)
  heard di edge counter item (some dt) = (
    record {
      pin = di;
      value = unwrap_or item.value false;
      dt_secs = dt;
      timestamp = none;
      count = increment counter;
      edge = some edge;
    }
        ∷ [],
    increment counter,
  )

  -- The updates that the listener makes of a stream, up to an error, and its own count.
  unfoldable pub listen : ℤ → Edge → ℕ → List (Option DiPulse) → List PulseCounterUpdate × ℕ
  listen di edge counter [] = ([], counter)
  listen di edge counter (none ∷ items) = ([], counter)
  listen di edge counter (some item ∷ items) =
      let (now, counted) = heard di edge counter item item.dt_secs in
      let (updates, total) = listen di edge counted items in (now ++ updates, total)

  unfoldable pub add_existing_events : List F64 → PulseCounterState → PulseCounterState
  add_existing_events timestamps st = if st.receiving_pulses then st else record st {
    receiving_events = true;
    pulse_timestamps = st.pulse_timestamps ++ timestamps;
    count = length (st.pulse_timestamps ++ timestamps) % 2 ^ 64;
  }

  -- The value and the edge that an event stands for; `none` is a system event.
  abbrev pub event_kind : String → Option (Bool × Option Edge)
  event_kind name =
      if str_eq name "DI_R"
      then some (true, some rising)
      else if str_eq name "DI_F"
      then some (false, some falling)
      else if str_eq name "VI"
      then some (false, none)
      else none

  -- The time of an event; zero stands for now.
  abbrev pub event_time : F64 → PlatformEvent → F64
  event_time now e = if eq (of_millis e.time) zero then now else of_millis e.time

  -- Whether an event comes too close after the newest pulse, or before it.
  abbrev pub is_old : F64 → Option F64 → Bool
  is_old timestamp none = false
  is_old timestamp (some newest) = le timestamp (addf newest spacing)

  abbrev pub since : F64 → Option F64 → F64
  since timestamp none = zero
  since timestamp (some newest) = sub timestamp newest

  -- What the callbacks are told: a pulse, or a system event.
  pub data Told : Type 0 where
    pulse : PulseCounterUpdate → Told
    system : PlatformEvent → Told

  abbrev pub record_pulse :
      ℤ → Bool × Option Edge → F64 → PulseCounterState → PulseCounterState × List Told
  record_pulse pin (value, edge) timestamp st =
      if is_old timestamp (last st.pulse_timestamps) then (st, []) else (
        record st {
          count = increment st.count;
          pulse_timestamps = st.pulse_timestamps ++ timestamp ∷ [];
        },
        pulse (record {
          pin = pin;
          value = value;
          dt_secs = since timestamp (last st.pulse_timestamps);
          timestamp = some timestamp;
          count = increment st.count;
          edge = edge;
        })
            ∷ [],
      )

  abbrev pub receive_kind :
      ℤ
      → F64
      → PlatformEvent
      → Option (Bool × Option Edge)
      → PulseCounterState
      → PulseCounterState × List Told
  receive_kind pin now e none st = (st, system e ∷ [])
  receive_kind pin now e (some kind) st = record_pulse pin kind (event_time now e) st

  -- The loop over the events, each with the time at which it is handled.
  unfoldable pub receive_all :
      ℤ → List (F64 × PlatformEvent) → PulseCounterState → PulseCounterState × List Told
  receive_all pin [] st = (st, [])
  receive_all pin ((now, e) ∷ events) st =
      let (st', told) = receive_kind pin now e (event_kind e.event) st in
      let (final, more) = receive_all pin events st' in (final, told ++ more)

  unfoldable pub receive_events :
      ℤ → List (F64 × PlatformEvent) → PulseCounterState → PulseCounterState × List Told
  unfolding receive_all
  receive_events pin events st =
      if st.receiving_pulses
      then (st, [])
      else receive_all pin events (record st { receiving_events = true })

  abbrev pub receive_fetched :
      ℤ
      → Option (List (F64 × PlatformEvent))
      → PulseCounterState
      → PulseCounterState × List Told × Bool
  receive_fetched pin none st = (st, [], false)
  receive_fetched pin (some events) st =
      let (st', told) = receive_events pin events st in (st', told, true)

  -- `fetched` is the answer of the platform; the result says whether it is `Ok`.
  unfoldable pub update_events :
      ℤ
      → Option (List (F64 × PlatformEvent))
      → PulseCounterState
      → PulseCounterState × List Told × Bool
  update_events pin fetched st =
      if st.receiving_pulses
      then (st, [], true)
      else receive_fetched pin fetched (record st { receiving_events = true })

  unfoldable pub newer_than : F64 → List F64 → List F64
  newer_than cutoff [] = []
  newer_than cutoff (t ∷ ts) =
      let rest = newer_than cutoff ts in if lt cutoff t then t ∷ rest else rest

  abbrev pub pulses_since : Option F64 → F64 → List F64 → List F64
  pulses_since none window ts = []
  pulses_since (some newest) window ts = newer_than (sub newest window) ts

  unfoldable pub get_pulses_in_window : PulseCounterState → List F64
  get_pulses_in_window st =
      pulses_since (last st.pulse_timestamps) st.rate_window_secs st.pulse_timestamps

  unfoldable pub get_pulses_per_minute : PulseCounterState → F64
  unfolding get_pulses_in_window
  get_pulses_per_minute st =
      div (mul (of_count (length (get_pulses_in_window st))) sixty) st.rate_window_secs

  abbrev pub set_rate_window : F64 → PulseCounterState → PulseCounterState
  set_rate_window secs st = record st { rate_window_secs = secs }

  abbrev pub set_counter : ℕ → PulseCounterState → PulseCounterState
  set_counter counter st = record st { count = counter }

  abbrev pub get_counter : PulseCounterState → ℕ
  get_counter st = st.count
