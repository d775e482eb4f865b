-- ===== src/Platform/Modes.antt =====
-- doover/src/docker/platform.rs, `PulseCounter`: the two sources of pulses, the live stream and the
-- recorded events, over any run of operations.
use doover_rs.Base.{
  ℕ, ◌≡◌, refl, ◌∙◌, Bool, true, false, ◌&&◌, Option, none, some, List, [], ◌∷◌, Bool-cases, inl,
  inr, if_elim,
}
use doover_rs.Base.Int.{ℤ}
use doover_rs.Platform.{PlatformEvent}
use doover_rs.Platform.Pulses.{
  Seconds, Told, PulseCounterState, PulseCounterUpdate, new_counter, start_listener_pulses,
  on_pulse, add_existing_events, event_kind, receive_kind, receive_all, receive_events,
  receive_fetched, update_events, set_counter, set_rate_window, is_old, last, event_time,
}

module _ (𝓢 : Seconds) where
  -- One call of the counter's methods, or of the callback of its listener.
  pub data Step : PulseCounterState 𝓢 → PulseCounterState 𝓢 → Type 1 where
    start : (now : 𝓢.F64) (st : PulseCounterState 𝓢) → Step st (start_listener_pulses 𝓢 now st).0
    pulsed :
        (now : 𝓢.F64) (update : PulseCounterUpdate 𝓢) (st : PulseCounterState 𝓢)
        → st.receiving_pulses ≡ true
        → Step st (on_pulse 𝓢 now update st).0
    existing :
        (timestamps : List 𝓢.F64) (st : PulseCounterState 𝓢)
        → Step st (add_existing_events 𝓢 timestamps st)
    received :
        (pin : ℤ) (events : List (𝓢.F64 × PlatformEvent)) (st : PulseCounterState 𝓢)
        → Step st (receive_events 𝓢 pin events st).0
    updated :
        (pin : ℤ) (fetched : Option (List (𝓢.F64 × PlatformEvent))) (st : PulseCounterState 𝓢)
        → Step st (update_events 𝓢 pin fetched st).0
    set : (counter : ℕ) (st : PulseCounterState 𝓢) → Step st (set_counter 𝓢 counter st)
    window : (secs : 𝓢.F64) (st : PulseCounterState 𝓢) → Step st (set_rate_window 𝓢 secs st)

  -- The states that a run of calls leads to.
  pub data Reach (s : PulseCounterState 𝓢) : PulseCounterState 𝓢 → Type 1 where
    here : Reach s s
    next : {t u : PulseCounterState 𝓢} → Reach s t → Step t u → Reach s u

  -- At most one of the two sources is in use.
  abbrev pub IsOneSource : PulseCounterState 𝓢 → Type 0
  IsOneSource st = (st.receiving_pulses && st.receiving_events) ≡ false

  -- Not the source of live pulses.
  abbrev IsIdle : PulseCounterState 𝓢 → Type 0
  IsIdle st = st.receiving_pulses ≡ false

  idle-IsOneSource : (st : PulseCounterState 𝓢) → IsIdle st → IsOneSource st
  idle-IsOneSource st h = rw (h) refl

  start-IsOneSource :
      (now : 𝓢.F64) (st : PulseCounterState 𝓢)
      → IsOneSource st
      → IsOneSource (start_listener_pulses 𝓢 now st).0
  unfolding start_listener_pulses
  start-IsOneSource now st h =
      if_elim (λ (r : PulseCounterState 𝓢 × _). IsOneSource r.0) st.receiving_events (λ e. h)
        (λ e. e)

  on_pulse-IsOneSource :
      (now : 𝓢.F64) (update : PulseCounterUpdate 𝓢) (st : PulseCounterState 𝓢)
      → IsOneSource st
      → IsOneSource (on_pulse 𝓢 now update st).0
  unfolding on_pulse
  on_pulse-IsOneSource now update st h =
      if_elim (λ (r : PulseCounterState 𝓢 × _). IsOneSource r.0)
        (𝓢.lt (𝓢.sub now st.start_time) 𝓢.grace) (λ e. h) (λ e. h)

  add_existing_events-IsOneSource :
      (timestamps : List 𝓢.F64) (st : PulseCounterState 𝓢)
      → IsOneSource st
      → IsOneSource (add_existing_events 𝓢 timestamps st)
  unfolding add_existing_events
  add_existing_events-IsOneSource timestamps st h =
      if_elim (λ r. IsOneSource r) st.receiving_pulses (λ e. h) (λ e. rw (e) refl)

  receive_kind-receiving_pulses :
      (pin : ℤ) (now : 𝓢.F64) (e : PlatformEvent) (k : Option _) (st : PulseCounterState 𝓢)
      → (receive_kind 𝓢 pin now e k st).0.receiving_pulses ≡ st.receiving_pulses
  receive_kind-receiving_pulses pin now e none st = refl
  receive_kind-receiving_pulses pin now e (some k) st =
      elim (Bool-cases (is_old 𝓢 (event_time 𝓢 now e) (last 𝓢 st.pulse_timestamps))) [
        | inl old ↦ simp (old)
        | inr new ↦ simp (new)
      ]

  -- Events do not change whether live pulses are received.
  pub receive_all-receiving_pulses :
      (pin : ℤ) (events : List (𝓢.F64 × PlatformEvent)) (st : PulseCounterState 𝓢)
      → (receive_all 𝓢 pin events st).0.receiving_pulses ≡ st.receiving_pulses
  unfolding receive_all
  receive_all-receiving_pulses pin [] st = refl
  receive_all-receiving_pulses pin ((now, e) ∷ events) st =
      receive_all-receiving_pulses pin events (receive_kind 𝓢 pin now e (event_kind 𝓢 e.event) st).0
      ∙ receive_kind-receiving_pulses pin now e (event_kind 𝓢 e.event) st

  -- From an idle counter the events may be taken.
  receive_all-IsOneSource :
      (pin : ℤ) (events : List (𝓢.F64 × PlatformEvent)) (st : PulseCounterState 𝓢)
      → IsIdle st
      → IsOneSource (receive_all 𝓢 pin events st).0
  receive_all-IsOneSource pin events st e =
      idle-IsOneSource (receive_all 𝓢 pin events st).0
        (receive_all-receiving_pulses pin events st ∙ e)

  receive_events-IsOneSource :
      (pin : ℤ) (events : List (𝓢.F64 × PlatformEvent)) (st : PulseCounterState 𝓢)
      → IsOneSource st
      → IsOneSource (receive_events 𝓢 pin events st).0
  unfolding receive_events
  receive_events-IsOneSource pin events st h =
      if_elim (λ (r : PulseCounterState 𝓢 × _). IsOneSource r.0) st.receiving_pulses (λ e. h)
        (λ e. receive_all-IsOneSource pin events (record st { receiving_events = true }) e)

  receive_fetched-IsOneSource :
      (pin : ℤ) (fetched : Option (List (𝓢.F64 × PlatformEvent))) (st : PulseCounterState 𝓢)
      → IsOneSource st
      → IsOneSource (receive_fetched 𝓢 pin fetched st).0
  receive_fetched-IsOneSource pin none st h = h
  receive_fetched-IsOneSource pin (some events) st h = receive_events-IsOneSource pin events st h

  update_events-IsOneSource :
      (pin : ℤ) (fetched : Option (List (𝓢.F64 × PlatformEvent))) (st : PulseCounterState 𝓢)
      → IsOneSource st
      → IsOneSource (update_events 𝓢 pin fetched st).0
  unfolding update_events
  update_events-IsOneSource pin fetched st h =
      if_elim (λ (r : PulseCounterState 𝓢 × List (Told 𝓢) × Bool). IsOneSource r.0)
        st.receiving_pulses (λ e. h)
        (λ e.
          receive_fetched-IsOneSource pin fetched (record st { receiving_events = true })
            (idle-IsOneSource (record st { receiving_events = true }) e))

  Step-IsOneSource : {s t : PulseCounterState 𝓢} → Step s t → IsOneSource s → IsOneSource t
  Step-IsOneSource (start now st) h = start-IsOneSource now st h
  Step-IsOneSource (pulsed now update st _) h = on_pulse-IsOneSource now update st h
  Step-IsOneSource (existing timestamps st) h = add_existing_events-IsOneSource timestamps st h
  Step-IsOneSource (received pin events st) h = receive_events-IsOneSource pin events st h
  Step-IsOneSource (updated pin fetched st) h = update_events-IsOneSource pin fetched st h
  Step-IsOneSource (set counter st) h = h
  Step-IsOneSource (window secs st) h = h

  Reach-IsOneSource : {s t : PulseCounterState 𝓢} → IsOneSource s → Reach s t → IsOneSource t
  Reach-IsOneSource h here = h
  Reach-IsOneSource h (next r st) = Step-IsOneSource st (Reach-IsOneSource h r)

  -- After any run of calls on a new counter, whatever the times, the events and the answers of the
  -- platform are, it does not take pulses from both of its sources.
  pub new_counter-IsOneSource :
      (rate_window_secs now : 𝓢.F64) (st : PulseCounterState 𝓢)
      → Reach (new_counter 𝓢 rate_window_secs now) st
      → IsOneSource st
  new_counter-IsOneSource rate_window_secs now st r = Reach-IsOneSource refl r
