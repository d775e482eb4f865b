-- ===== src/Platform/Counting.antt =====
-- doover/src/docker/platform.rs, `PulseCounter`: what a run of events does to the count and to the times.
use doover_rs.Base.{
  ℕ, suc, ◌+◌, ◌%◌, ◌^◌, ◌≡◌, refl, ap, true, false, Option, none, some, List, [], ◌∷◌, ◌++◌,
  Bool-cases, inl, inr, length, arith, if_elim,
}
use doover_rs.Base.Int.{ℤ}
use doover_rs.Platform.{PlatformEvent}
use doover_rs.Platform.Pulses.{
  Seconds, PulseCounterState, Told, pulse, system, event_kind, receive_kind, receive_all,
  receive_events, is_old, last, event_time,
}

module _ (𝓢 : Seconds) where
  -- The pulses among what the callbacks are told.
  abbrev pub pulses : List (Told 𝓢) → ℕ
  pulses [] = 0
  pulses (pulse u ∷ told) = suc (pulses told)
  pulses (system e ∷ told) = pulses told

  pulses-++ : (xs ys : List (Told 𝓢)) → pulses (xs ++ ys) ≡ pulses xs + pulses ys
  pulses-++ [] ys = omega arith
  pulses-++ (pulse u ∷ xs) ys = let ih = pulses-++ xs ys in omega (arith, ih)
  pulses-++ (system e ∷ xs) ys = pulses-++ xs ys

  -- Each time comes after the one before it by more than the spacing.
  abbrev pub IsSpaced : List 𝓢.F64 → Type 0
  IsSpaced [] = Unit
  IsSpaced (x ∷ []) = Unit
  IsSpaced (x ∷ y ∷ ts) = (is_old 𝓢 y (some x) ≡ false) × IsSpaced (y ∷ ts)

  IsSpaced-snoc :
      (ts : List 𝓢.F64) (t : 𝓢.F64)
      → IsSpaced ts
      → is_old 𝓢 t (last 𝓢 ts) ≡ false
      → IsSpaced (ts ++ t ∷ [])
  IsSpaced-snoc [] t s h = tt
  IsSpaced-snoc (x ∷ []) t s h = (h, tt)
  IsSpaced-snoc (x ∷ y ∷ ts) t s h = (s.0, IsSpaced-snoc (y ∷ ts) t s.1 h)

  length-snoc : (ts : List 𝓢.F64) (t : 𝓢.F64) → length (ts ++ t ∷ []) ≡ suc (length ts)
  length-snoc [] t = refl
  length-snoc (x ∷ ts) t = ap suc (length-snoc ts t)

  -- What a step adds: `n` to the count, which wraps, and `n` times.
  abbrev pub Counts : ℕ → PulseCounterState 𝓢 → PulseCounterState 𝓢 → Type 0
  Counts n st st' =
      (st'.count % 2 ^ 64 ≡ (st.count + n) % 2 ^ 64)
      × (length st'.pulse_timestamps ≡ length st.pulse_timestamps + n)

  none_counted : (st : PulseCounterState 𝓢) → Counts 0 st st
  none_counted st = (omega arith, omega arith)

  receive_kind-Counts :
      (pin : ℤ) (now : 𝓢.F64) (e : PlatformEvent) (k : Option _) (st : PulseCounterState 𝓢)
      → Counts (pulses (receive_kind 𝓢 pin now e k st).1) st (receive_kind 𝓢 pin now e k st).0
  receive_kind-Counts pin now e none st = none_counted st
  receive_kind-Counts pin now e (some k) st =
      elim (Bool-cases (is_old 𝓢 (event_time 𝓢 now e) (last 𝓢 st.pulse_timestamps))) [
        | inl old ↦ rw (old) (none_counted st)
        | inr new ↦
            let grown = length-snoc st.pulse_timestamps (event_time 𝓢 now e) in
            rw (new) (omega arith, omega (arith, grown))
      ]

  receive_kind-IsSpaced :
      (pin : ℤ) (now : 𝓢.F64) (e : PlatformEvent) (k : Option _) (st : PulseCounterState 𝓢)
      → IsSpaced st.pulse_timestamps
      → IsSpaced (receive_kind 𝓢 pin now e k st).0.pulse_timestamps
  receive_kind-IsSpaced pin now e none st s = s
  receive_kind-IsSpaced pin now e (some k) st s =
      elim (Bool-cases (is_old 𝓢 (event_time 𝓢 now e) (last 𝓢 st.pulse_timestamps))) [
        | inl old ↦ rw (old) s
        | inr new ↦ rw (new) (IsSpaced-snoc st.pulse_timestamps (event_time 𝓢 now e) s new)
      ]

  -- The two steps of a run together.
  Counts-trans :
      (m n : ℕ) (a b c : PulseCounterState 𝓢) → Counts m a b → Counts n b c → Counts (m + n) a c
  Counts-trans m n a b c (h, l) (h', l') = (omega (arith, h, h'), omega (arith, l, l'))

  receive_all-Counts :
      (pin : ℤ) (events : List (𝓢.F64 × PlatformEvent)) (st : PulseCounterState 𝓢)
      → Counts (pulses (receive_all 𝓢 pin events st).1) st (receive_all 𝓢 pin events st).0
  unfolding receive_all
  receive_all-Counts pin [] st = none_counted st
  receive_all-Counts pin ((now, e) ∷ events) st =
      let one = receive_kind 𝓢 pin now e (event_kind 𝓢 e.event) st in
      let more = receive_all 𝓢 pin events one.0 in
      rw (pulses-++ one.1 more.1) (
        Counts-trans (pulses one.1) (pulses more.1) st one.0 more.0
          (receive_kind-Counts pin now e (event_kind 𝓢 e.event) st)
          (receive_all-Counts pin events one.0))

  receive_all-IsSpaced :
      (pin : ℤ) (events : List (𝓢.F64 × PlatformEvent)) (st : PulseCounterState 𝓢)
      → IsSpaced st.pulse_timestamps
      → IsSpaced (receive_all 𝓢 pin events st).0.pulse_timestamps
  unfolding receive_all
  receive_all-IsSpaced pin [] st s = s
  receive_all-IsSpaced pin ((now, e) ∷ events) st s =
      receive_all-IsSpaced pin events (receive_kind 𝓢 pin now e (event_kind 𝓢 e.event) st).0
        (receive_kind-IsSpaced pin now e (event_kind 𝓢 e.event) st s)

  -- Whatever the events are, the count grows, modulo 2^64, by the number of pulses that the callbacks are
  -- told of, and so does the number of times kept, which stay spaced when they were.
  pub receive_events-Counts :
      (pin : ℤ) (events : List (𝓢.F64 × PlatformEvent)) (st : PulseCounterState 𝓢)
      → IsSpaced st.pulse_timestamps
      → Counts (pulses (receive_events 𝓢 pin events st).1) st (receive_events 𝓢 pin events st).0
        × IsSpaced (receive_events 𝓢 pin events st).0.pulse_timestamps
  unfolding receive_events
  receive_events-Counts pin events st s =
      let st' = record st { receiving_events = true } in
      if_elim
        (λ (r : PulseCounterState 𝓢 × List (Told 𝓢)).
          Counts (pulses r.1) st r.0 × IsSpaced r.0.pulse_timestamps)
        st.receiving_pulses (λ _. (none_counted st, s))
        (λ _. (receive_all-Counts pin events st', receive_all-IsSpaced pin events st' s))
