-- ===== src/Tags/Triggers/Delta.antt =====
-- doover/src/tags/triggers.rs, the numeric triggers: the baseline of a delta, and values that are no
-- numbers.
use doover_rs.Base.{◌≡◌, ◌≢◌, refl, Bool, true, false, Option, none, some, Bool-cases, inl, inr}
use doover_rs.Json.{Value}
use doover_rs.Tags.Triggers.{
  Floats, LogTrigger, TriggerState, evaluate, evaluate_delta, is_numeric_trigger, value_as_f64,
  cross, rise, fall, delta_amount, delta_percent, any_change, enter, exit, moved,
}

module _ (𝓕 : Floats) where
  open 𝓕 use {Number, F64}

  moved_lem :
      (state : TriggerState 𝓕) (fires : F64 → F64 → Bool) (new last : Option F64)
      → state.last_logged ≡ last
      → ((moved 𝓕 state fires new last).1 ≡ true
          → ((moved 𝓕 state fires new last).0.last_logged ≡ new) × (new ≢ none))
        × ((moved 𝓕 state fires new last).1 ≡ false → (moved 𝓕 state fires new last).0 ≡ state)
        × (last ≡ none → new ≢ none → (moved 𝓕 state fires new last).1 ≡ true)
  moved_lem state fires none last e = (λ h. cc, λ h. refl, λ h k. absurd (k refl))
  moved_lem state fires (some new) none e = (λ h. (refl, λ k. cc), λ h. cc, λ h k. refl)
  moved_lem state fires (some new) (some last) e =
      elim (Bool-cases (fires (𝓕.abs (𝓕.sub new last)) last)) [
        | inl hit ↦ rw hit (λ h. (refl, λ k. cc), λ h. cc, λ h k. cc)
        | inr miss ↦ rw miss (λ h. cc, λ h. refl, λ h k. cc)
      ]

  -- A delta trigger that fires has the new number as its baseline; one that does not fire keeps its
  -- whole state; and without a baseline it fires on every number.
  pub delta_baseline :
      (new : Value Number) (state : TriggerState 𝓕) (fires : F64 → F64 → Bool)
      → ((evaluate_delta 𝓕 new state fires).1 ≡ true
          → ((evaluate_delta 𝓕 new state fires).0.last_logged ≡ value_as_f64 𝓕 new)
            × (value_as_f64 𝓕 new ≢ none))
        × ((evaluate_delta 𝓕 new state fires).1 ≡ false
            → (evaluate_delta 𝓕 new state fires).0 ≡ state)
        × (state.last_logged ≡ none
            → value_as_f64 𝓕 new ≢ none
            → (evaluate_delta 𝓕 new state fires).1 ≡ true)
  unfolding evaluate_delta
  delta_baseline new state fires = moved_lem state fires (value_as_f64 𝓕 new) state.last_logged refl

  -- A numeric trigger leaves its state alone and does not fire on a value that is no number.
  pub evaluate_not_numeric :
      (t : LogTrigger 𝓕) (prev : Option (Value Number)) (new : Value Number)
      (state : TriggerState 𝓕)
      → is_numeric_trigger 𝓕 t ≡ true
      → value_as_f64 𝓕 new ≡ none
      → evaluate 𝓕 t prev new state ≡ (state, false)
  unfolding evaluate is_numeric_trigger
  evaluate_not_numeric (cross ts d) prev new state h e = rw e
  evaluate_not_numeric (rise ts d) prev new state h e = rw e
  evaluate_not_numeric (fall ts d) prev new state h e = rw e
  evaluate_not_numeric (delta_amount a) prev new state h e = rw e
  evaluate_not_numeric (delta_percent a) prev new state h e = rw e
  evaluate_not_numeric any_change prev new state h e = cc
  evaluate_not_numeric (enter v) prev new state h e = cc
  evaluate_not_numeric (exit v) prev new state h e = cc
