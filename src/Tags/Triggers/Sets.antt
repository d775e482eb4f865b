-- ===== src/Tags/Triggers/Sets.antt =====
-- doover/src/tags/triggers.rs, `TriggerSet` and `validate_log_on`.
use doover_rs.Base.{
  ◌≡◌, refl, ap, ◌∙◌, String, Bool, true, false, ◌||◌, Option, none, List, [], ◌∷◌, ◌++◌, arith,
  length, or_else,
}
use doover_rs.Json.{Value}
use doover_rs.Tags.Triggers.{
  Floats, LogTrigger, TriggerState, TriggerSet, evaluate, evaluate_all, evaluate_set, all_accepted,
  validate_log_on, value_as_f64, is_numeric_type,
}
use doover_rs.Tags.Triggers.Delta.{evaluate_not_numeric}

or_assoc : (a b c : Bool) → (a || (b || c)) ≡ ((a || b) || c)
or_assoc true b c = refl
or_assoc false b c = refl

module _ (𝓕 : Floats) where
  open 𝓕 use {Number}

  evaluate_all-append :
      (prev : Option (Value Number)) (new : Value Number) (ts us : List (LogTrigger 𝓕))
      (sts sus : List (TriggerState 𝓕))
      → length ts ≡ length sts
      → evaluate_all 𝓕 prev new (ts ++ us) (sts ++ sus) ≡ (
        (evaluate_all 𝓕 prev new ts sts).0 ++ (evaluate_all 𝓕 prev new us sus).0,
        (evaluate_all 𝓕 prev new ts sts).1 || (evaluate_all 𝓕 prev new us sus).1,
      )
  unfolding evaluate_all
  evaluate_all-append prev new [] us [] sus e = refl
  evaluate_all-append prev new [] us (s ∷ sts) sus e = absurd (ground arith)
  evaluate_all-append prev new (t ∷ ts) us [] sus e = absurd (ground arith)
  evaluate_all-append prev new (t ∷ ts) us (s ∷ sts) sus e =
      rw (evaluate_all-append prev new ts us sts sus (ground arith)) (
        ap
          (λ (b : Bool). (
            (evaluate 𝓕 t prev new s).0 ∷ (evaluate_all 𝓕 prev new ts sts).0
                ++ (evaluate_all 𝓕 prev new us sus).0,
            b,
          ))
          (or_assoc (evaluate 𝓕 t prev new s).1 (evaluate_all 𝓕 prev new ts sts).1
            (evaluate_all 𝓕 prev new us sus).1))

  length-evaluate_all :
      (prev : Option (Value Number)) (new : Value Number) (ts : List (LogTrigger 𝓕))
      (sts : List (TriggerState 𝓕))
      → length (evaluate_all 𝓕 prev new ts sts).0 ≡ length sts
  unfolding evaluate_all
  length-evaluate_all prev new [] sts = refl
  length-evaluate_all prev new (t ∷ ts) [] = refl
  length-evaluate_all prev new (t ∷ ts) (s ∷ sts) =
      ground (arith, length-evaluate_all prev new ts sts)

  accepted_silent :
      (prev : Option (Value Number)) (new : Value Number) (ts : List (LogTrigger 𝓕))
      (sts : List (TriggerState 𝓕))
      → all_accepted 𝓕 true ts ≡ true
      → value_as_f64 𝓕 new ≡ none
      → evaluate_all 𝓕 prev new ts sts ≡ (sts, false)
  unfolding evaluate_all all_accepted
  accepted_silent prev new [] sts h e = refl
  accepted_silent prev new (t ∷ ts) [] h e = refl
  accepted_silent prev new (t ∷ ts) (s ∷ sts) h e = rw (
    evaluate_not_numeric 𝓕 t prev new s (ground arith) e,
    accepted_silent prev new ts sts (ground arith) e,
  )

  accepted :
      (ty : String) (ts : List (LogTrigger 𝓕))
      → is_numeric_type 𝓕 ty ≡ true
      → validate_log_on 𝓕 ty ts ≡ true
      → all_accepted 𝓕 true ts ≡ true
  unfolding validate_log_on
  accepted ty ts n h = rw n at h

  -- Triggers that `validate_log_on` accepts for a numeric tag never fire on a value that is no
  -- number, and such a value changes none of their states.
  pub validated_silent :
      (ty : String) (set : TriggerSet 𝓕) (current : Option (Value Number)) (new : Value Number)
      → is_numeric_type 𝓕 ty ≡ true
      → validate_log_on 𝓕 ty set.triggers ≡ true
      → value_as_f64 𝓕 new ≡ none
      → evaluate_set 𝓕 set current new ≡ (set, false)
  unfolding evaluate_set
  validated_silent ty set current new n h e = rw (
      accepted_silent (or_else current set.default) new set.triggers set.states
        (accepted ty set.triggers n h) e)

  -- A set that has one state for each of its triggers keeps its triggers and one state for each.
  pub evaluate_set_states :
      (set : TriggerSet 𝓕) (current : Option (Value Number)) (new : Value Number)
      → length set.states ≡ length set.triggers
      → (length (evaluate_set 𝓕 set current new).0.states
          ≡ length (evaluate_set 𝓕 set current new).0.triggers)
        × ((evaluate_set 𝓕 set current new).0.triggers ≡ set.triggers)
  unfolding evaluate_set
  evaluate_set_states set current new h =
      (length-evaluate_all (or_else current set.default) new set.triggers set.states ∙ h, refl)
