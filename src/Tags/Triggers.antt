-- ===== src/Tags/Triggers.antt =====
-- doover/src/tags/triggers.rs: the `log_on` rules of a tag and their private state.
-- A panic of the source is `none`.
pub mod Crossing
pub mod Delta
pub mod Sets
use doover_rs.Base.{
  ◌≡◌, String, Bool, true, false, not, ◌&&◌, ◌||◌, Option, none, some, List, [], ◌∷◌, str_eq,
  unwrap_or, or_else, and_then, length, if◌then◌else◌, map,
}
use doover_rs.Diff.{Numbers}
use doover_rs.Json.{Value, null, bool, number, string, array, object}

-- The operations of `f64` that the triggers use, and `==` of `serde_json::Value`.
pub record Floats : Type 1 where
  pub numbers : Numbers
  pub open numbers use *
  pub zero : F64
  pub two : F64
  pub hundred : F64
  pub add : F64 → F64 → F64
  pub sub : F64 → F64 → F64
  pub mul : F64 → F64 → F64
  pub div : F64 → F64 → F64
  pub abs : F64 → F64
  pub ge : F64 → F64 → Bool
  pub lt : F64 → F64 → Bool
  pub value_eq : Value Number → Value Number → Bool

pub data CrossDirection : Type 0 where
  both rise_only fall_only : CrossDirection

module _ (𝓕 : Floats) where
  open 𝓕 use {
    Number, F64, zero, two, hundred, sub, mul, div, abs, ge, f64_eq, as_f64, value_eq, add as addf,
  }

  pub data LogTrigger : Type 0 where
    cross : List F64 → F64 → LogTrigger
    rise : List F64 → F64 → LogTrigger
    fall : List F64 → F64 → LogTrigger
    delta_amount : F64 → LogTrigger
    delta_percent : F64 → LogTrigger
    any_change : LogTrigger
    enter : Value Number → LogTrigger
    exit : Value Number → LogTrigger

  -- `sort_by` with `partial_cmp().expect(…)`: two thresholds that do not compare are a panic.
  insert_sorted : F64 → List F64 → Option (List F64)
  insert_sorted t [] = some (t ∷ [])
  insert_sorted t (x ∷ xs) =
      if ge x t
      then some (t ∷ x ∷ xs)
      else if ge t x
      then and_then (insert_sorted t xs) (λ r. some (x ∷ r))
      else none

  sort_thresholds : List F64 → Option (List F64)
  sort_thresholds [] = some []
  sort_thresholds (t ∷ ts) = and_then (sort_thresholds ts) (insert_sorted t)

  -- Panics on an empty list.
  unfoldable pub crossing_thresholds : List F64 → Option (List F64)
  unfolding insert_sorted sort_thresholds
  crossing_thresholds [] = none
  crossing_thresholds ts = sort_thresholds ts

  -- `LogTrigger::deadband`: panics on a trigger that is no crossing.
  unfoldable pub deadband : LogTrigger → F64 → Option LogTrigger
  deadband (cross ts _) d = some (cross ts d)
  deadband (rise ts _) d = some (rise ts d)
  deadband (fall ts _) d = some (fall ts d)
  deadband _ d = none

  unfoldable pub is_numeric_trigger : LogTrigger → Bool
  is_numeric_trigger (cross _ _) = true
  is_numeric_trigger (rise _ _) = true
  is_numeric_trigger (fall _ _) = true
  is_numeric_trigger (delta_amount _) = true
  is_numeric_trigger (delta_percent _) = true
  is_numeric_trigger _ = false

  pub record TriggerState : Type 0 where
    pub sides : Option (List Bool)
    pub last_logged : Option F64

  unfoldable pub json_eq : Value Number → Value Number → Bool
  json_eq (number x) (number y) = elim (as_f64 x) [
    | none ↦ elim (as_f64 y) [ none ↦ true | some _ ↦ false ]
    | some a ↦ elim (as_f64 y) [ none ↦ false | some b ↦ f64_eq a b ]
  ]
  json_eq a b = value_eq a b

  abbrev pub fires_up : CrossDirection → Bool
  fires_up fall_only = false
  fires_up _ = true

  abbrev pub fires_down : CrossDirection → Bool
  fires_down rise_only = false
  fires_down _ = true

  -- One threshold: the side after the value, and whether it fires.
  unfoldable pub cross_one : F64 → CrossDirection → F64 → Bool → F64 → Bool × Bool
  cross_one half_band direction new side t =
      if ge new (addf t half_band) && not side
      then (true, fires_up direction)
      else if ge (sub t half_band) new && side
      then (false, fires_down direction)
      else (side, false)

  -- The loop over the sides and their thresholds.
  unfoldable pub cross_all : F64 → CrossDirection → F64 → List Bool → List F64 → List Bool × Bool
  unfolding cross_one
  cross_all half_band direction new (side ∷ sides) (t ∷ ts) =
      let (side', fired) = cross_one half_band direction new side t in
      let (sides', more) = cross_all half_band direction new sides ts in
      (side' ∷ sides', fired || more)
  cross_all half_band direction new sides ts = (sides, false)

  -- `Value::as_f64`
  abbrev pub value_as_f64 : Value Number → Option F64
  value_as_f64 (number n) = as_f64 n
  value_as_f64 _ = none

  abbrev pub crossed :
      TriggerState → F64 → CrossDirection → List F64 → Option F64 → TriggerState × Bool
  crossed state half_band direction thresholds none = (state, false)
  crossed state half_band direction thresholds (some new) =
      let (sides', fired) =
        cross_all half_band direction new (unwrap_or state.sides (map (λ _. false) thresholds))
          thresholds in
      (record state { sides = some sides' }, fired)

  unfoldable pub evaluate_crossing :
      List F64 → F64 → CrossDirection → Value Number → TriggerState → TriggerState × Bool
  evaluate_crossing thresholds band direction new state =
      crossed state (div band two) direction thresholds (value_as_f64 new)

  abbrev pub moved :
      TriggerState → (F64 → F64 → Bool) → Option F64 → Option F64 → TriggerState × Bool
  moved state fires none last = (state, false)
  moved state fires (some new) none = (record state { last_logged = some new }, true)
  moved state fires (some new) (some last) =
      if fires (abs (sub new last)) last
      then (record state { last_logged = some new }, true)
      else (state, false)

  unfoldable pub evaluate_delta :
      Value Number → TriggerState → (F64 → F64 → Bool) → TriggerState × Bool
  evaluate_delta new state fires = moved state fires (value_as_f64 new) state.last_logged

  abbrev pub percent_fires : F64 → F64 → F64 → Bool
  percent_fires percent diff last =
      if f64_eq last zero
      then not (f64_eq diff zero)
      else ge (mul (div diff (abs last)) hundred) percent

  -- `LogTrigger::evaluate`: the state after the update, and whether the trigger fires.
  unfoldable pub evaluate :
      LogTrigger → Option (Value Number) → Value Number → TriggerState → TriggerState × Bool
  unfolding evaluate_crossing evaluate_delta json_eq
  evaluate (cross ts band) prev new state = evaluate_crossing ts band both new state
  evaluate (rise ts band) prev new state = evaluate_crossing ts band rise_only new state
  evaluate (fall ts band) prev new state = evaluate_crossing ts band fall_only new state
  evaluate (delta_amount amount) prev new state =
      evaluate_delta new state (λ diff last. ge diff amount)
  evaluate (delta_percent percent) prev new state = evaluate_delta new state (percent_fires percent)
  evaluate any_change prev new state = (state, not (json_eq (unwrap_or prev null) new))
  evaluate (enter value) prev new state =
      (state, not (json_eq (unwrap_or prev null) new) && json_eq new value)
  evaluate (exit value) prev new state =
      (state, not (json_eq (unwrap_or prev null) new) && json_eq (unwrap_or prev null) value)

  abbrev pub fresh_state : TriggerState
  fresh_state = record { sides = none; last_logged = none }

  pub record TriggerSet : Type 0 where
    pub triggers : List LogTrigger
    pub states : List TriggerState
    pub default : Option (Value Number)

  -- `TriggerSet::new`
  unfoldable pub new_set : List LogTrigger → Option (Value Number) → TriggerSet
  new_set triggers default = record {
    triggers = triggers;
    states = map (λ _. fresh_state) triggers;
    default = default;
  }

  -- The loop of `TriggerSet::evaluate`, over the triggers and their states.
  unfoldable pub evaluate_all :
      Option (Value Number)
      → Value Number
      → List LogTrigger
      → List TriggerState
      → List TriggerState × Bool
  evaluate_all prev new (t ∷ ts) (st ∷ sts) =
      let (st', fired) = evaluate t prev new st in
      let (sts', more) = evaluate_all prev new ts sts in (st' ∷ sts', fired || more)
  evaluate_all prev new ts sts = (sts, false)

  -- `TriggerSet::evaluate`
  unfoldable pub evaluate_set :
      TriggerSet → Option (Value Number) → Value Number → TriggerSet × Bool
  unfolding evaluate_all
  evaluate_set set current new =
      let (states', fired) =
        evaluate_all (or_else current set.default) new set.triggers set.states in
      (record set { states = states' }, fired)

  abbrev pub is_numeric_type : String → Bool
  is_numeric_type ty = str_eq ty "number" || str_eq ty "integer" || str_eq ty "float"

  abbrev pub is_state_type : String → Bool
  is_state_type ty = str_eq ty "boolean" || str_eq ty "string"

  all_accepted : Bool → List LogTrigger → Bool
  all_accepted numeric [] = true
  all_accepted numeric (t ∷ ts) =
      (if numeric then is_numeric_trigger t else not (is_numeric_trigger t))
      && all_accepted numeric ts

  -- `validate_log_on`: false where the source panics.
  unfoldable pub validate_log_on : String → List LogTrigger → Bool
  unfolding all_accepted
  validate_log_on ty triggers =
      (is_numeric_type ty || is_state_type ty) && all_accepted (is_numeric_type ty) triggers
