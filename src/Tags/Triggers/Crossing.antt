-- ===== src/Tags/Triggers/Crossing.antt =====
-- doover/src/tags/triggers.rs, `evaluate_crossing`: sides, hysteresis, directions.
use doover_rs.Base.{
  ◌≡◌, refl, ap, Bool, false, ◌||◌, Option, none, some, List, [], ◌∷◌, arith, ◌⊎◌, unwrap_or, map,
}
use doover_rs.Json.{Value}
use doover_rs.Tags.Triggers.{
  Floats, TriggerState, CrossDirection, both, rise_only, fall_only, evaluate, evaluate_crossing,
  cross_one, cross_all, value_as_f64, cross, rise, fall, crossed,
}

module _ (𝓕 : Floats) where
  open 𝓕 use {Number, F64, ge, sub, add, div, two}

  -- The value lies strictly inside the band of every threshold.
  abbrev pub InsideBand : F64 → F64 → List F64 → Type 0
  InsideBand half_band new [] = Unit
  InsideBand half_band new (t ∷ ts) =
      (ge new (add t half_band) ≡ false)
      × (ge (sub t half_band) new ≡ false)
      × InsideBand half_band new ts

  -- No threshold has the value at or beyond both of its bounds.
  abbrev pub OneSided : F64 → F64 → List F64 → Type 0
  OneSided half_band new [] = Unit
  OneSided half_band new (t ∷ ts) =
      ((ge new (add t half_band) ≡ false) ⊎ (ge (sub t half_band) new ≡ false))
      × OneSided half_band new ts

  cross_all_cons :
      (h : F64) (d : CrossDirection) (new : F64) (s : Bool) (sides : List Bool) (t : F64)
      (ts : List F64)
      → cross_all 𝓕 h d new (s ∷ sides) (t ∷ ts) ≡ (
        (cross_one 𝓕 h d new s t).0 ∷ (cross_all 𝓕 h d new sides ts).0,
        (cross_one 𝓕 h d new s t).1 || (cross_all 𝓕 h d new sides ts).1,
      )
  unfolding cross_all
  cross_all_cons h d new s sides t ts = refl

  cross_all_inside :
      (h : F64) (d : CrossDirection) (new : F64) (sides : List Bool) (ts : List F64)
      → InsideBand h new ts
      → cross_all 𝓕 h d new sides ts ≡ (sides, false)
  unfolding cross_all
  cross_all_inside h d new [] ts i = refl
  cross_all_inside h d new (s ∷ sides) [] i = refl
  cross_all_inside h d new (s ∷ sides) (t ∷ ts) i =
      rw (i.0, i.1, cross_all_inside h d new sides ts i.2)

  cross_one_again :
      (h : F64) (d : CrossDirection) (new : F64) (s : Bool) (t : F64)
      → (ge new (add t h) ≡ false) ⊎ (ge (sub t h) new ≡ false)
      → cross_one 𝓕 h d new (cross_one 𝓕 h d new s t).0 t ≡ ((cross_one 𝓕 h d new s t).0, false)
  unfolding cross_one
  cross_one_again h d new s t o = ground arith

  cross_all_again :
      (h : F64) (d : CrossDirection) (new : F64) (sides : List Bool) (ts : List F64)
      → OneSided h new ts
      → cross_all 𝓕 h d new (cross_all 𝓕 h d new sides ts).0 ts
        ≡ ((cross_all 𝓕 h d new sides ts).0, false)
  cross_all_again h d new [] ts o = unfold cross_all in refl
  cross_all_again h d new (s ∷ sides) [] o = unfold cross_all in refl
  cross_all_again h d new (s ∷ sides) (t ∷ ts) o =
      rw (cross_all_cons, cross_all_cons)
        (rw (cross_one_again h d new s t o.0, cross_all_again h d new sides ts o.1))

  -- The two one-way directions take the same sides as `both`, which fires where one of them does.
  cross_all_both :
      (h : F64) (new : F64) (sides : List Bool) (ts : List F64)
      → ((cross_all 𝓕 h rise_only new sides ts).0 ≡ (cross_all 𝓕 h both new sides ts).0)
        × ((cross_all 𝓕 h fall_only new sides ts).0 ≡ (cross_all 𝓕 h both new sides ts).0)
        × ((cross_all 𝓕 h both new sides ts).1 ≡ (
            (cross_all 𝓕 h rise_only new sides ts).1 || (cross_all 𝓕 h fall_only new sides ts).1))
  unfolding cross_all
  cross_all_both h new [] ts = (refl, refl, refl)
  cross_all_both h new (s ∷ sides) [] = (refl, refl, refl)
  cross_all_both h new (s ∷ sides) (t ∷ ts) = ground (arith, cross_all_both h new sides ts)

  -- Seeing the same number again, a crossing trigger neither fires nor moves, unless the number is
  -- at or beyond both bounds of a threshold.
  pub evaluate_crossing_again :
      (ts : List F64) (band : F64) (d : CrossDirection) (new : Value Number) (x : F64)
      (state : TriggerState 𝓕)
      → value_as_f64 𝓕 new ≡ some x
      → OneSided (div band two) x ts
      → evaluate_crossing 𝓕 ts band d new (evaluate_crossing 𝓕 ts band d new state).0
        ≡ ((evaluate_crossing 𝓕 ts band d new state).0, false)
  unfolding evaluate_crossing
  evaluate_crossing_again ts band d new x state e o = rw e (
      ap (λ (r : List Bool × Bool). (record state { sides = some r.0 }, r.1))
        (cross_all_again (div band two) d x _ ts o))

  -- Strictly inside the band of every threshold a crossing trigger does not fire, and keeps the side
  -- of each threshold: this is the hysteresis.
  pub evaluate_crossing_inside :
      (ts : List F64) (band : F64) (d : CrossDirection) (new : Value Number) (x : F64)
      (state : TriggerState 𝓕) (sides : List Bool)
      → state.sides ≡ some sides
      → value_as_f64 𝓕 new ≡ some x
      → InsideBand (div band two) x ts
      → ((evaluate_crossing 𝓕 ts band d new state).0.sides ≡ some sides)
        × ((evaluate_crossing 𝓕 ts band d new state).1 ≡ false)
  unfolding evaluate_crossing
  evaluate_crossing_inside ts band d new x state sides s e i =
      rw (e, s, cross_all_inside (div band two) d x sides ts i) (refl, refl)

  -- `Cross` fires exactly when `Rise` or `Fall` with the same thresholds and band fires, and the three
  -- agree on the sides that they record.
  pub evaluate_cross_split :
      (ts : List F64) (band : F64) (prev : Option (Value Number)) (new : Value Number)
      (state : TriggerState 𝓕)
      → ((evaluate 𝓕 (cross ts band) prev new state).1 ≡ (
          (evaluate 𝓕 (rise ts band) prev new state).1
          || (evaluate 𝓕 (fall ts band) prev new state).1))
        × ((evaluate 𝓕 (rise ts band) prev new state).0
            ≡ (evaluate 𝓕 (cross ts band) prev new state).0)
        × ((evaluate 𝓕 (fall ts band) prev new state).0
            ≡ (evaluate 𝓕 (cross ts band) prev new state).0)
  unfolding evaluate
  evaluate_cross_split ts band prev new state = split (value_as_f64 𝓕 new)
    where
      split :
          (n : Option F64)
          → ((crossed 𝓕 state (div band two) both ts n).1 ≡ (
              (crossed 𝓕 state (div band two) rise_only ts n).1
              || (crossed 𝓕 state (div band two) fall_only ts n).1))
            × ((crossed 𝓕 state (div band two) rise_only ts n).0
                ≡ (crossed 𝓕 state (div band two) both ts n).0)
            × ((crossed 𝓕 state (div band two) fall_only ts n).0
                ≡ (crossed 𝓕 state (div band two) both ts n).0)
      split none = (refl, refl, refl)
      split (some x) =
          let facts =
            cross_all_both (div band two) x (unwrap_or state.sides (map (λ _. false) ts)) ts in
          (
            facts.2,
            ap (λ r. record state { sides = some r }) facts.0,
            ap (λ r. record state { sides = some r }) facts.1,
          )
