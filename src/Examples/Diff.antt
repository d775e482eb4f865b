-- ===== src/Examples/Diff.antt =====
-- Examples of the diff and merge engine.
use doover_rs.Base.{arith, ◌≡◌, refl, true}
use doover_rs.Json.{object, get, at}
use doover_rs.Diff.{apply_diff, generate_diff}
use doover_rs.Diff.Pointwise.{merge_at, get-apply_diff}
use doover_rs.Diff.RoundTrip.{Matches, apply_diff-generate_diff}
use doover_rs.Diff.Equality.{FiniteNumbers}
use doover_rs.Examples.{nats, old_map, new_map}

abbrev pub nats_finite : FiniteNumbers nats
nats_finite = record { reads = λ n. (n, refl); reflexive = λ n f h. ground arith }

get-apply_diff_example :
    at (apply_diff (object old_map) (object new_map) true) "pump"
    ≡ merge_at true (get "pump" old_map) (get "pump" new_map)
unfolding get
get-apply_diff_example = get-apply_diff old_map new_map true "pump" (refl, tt)

apply_diff-generate_diff_example :
    Matches nats
      (apply_diff (object old_map) (generate_diff nats (object old_map) (object new_map) true) true)
      (object new_map)
unfolding get
apply_diff-generate_diff_example =
    apply_diff-generate_diff nats (object old_map) (object new_map)
      (refl, (refl, (refl, tt, tt)), tt)
