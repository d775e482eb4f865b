-- ===== src/Examples/Tags.antt =====
-- Examples of the tags: paths, log triggers and the buffered writes.
use doover_rs.Base.{
  eq_iff, ◌≡◌, ◌≢◌, refl, String, true, false, ◌||◌, none, some, List, [], ◌∷◌, ℕ, inr,
}
use doover_rs.Json.{Value, number, object, end, get}
use doover_rs.Tags.{resolve, wrap, strip_paths}
use doover_rs.Tags.Strip.{resolve-strip_paths}
use doover_rs.Tags.Triggers.{
  cross, rise, fall, delta_amount, both, TriggerState, TriggerSet, evaluate, evaluate_crossing,
}
use doover_rs.Tags.Triggers.Crossing.{
  evaluate_crossing_again, evaluate_crossing_inside, evaluate_cross_split,
}
use doover_rs.Tags.Runtime.{
  is_empty_object, Io, SetTagOptions, set_tag, get_tag, update_aggregate, flush_tags,
}
use doover_rs.Tags.Runtime.Reads.{ReadsBack, get_tag-set_tag}
use doover_rs.Tags.Runtime.Flush.{taken, flush_tags_failure}
use doover_rs.Tags.Runtime.Published.{set_tag-flush_tags}
use doover_rs.Subscriptions.{HubState}
use doover_rs.Tags.Commit.Clean.{commit_tags_lem}
use doover_rs.Tags.Commit.{commit_tags}
use doover_rs.Examples.{floats, world, old_map, new_map}

pump≢level : ◌≢◌ {A = String} "pump" "level"
pump≢level h = let clash : false ≡ true = (eq_iff "pump" "level").1 h in cc

resolve-strip_paths_example :
    resolve
      ("pump" ∷ "on" ∷ [])
      (strip_paths (object old_map) (wrap ("pump" ∷ "on" ∷ []) (number 9)))
    ≡ none
resolve-strip_paths_example =
    resolve-strip_paths "pump" ("on" ∷ []) (object old_map) (number 9) refl

abbrev below : TriggerState floats
below = record { sides = some (false ∷ []); last_logged = some 7 }

evaluate_crossing_again_example :
    evaluate_crossing floats
      (50 ∷ [])
      4
      both
      (number 60)
      (evaluate_crossing floats (50 ∷ []) 4 both (number 60) below).0
    ≡ ((evaluate_crossing floats (50 ∷ []) 4 both (number 60) below).0, false)
evaluate_crossing_again_example =
    evaluate_crossing_again floats (50 ∷ []) 4 both (number 60) 60 below refl (inr refl, tt)

evaluate_crossing_inside_example :
    ((evaluate_crossing floats (50 ∷ []) 4 both (number 51) below).0.sides ≡ some (false ∷ []))
    × ((evaluate_crossing floats (50 ∷ []) 4 both (number 51) below).1 ≡ false)
evaluate_crossing_inside_example =
    evaluate_crossing_inside floats (50 ∷ []) 4 both (number 51) 51 below (false ∷ []) refl refl
      (refl, refl, tt)

evaluate_cross_split_example :
    ((evaluate floats (cross (50 ∷ []) 4) none (number 60) below).1 ≡ (
      (evaluate floats (rise (50 ∷ []) 4) none (number 60) below).1
      || (evaluate floats (fall (50 ∷ []) 4) none (number 60) below).1))
    × ((evaluate floats (rise (50 ∷ []) 4) none (number 60) below).0
        ≡ (evaluate floats (cross (50 ∷ []) 4) none (number 60) below).0)
    × ((evaluate floats (fall (50 ∷ []) 4) none (number 60) below).0
        ≡ (evaluate floats (cross (50 ∷ []) 4) none (number 60) below).0)
evaluate_cross_split_example = evaluate_cross_split floats (50 ∷ []) 4 none (number 60) below

-- A crossing and a delta rule of one tag.
abbrev rules : TriggerSet floats
rules = record {
  triggers = cross (50 ∷ []) 4 ∷ delta_amount 2 ∷ [];
  states = below ∷ below ∷ [];
  default = none;
}

abbrev buffered : SetTagOptions
buffered = record { only_if_changed = true; flush = false; log = false }

-- The cache holds `old_map`, and `new_map` waits to be sent.
abbrev pub waiting : Io floats
waiting = record {
  state = record {
    tag_values = object old_map;
    pending_aggregate = object new_map;
    pending_log = object end;
    pending_immediate_log = object end;
    dirty = true;
    last_log_flush = none;
    live_tag_keys = [];
    ui_sub = object end;
    subscriptions = [];
    log_triggers = [];
  };
  sent = [];
}

get_tag-set_tag_example :
    ((set_tag floats (world true) "app" "level" (number 4) buffered waiting).0 ≡ true)
    × ((set_tag floats (world true) "app" "level" (number 4) buffered waiting).1.sent ≡ [])
    × ReadsBack floats true
        (set_tag floats (world true) "app" "level" (number 4) buffered waiting).1.state
        "app"
        "level"
        (number 4)
unfolding get
get_tag-set_tag_example =
    get_tag-set_tag floats "app" "level" (number 4) refl tt (world true) buffered waiting refl
      (refl, (refl, tt, tt), tt)

flush_tags_failure_example :
    ((flush_tags floats (world false) waiting).1.state ≡ taken floats (world false) waiting.state)
    × (flush_tags floats (world false) (flush_tags floats (world false) waiting).1
        ≡ (true, (flush_tags floats (world false) waiting).1))
unfolding flush_tags
flush_tags_failure_example = flush_tags_failure floats (world false) waiting (λ sent st. refl) refl

abbrev eager : SetTagOptions
eager = record { only_if_changed = false; flush = false; log = false }

abbrev written : Io floats
written = (set_tag floats (world true) "app" "level" (number 4) eager waiting).1

abbrev flushed : Io floats
flushed = (flush_tags floats (world true) written).1

set_tag-flush_tags_example :
    ((payload : Value ℕ) × (age : ℕ) × (flushed.sent ≡ update_aggregate payload age ∷ [])
      × (resolve ("app" ∷ "level" ∷ []) payload ≡ some (number 4)))
    × (get_tag floats flushed.state "app" "level" ≡ some (number 4))
    × (flush_tags floats (world true) flushed ≡ (true, flushed))
unfolding flush_tags get set_tag doover_rs.Tags.Runtime.buffer_tags doover_rs.Tags.scoped
set_tag-flush_tags_example =
    set_tag-flush_tags floats (world true) "app" "level" (number 4) refl tt eager waiting
      (λ sent st. refl) (λ e. cc) refl refl (refl, (refl, tt, tt), tt) refl

abbrev history_points : List (ℕ × Value ℕ)
history_points = (10, object new_map) ∷ (20, object end) ∷ (30, object old_map) ∷ []

commit_tags_lem_example :
    ((commit_tags floats (world true) waiting).0 ≡ true)
    × ((commit_tags floats (world true) waiting).1.state.dirty ≡ false)
    × (is_empty_object (commit_tags floats (world true) waiting).1.state.pending_immediate_log
        ≡ true)
commit_tags_lem_example =
    commit_tags_lem floats (world true) (record { quiet = λ sent st. refl; fine = λ sent r. refl })
      waiting

abbrev fresh_hub : HubState ℕ
fresh_hub = record { channels = []; aggregates = [] }
