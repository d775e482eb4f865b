-- ===== src/Examples/Processor.antt =====
-- Examples of the processor's tags.
use doover_rs.Base.{
  ◌≡◌, refl, String, Bool, true, false, Option, none, some, List, [], ◌∷◌, ℕ, str_eq,
}
use doover_rs.Json.{Value, Map, number, object, end, entry, get}
use doover_rs.Diff.{python_json_eq}
use doover_rs.Processor.Tags.{
  TagState, SetProcessorTagOptions, never, set_tag_with, get_tag_scoped, commit_tags_with,
}
use doover_rs.Processor.Tags.Writes.{nested, set_tag_with_changed}
use doover_rs.Processor.Tags.Commit.{commit_tags_with_twice}
use doover_rs.Examples.{nats}

-- {"app": {"level": 1}}
abbrev app_root : Map ℕ
app_root = entry "app" (object (entry "level" (number 1) end)) end

abbrev started : TagState ℕ
started = record {
  tag_values = object app_root;
  update_tags = false;
  record_tag_update = true;
  update_external_tags = false;
  log_mode = never;
  dirty = end;
  touched = end;
}

abbrev plain : SetProcessorTagOptions
plain = record { app_key = none; log = false }

-- The state with a write to be committed.
abbrev pub written : TagState ℕ
written = record started { update_tags = true; dirty = app_root; touched = app_root }

set_tag_with_changed_example :
    (get_tag_scoped
        (set_tag_with (python_json_eq nats) "app" "level" (number 2) plain started)
        "app"
        "level"
      ≡ some (number 2))
    × (nested
          (set_tag_with (python_json_eq nats) "app" "level" (number 2) plain started).dirty
          "app"
          "level"
        ≡ some (number 2))
    × (nested
          (set_tag_with (python_json_eq nats) "app" "level" (number 2) plain started).touched
          "app"
          "level"
        ≡ some (number 2))
    × ((set_tag_with (python_json_eq nats) "app" "level" (number 2) plain started).update_tags
        ≡ true)
unfolding get_tag_scoped get python_json_eq doover_rs.Base.Int.int_eq
set_tag_with_changed_example =
    set_tag_with_changed (python_json_eq nats) "app" started app_root "level" (number 2) plain refl
      refl

commit_tags_with_twice_example :
    commit_tags_with (λ r. true) "app" false (commit_tags_with (λ r. false) "app" false written).0
    ≡ ((commit_tags_with (λ r. false) "app" false written).0, [], true)
commit_tags_with_twice_example = commit_tags_with_twice (λ r. false) "app" false (λ r. true) written

-- A printer and a parser that know one payload.
abbrev known : String → Option (Value ℕ)
known s = elim (str_eq s "{}") [ true ↦ some (object end) | false ↦ none ]
