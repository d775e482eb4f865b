-- ===== src/Examples/Device.antt =====
-- Examples of the device: its main loop, its start and its interface.
use doover_rs.Base.{ℕ, suc, ◌≡◌, refl, String, true, false, ◌||◌, none, some, List, [], ◌∷◌}
use doover_rs.Base.Text.{append, parse_u64}
use doover_rs.Errors.{ok, err, other}
use doover_rs.Json.{Value, null, bool, number, string, object, end, entry}
use doover_rs.Events.{Event, is_message_create, is_one_shot, message_data}
use doover_rs.Ui
use doover_rs.Ui.{
  UiState, UiCommand, Backend, new_state, set_interactions, handle_event, publish_schema,
}
use doover_rs.Ui.Publish.{publish_schema_again}
use doover_rs.Ui.Commands.{IsCommand, handle_event-IsCommand}
use doover_rs.Ui.Refs.{Coercions, resolve_config_refs}
use doover_rs.Ui.Refs.Typed.{or_else, missing, boolean_true, resolve_config_refs-IsTyped}
use doover_rs.Docker.{
  Application, Outside, Runner, Action, stop, received, tick, running, app_event, run_loop,
  run_tick, apply_app_config,
}
use doover_rs.Docker.Loop.{IsHealth, run_loop-IsHealth, run_tick-settled}
use doover_rs.Docker.Boot.{CacheFile, saved_copy, boot}
use doover_rs.Docker.Restart.{boot_again}
use doover_rs.Tags.Runtime.{Request, update_aggregate}
use doover_rs.Examples.{floats, world, new_map}
use doover_rs.Examples.Tags.{waiting}

abbrev backend : Backend ℕ
backend = record { answer = λ sent r. ok tt; meanwhile = λ sent st. st; app_key = "app" }

abbrev coercions : Coercions ℕ
coercions = record {
  print = λ v. "{}";
  lower = λ s. s;
  parse_float = λ s. none;
  parse_int = λ s. some 3;
}

-- A text that tells the two schemas of the examples apart.
abbrev serialize : Value ℕ → String
serialize (object m) = "{}"
serialize _ = "null"

abbrev outside : Outside floats
outside = record {
  world = world true;
  backend = backend;
  coercions = coercions;
  serialize = serialize;
  print_int = λ n. "1";
  keep = none;
  app_key = "app";
}

abbrev pass : Action floats ℕ
pass s = (s, ok tt)

-- An app that counts its loops.
abbrev app : Application floats ℕ ℕ
app = record {
  main_loop = λ s. (record s { app = suc s.app }, ok tt);
  on_ui_command = λ cmd. pass;
  on_message_create = λ e. pass;
  on_message_update = λ e. pass;
  on_aggregate_update = λ e. pass;
  on_oneshot_message = λ e. pass;
  on_channel_sync = λ e. pass;
  on_config_update = λ c. pass;
  on_shutdown = pass;
  from_value = λ v. ok 1;
  ui_schema = λ a. (a, some (string "$config.app().level"));
}

abbrev interface : Ui.Io ℕ
interface = record { state = set_interactions ("go" ∷ []) new_state; sent = [] }

abbrev runner : Runner floats ℕ
runner = record {
  shared = record { app = 0; tags = waiting; ui = interface };
  config = object (entry "level" (number 4) end);
  agent_id = none;
  app_display_name = "";
  config_cache = none;
  healthy = false;
}

-- {"type": "rpc", "method": "go", "request": true}
abbrev command : Value ℕ
command =
    object
      (entry "type" (string "rpc") (entry "method" (string "go") (entry "request" (bool true) end)))

abbrev message : Event ℕ
message = record {
  event_name = "MessageCreate";
  channel = "ui_cmds";
  payload = object (entry "id" (number 9) (entry "data" command end));
}

run_loop-IsHealth_example :
    IsHealth outside app false true
      (run_loop outside app (received (app_event message) ∷ tick ∷ stop ∷ []) runner)
run_loop-IsHealth_example =
    run_loop-IsHealth outside app (received (app_event message) ∷ tick ∷ stop ∷ []) runner

-- The app's loop leaves the tags as they wait, and counts itself.
run_tick-settled_example :
    ((age : ℕ) × (rest : List (Request ℕ)) × ((run_tick outside app runner).0.shared.tags.sent
        ≡ update_aggregate (object new_map) age ∷ rest))
    × ((run_tick outside app runner).0.shared.tags.state.pending_aggregate ≡ object end)
    × ((run_tick outside app runner).0.shared.tags.state.dirty ≡ false)
    × ((run_tick outside app runner).0.healthy ≡ true)
    × ((run_tick outside app runner).1 ≡ running)
run_tick-settled_example =
    run_tick-settled outside app (record { quiet = λ sent st. refl; fine = λ sent r. refl }) runner
      (record runner.shared { app = 1 }) refl refl

-- {"level": 4}
abbrev app_config : Value ℕ
app_config = object (entry "level" (number 4) end)

-- {"applications": {"app": {"level": 4}}}
abbrev deployment : Value ℕ
deployment = object (entry "applications" (object (entry "app" app_config end)) end)

abbrev file : CacheFile ℕ
file = record {
  to_string_pretty = λ v. some "level";
  from_str = λ s. some app_config;
  replace = λ old text. some text;
}

abbrev keeping : Outside floats
keeping = record outside { keep = some (saved_copy file) }

abbrev configured_runner : Runner floats ℕ
configured_runner = apply_app_config app_config (record runner { config_cache = some "level" })

boot_again_example :
    (second : Runner floats ℕ) × (boot keeping app
        (λ e. "down")
        true
        (err (other "down"))
        (some app_config)
        runner
      ≡ ok (1, second))
    × (second.config ≡ app_config)
    × (second.agent_id ≡ none)
    × (second.app_display_name ≡ "")
unfolding boot apply_app_config doover_rs.Json.get
boot_again_example =
    boot_again keeping app file (λ e. "down") true deployment app_config "level" none runner
      configured_runner runner 1 (err (other "down")) refl refl refl refl refl refl refl

publish_schema_again_example :
    publish_schema backend serialize
      (object end)
      (publish_schema backend serialize (object end) interface).1
    ≡ (ok false, (publish_schema backend serialize (object end) interface).1)
unfolding publish_schema set_interactions
publish_schema_again_example =
    publish_schema_again backend serialize (λ sent st. refl) (object end) interface true refl

handle_event-IsCommand_example :
    ((is_message_create message || is_one_shot message) ≡ true)
    × ((handle_event some parse_u64 "app" message interface.state).0 ≡ interface.state)
    × (d : Value ℕ) × (message_data message ≡ some d)
    × IsCommand some parse_u64 "app" interface.state d
        (record { name = "go"; value = bool true; message_id = some 9 })
unfolding handle_event set_interactions doover_rs.Json.get
handle_event-IsCommand_example =
    handle_event-IsCommand some parse_u64 "app" message interface.state
      (record { name = "go"; value = bool true; message_id = some 9 }) refl

resolve_config_refs-IsTyped_example :
    resolve_config_refs coercions runner.config (
      string (
        append "$config.app()."
          (append "hidden" (append ":" (append "boolean" (append ":" "true"))))))
    ≡ bool true
unfolding doover_rs.Json.get
resolve_config_refs-IsTyped_example =
    resolve_config_refs-IsTyped coercions runner.config "hidden" (or_else "boolean" "true")
      (string "true") (bool true) (refl, (refl, (refl, (refl, (refl, (refl, tt)))))) (λ e. cc)
      ((refl, (refl, (refl, (refl, (refl, (refl, (refl, tt))))))), (λ e. cc), (λ e. cc))
      (missing "true" refl) (boolean_true "true" refl)
