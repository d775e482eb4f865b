-- ===== src/Examples/Invocation.antt =====
-- Examples of the invocations of a processor.
use doover_rs.Base.{ℕ, suc, ◌≡◌, ◌++◌, refl, true, none, some, [], ◌∷◌}
use doover_rs.Errors.{ok, err}
use doover_rs.Json.{Value, Map, null, string, number, object, end, entry}
use doover_rs.Cloud.{set_invoking_channel}
use doover_rs.Processor.Tags.{reset}
use doover_rs.Processor.Invocation.{
  default_config, Live, Context, Hooks, Machine, done, Handler, end_of,
}
use doover_rs.Processor.Setup.{Cloudlet, setup_context}
use doover_rs.Processor.Runner.{dispatch_invocation, commit_phase}
use doover_rs.Processor.Summary.{initial_live, initial_state}
use doover_rs.Processor.Pipeline.{close_call, until_close, traced, Called}
use doover_rs.Processor.Pipeline.Order.{dispatch_invocation-Called}
use doover_rs.Processor.Pipeline.Upgrade.{IsUpgraded, setup_context-IsUpgraded}
use doover_rs.Processor.Pipeline.Commit.{IsCommitted, dispatch_invocation-IsCommitted}
use doover_rs.Processor.Pipeline.Foreign.{foreign_write, commit_phase-foreign}
use doover_rs.Base.Text.{split}
use doover_rs.Cloud.Backend.{periodic_unknown}
use doover_rs.Notifications.{opt_in, application}
use doover_rs.Notifications.Topics.{split-application}
use doover_rs.Processor.Context.{PingOptions, ping_connection, stored_after, updated_config}
use doover_rs.Processor.Context.Pings.{ping_connection-stored}
use doover_rs.Examples.Cloud.{readings, flaky, client}
use doover_rs.Examples.Processor.{written}

abbrev cloudlet : Cloudlet ℕ
cloudlet = record {
  server = flaky;
  readings = readings;
  print_int = λ n. "1";
  deserialize = λ v. none;
}

-- A processor that counts the events that it handles.
abbrev counted : {E : Type 0} → Handler ℕ ℕ E
counted ctx e (n, live) = ((suc n, live), ok done)

abbrev hooks : Hooks ℕ ℕ
hooks = record {
  pre_hook_filter = λ payload n. (n, true);
  setup = λ ctx s. (s, ok tt);
  post_setup_filter = λ ctx payload s. (s, true);
  close = λ ctx s. (s, ok tt);
  on_message_create = counted;
  on_aggregate_update = counted;
  on_alarm_trigger = counted;
  on_deployment = counted;
  on_schedule = counted;
  on_ingestion_endpoint = counted;
  on_manual_invoke = counted;
  parse_ingestion_payload = λ n text. ok null;
}

-- {"agent_id": 7, "app_key": "app", "token": "full"}
abbrev upgrade : Value ℕ
upgrade = object (
    entry "agent_id" (number 7)
      (entry "app_key" (string "app") (entry "token" (string "full") end)))

-- {"op": "on_deployment", "token": "first", "d": {"upgrade": ...}}
abbrev deployed : Value ℕ
deployed = object (
    entry "op" (string "on_deployment")
      (entry "token" (string "first") (entry "d" (object (entry "upgrade" upgrade end)) end)))

abbrev machine : {P : Type 0} → P → Machine ℕ P
machine p = record {
  processor = p;
  live = initial_live client;
  state = initial_state none deployed;
}

dispatch_invocation-Called_example :
    Called [] until_close
      (until_close ++ close_call ∷ [])
      (dispatch_invocation (traced hooks) cloudlet deployed (machine (0, [])))
dispatch_invocation-Called_example =
    dispatch_invocation-Called hooks cloudlet deployed (machine (0, []))

setup_context-IsUpgraded_example :
    IsUpgraded {P = ℕ}
      (machine 0)
      "first"
      (setup_context cloudlet (object (entry "upgrade" upgrade end)) "first" none (machine 0))
setup_context-IsUpgraded_example =
    setup_context-IsUpgraded cloudlet (object (entry "upgrade" upgrade end)) "first" none
      (machine 0)

dispatch_invocation-IsCommitted_example :
    IsCommitted (dispatch_invocation hooks cloudlet deployed (machine 0))
dispatch_invocation-IsCommitted_example =
    dispatch_invocation-IsCommitted hooks cloudlet (λ ctx s. refl) deployed (machine 0)

-- {"other": {"level": 1}, "app": {"level": 2}}
abbrev two_apps : Map ℕ
two_apps =
    entry "other" (object (entry "level" (number 1) end))
      (entry "app" (object (entry "level" (number 2) end)) end)

-- A run that an event of the tags' channel triggered.
abbrev triggered : Machine ℕ ℕ
triggered = record (machine 0) {
  live = record (initial_live (set_invoking_channel (some "tag_values") client)) {
    tags = record written { tag_values = object two_apps; update_external_tags = true };
  };
}

commit_phase-foreign_example : commit_phase cloudlet "app" triggered ≡ (
  record triggered { live = record triggered.live { tags = reset triggered.live.tags; sent = [] } },
  err (end_of (λ n. "1") foreign_write),
)
unfolding doover_rs.Json.get
commit_phase-foreign_example =
    commit_phase-foreign cloudlet "app" triggered two_apps "other"
      (object (entry "level" (number 1) end)) refl refl refl refl refl refl refl refl

-- {"offline_after": 60}
abbrev connected : Live ℕ
connected = record (initial_live client) {
  connection_config = object (entry "offline_after" (number 60) end);
}

abbrev identity : Context ℕ
identity = record {
  agent_id = 7;
  app_key = "app";
  app_id = none;
  organisation_id = none;
  display_name = none;
  deployment_config = null;
  proc_config = default_config;
}

-- Ten seconds from the contact to the deadline.
abbrev ten_seconds : PingOptions
ten_seconds = record {
  online_at_ms = some 5000;
  connection_status = periodic_unknown;
  offline_at_ms = some 15000;
}

ping_connection-stored_example :
    (stored_after readings
        (ping_connection cloudlet identity 6000 6000 ten_seconds connected).0.connection_config
      ≡ some 10)
    × (updated_config readings 10
          (ping_connection cloudlet identity 6000 6000 ten_seconds connected).0.connection_config
        ≡ none)
ping_connection-stored_example =
    ping_connection-stored cloudlet identity 6000 6000 ten_seconds connected 15000 _ (λ n. refl)
      refl refl refl

split-application_example :
    split 47 "dev/applications/opt-in/pump_1/leak"
    ≡ "dev" ∷ "applications" ∷ "opt-in" ∷ "pump_1" ∷ "leak" ∷ []
unfolding application doover_rs.Notifications.validate_topic_segment
    doover_rs.Notifications.is_segment doover_rs.Notifications.all_chars
split-application_example =
    split-application (λ s. s) "pump_1" "leak" "dev/applications/opt-in/pump_1/leak" opt_in refl
