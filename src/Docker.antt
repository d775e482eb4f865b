-- ===== src/Docker.antt =====
-- doover/src/docker/application.rs: the runner of a device's app, over the tags, the interface and the
-- configuration. The app's own methods are parameters: each may change the app, and act on the tags and on the
-- interface. The runner itself is modelled on the list of what its `select!` picks.
pub mod Boot
pub mod Loop
pub mod Restart
use doover_rs.Base.{
  ℕ, String, Bool, true, false, Option, none, some, List, [], ◌∷◌, and_then, unwrap_or,
  if◌then◌else◌,
}
use doover_rs.Base.Int.{ℤ}
use doover_rs.Errors.{DooverError, error_text, Result, ok, err}
use doover_rs.Json.{Value, object, end, at}
use doover_rs.Rpc.{as_str}
use doover_rs.Events.{
  Event, aggregate_data, is_message_create, is_message_update, is_aggregate_update, is_one_shot,
  is_channel_sync,
}
use doover_rs.Ui
use doover_rs.Ui.{UiCommand, Backend, set_value, respond_success, respond_error, publish_schema}
use doover_rs.Ui.Refs.{Coercions, resolve_config_refs}
use doover_rs.Tags.Triggers.{Floats}
use doover_rs.Tags.Runtime
use doover_rs.Tags.Runtime.{World}
use doover_rs.Tags.Commit.{commit_tags}

pub data RunnerEvent (N : Type 0) : Type 0 where
  app_event : Event N → RunnerEvent N
  config_update : Event N → RunnerEvent N
  ui_command : UiCommand N → RunnerEvent N

-- What the loop picks next: the stop signal, an event or a tick.
pub data Selected (N : Type 0) : Type 0 where
  stop : Selected N
  received : RunnerEvent N → Selected N
  tick : Selected N

-- How a loop stands: it goes on, was stopped, or ended with an error.
pub data Ended : Type 0 where
  running stopped crashed : Ended

module _ (𝓕 : Floats) where
  open 𝓕 use {Number}

  -- What a method of the app acts on.
  pub record Shared (A : Type 0) : Type 0 where
    pub app : A
    pub tags : Runtime.Io 𝓕
    pub ui : Ui.Io 𝓕.Number

  -- A method of the app, and the app: its typed configuration is `C`.
  abbrev pub Action : Type 0 → Type 0
  Action A = Shared A → Shared A × Result DooverError (Unit {0})

  pub record Application (A C : Type 0) : Type 0 where
    pub main_loop : Action A
    pub on_ui_command : UiCommand 𝓕.Number → Action A
    pub on_message_create : Event 𝓕.Number → Action A
    pub on_message_update : Event 𝓕.Number → Action A
    pub on_aggregate_update : Event 𝓕.Number → Action A
    pub on_oneshot_message : Event 𝓕.Number → Action A
    pub on_channel_sync : Event 𝓕.Number → Action A
    pub on_config_update : C → Action A
    pub on_shutdown : Action A
    pub from_value : Value 𝓕.Number → Result DooverError C
    pub ui_schema : A → A × Option (Value 𝓕.Number)

  pub record Runner (A : Type 0) : Type 0 where
    pub shared : Shared A
    pub config : Value 𝓕.Number
    pub agent_id : Option (Value 𝓕.Number)
    pub app_display_name : String
    pub config_cache : Option String
    pub healthy : Bool

  -- What the runner needs of the outside: the clients of the tags and of the interface, how values print and
  -- numbers are coerced, and the file of the configuration, if it is kept: what is in it after a write.
  pub record Outside : Type 0 where
    pub world : World 𝓕
    pub backend : Backend 𝓕.Number
    pub coercions : Coercions 𝓕.Number
    pub serialize : Value 𝓕.Number → String
    pub print_int : ℤ → String
    pub keep : Option (Option String → Value 𝓕.Number → Option String)
    pub app_key : String

-- The app's part of a deployment configuration.
abbrev pub app_part : {N : Type 0} → String → Value N → Option (Value N)
app_part app_key agg = and_then (at agg "applications") (λ a. at a app_key)

module _ {𝓕 : Floats} {A : Type 0} where
  open 𝓕 use {Number}

  abbrev pub with_shared : Shared 𝓕 A → Runner 𝓕 A → Runner 𝓕 A
  with_shared s r = record r { shared = s }

  unfoldable pub apply_app_config : Value Number → Runner 𝓕 A → Runner 𝓕 A
  apply_app_config app_config r = record r {
    config = app_config;
    agent_id = at app_config "AGENT_ID";
    app_display_name = unwrap_or (and_then (at app_config "APP_DISPLAY_NAME") as_str) "";
  }

  abbrev pub write_config_cache :
      Option (Option String → Value Number → Option String) → Value Number → Runner 𝓕 A → Runner 𝓕 A
  write_config_cache none app_config r = r
  write_config_cache (some write) app_config r = record r {
    config_cache = write r.config_cache app_config;
  }

  module _ (𝓞 : Outside 𝓕) where
    open 𝓞 use {world, backend, coercions, serialize, print_int, keep, app_key}

    abbrev pub apply_part : Option (Value Number) → Runner 𝓕 A → Runner 𝓕 A
    apply_part (some app_config) r =
        apply_app_config app_config (write_config_cache keep app_config r)
    apply_part none r = apply_app_config (object end) r

    unfoldable pub apply_deployment_config : Value Number → Runner 𝓕 A → Runner 𝓕 A
    unfolding apply_app_config
    apply_deployment_config agg r = apply_part (app_part app_key agg) r

    module _ {C : Type 0} (𝓐 : Application 𝓕 A C) where
      -- A method whose error is only logged.
      abbrev pub run_action : Action 𝓕 A → Runner 𝓕 A → Runner 𝓕 A
      run_action f r = with_shared (f r.shared).0 r

      abbrev pub on_config : Result DooverError C → Runner 𝓕 A → Runner 𝓕 A
      on_config (ok config) r = run_action (𝓐.on_config_update config) r
      on_config (err e) r = r

      abbrev pub update_config : Option (Value Number) → Runner 𝓕 A → Runner 𝓕 A
      update_config none r = r
      update_config (some agg) r =
          let applied = apply_deployment_config agg r in
          on_config (𝓐.from_value applied.config) applied

      abbrev pub with_ui : Ui.Io Number → Shared 𝓕 A → Shared 𝓕 A
      with_ui io s = record s { ui = io }

      -- The answer to a command; a request that fails is only logged.
      abbrev pub answer_command :
          UiCommand Number → Result DooverError (Unit {0}) → Ui.Io Number → Ui.Io Number
      answer_command cmd (ok _) io =
          (respond_success backend cmd (set_value backend cmd.name cmd.value true io).1).1
      answer_command cmd (err e) io =
          (respond_error backend cmd "INTERNAL_ERROR" (error_text print_int e) io).1

      abbrev pub after_command :
          UiCommand Number → Shared 𝓕 A × Result DooverError (Unit {0}) → Shared 𝓕 A
      after_command cmd (s, result) = with_ui (answer_command cmd result s.ui) s

      abbrev pub app_action : Event Number → Action 𝓕 A
      app_action e =
          if is_message_create e
          then 𝓐.on_message_create e
          else if is_message_update e
          then 𝓐.on_message_update e
          else if is_aggregate_update e
          then 𝓐.on_aggregate_update e
          else if is_one_shot e
          then 𝓐.on_oneshot_message e
          else if is_channel_sync e
          then 𝓐.on_channel_sync e
          else λ s. (s, ok tt)

      unfoldable pub handle_runner_event : RunnerEvent Number → Runner 𝓕 A → Runner 𝓕 A
      unfolding apply_deployment_config set_value
      handle_runner_event (config_update e) r = update_config (aggregate_data e) r
      handle_runner_event (ui_command cmd) r =
          with_shared (after_command cmd (𝓐.on_ui_command cmd r.shared)) r
      handle_runner_event (app_event e) r = run_action (app_action e) r

      -- The schema of the interface with its references resolved; none without children.
      abbrev pub publish_resolved :
          Value Number → A × Option (Value Number) → Shared 𝓕 A → Shared 𝓕 A
      publish_resolved config (app, none) s = record s { app = app }
      publish_resolved config (app, some schema) s = record s {
        app = app;
        ui =
            (publish_schema backend serialize (resolve_config_refs coercions config schema) s.ui).1;
      }

      unfoldable pub publish_ui : Runner 𝓕 A → Runner 𝓕 A
      unfolding publish_schema resolve_config_refs
      publish_ui r = with_shared (publish_resolved r.config (𝓐.ui_schema r.shared.app) r.shared) r

      -- The commit after a loop that went well.
      abbrev pub commit_after : Shared 𝓕 A × Result DooverError (Unit {0}) → Bool × Shared 𝓕 A
      commit_after (s, ok _) =
          let (fine, io) = commit_tags 𝓕 world s.tags in (fine, record s { tags = io })
      commit_after (s, err e) = (false, s)

      abbrev pub after_tick : Bool × Shared 𝓕 A → Runner 𝓕 A → Runner 𝓕 A × Ended
      after_tick (true, s) r = (record (publish_ui (with_shared s r)) { healthy = true }, running)
      after_tick (false, s) r = (record (with_shared s r) { healthy = false }, crashed)

      unfoldable pub run_tick : Runner 𝓕 A → Runner 𝓕 A × Ended
      unfolding publish_ui commit_tags
      run_tick r = after_tick (commit_after (𝓐.main_loop r.shared)) r

      abbrev pub continue_if :
          Runner 𝓕 A × Ended → (Runner 𝓕 A → Runner 𝓕 A × Ended) → Runner 𝓕 A × Ended
      continue_if (r, running) f = f r
      continue_if (r, stopped) f = (r, stopped)
      continue_if (r, crashed) f = (r, crashed)

      abbrev pub run_selected : Selected Number → Runner 𝓕 A → Runner 𝓕 A × Ended
      run_selected stop r = (run_action 𝓐.on_shutdown r, stopped)
      run_selected (received e) r = (handle_runner_event e r, running)
      run_selected tick r = run_tick r

      unfoldable pub run_loop : List (Selected Number) → Runner 𝓕 A → Runner 𝓕 A × Ended
      unfolding handle_runner_event run_tick
      run_loop [] r = (r, running)
      run_loop (x ∷ xs) r = continue_if (run_selected x r) (run_loop xs)
