-- ===== src/Processor/Summary.antt =====
-- doover/src/processor/runner.rs, `run_invocation` and `publish_invocation_summary`: the summary of an
-- invocation and the channels that it goes to. The start and the duration of a run are parameters.
use doover_rs.Base.{ℕ, String, true, Option, none, some, List, [], ◌∷◌, ◌++◌, and_then}
use doover_rs.Base.Text.{print_u64, replace}
use doover_rs.Errors.{Result, ok, err}
use doover_rs.Json.{Value, null, string, number, object, end, entry}
use doover_rs.Cloud.{HttpRequest, DataClient}
use doover_rs.Cloud.Calls.{create_message_http}
use doover_rs.Cloud.Backend.{opt_text}
use doover_rs.Processor.Tags.{new}
use doover_rs.Processor.Invocation.{
  Hooks, Machine, InvocationState, InvocationPublishTarget, Live, skip_text, DispatchEnd, skipped,
  failed, default_config, with_sent,
}
use doover_rs.Processor.Setup.{Cloudlet}
use doover_rs.Processor.Runner.{op_of, dispatch_invocation}

-- `LambdaMeta`
pub record LambdaMeta : Type 0 where
  pub request_id : Option String
  pub function_name : Option String
  pub function_version : Option String

-- What a summary says of the outcome: its status and the reason of a skip.
abbrev pub status_of : Result DispatchEnd (Unit {0}) → String
status_of (ok _) = "success"
status_of (err (skipped reason)) = "skipped"
status_of (err (failed type_name message)) = "error"

abbrev pub skip_reason_of : Result DispatchEnd (Unit {0}) → Option String
skip_reason_of (err (skipped reason)) = some (skip_text reason)
skip_reason_of _ = none

abbrev pub target_channel : String → InvocationPublishTarget → String
target_channel app_id target = replace target.channel "$app_id" app_id

module _ {N : Type 0} where
  abbrev pub error_of : Result DispatchEnd (Unit {0}) → Value N
  error_of (err (failed type_name message)) =
      object (entry "type" (string type_name) (entry "message" (string message) end))
  error_of _ = null

  -- The body of the summary.
  unfoldable pub summary :
      (ℕ → N) → LambdaMeta → ℕ → ℕ → InvocationState N → Result DispatchEnd (Unit {0}) → Value N
  summary of_u64 lambda started_at duration st outcome = object (
      entry "app_key" (opt_text st.app_key) (
        entry "app_id" (opt_text st.app_id) (
          entry "agent_id" (opt_text (and_then st.agent_id (λ a. some (print_u64 a)))) (
            entry "event_type" (opt_text st.event_type) (
              entry "subscription_id" (opt_text st.subscription_id) (
                entry "schedule_id" (opt_text st.schedule_id) (
                  entry "ingestion_id" (opt_text st.ingestion_id) (
                    entry "started_at" (number (of_u64 started_at)) (
                      entry "duration_ms" (number (of_u64 duration)) (
                        entry "status" (string (status_of outcome)) (
                          entry "skip_reason" (opt_text (skip_reason_of outcome)) (
                            entry "error" (error_of outcome) (
                              entry "requestId" (opt_text lambda.request_id) (
                                entry "function_name" (opt_text lambda.function_name) (
                                  entry "function_version" (opt_text lambda.function_version)
                                    end)))))))))))))))

  -- The requests for the targets in their order; a failure of one stops none of the others.
  unfoldable pub publish_targets :
      Cloudlet N
      → DataClient
      → String
      → Value N
      → List InvocationPublishTarget
      → List (HttpRequest N)
  unfolding create_message_http replace
  publish_targets 𝓒 c app_id body [] = []
  publish_targets 𝓒 c app_id body (target ∷ targets) =
      (create_message_http 𝓒.server 𝓒.readings c (target_channel app_id target) body none
        target.agent_id).requests
      ++ publish_targets 𝓒 c app_id body targets

  -- Without the app's id nothing is published.
  abbrev pub publish_for :
      Cloudlet N
      → DataClient
      → Value N
      → List InvocationPublishTarget
      → Option String
      → List (HttpRequest N)
  publish_for 𝓒 c body targets none = []
  publish_for 𝓒 c body targets (some app_id) = publish_targets 𝓒 c app_id body targets

  unfoldable pub publish_invocation_summary :
      Cloudlet N → DataClient → InvocationState N → Value N → List (HttpRequest N)
  unfolding publish_targets
  publish_invocation_summary 𝓒 c st body = publish_for 𝓒 c body st.proc_config.inv_targets st.app_id

  abbrev pub initial_state : Option String → Value N → InvocationState N
  initial_state subscription_id event = record {
    subscription_id = subscription_id;
    schedule_id = none;
    ingestion_id = none;
    event_type = op_of event;
    agent_id = none;
    app_key = none;
    app_id = none;
    proc_config = default_config;
  }

  -- Until the setup there are no tags and no connection data.
  abbrev pub initial_live : DataClient → Live N
  initial_live c = record {
    client = c;
    tags = new null true;
    connection_config = object end;
    connection_status = object end;
    sent = [];
  }

  module _ {P : Type 0} (hooks : Hooks N P) (𝓒 : Cloudlet N) where
    abbrev pub summarised :
        LambdaMeta → ℕ → ℕ → Machine N P × Result DispatchEnd (Unit {0}) → Machine N P × Value N
    summarised lambda started_at duration (m, outcome) =
        let body = summary 𝓒.readings.of_u64 lambda started_at duration m.state outcome in
        (with_sent (publish_invocation_summary 𝓒 m.live.client m.state body) m, body)

    -- The processor after the run with all the requests, and the body of the summary.
    unfoldable pub run_invocation :
        LambdaMeta → ℕ → ℕ → DataClient → Option String → Value N → P → Machine N P × Value N
    unfolding dispatch_invocation summary publish_invocation_summary
    run_invocation lambda started_at duration client subscription_id event processor =
        summarised lambda started_at duration (
          dispatch_invocation hooks 𝓒 event (record {
            processor = processor;
            live = initial_live client;
            state = initial_state subscription_id event;
          }))
