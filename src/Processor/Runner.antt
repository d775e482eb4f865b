-- ===== src/Processor/Runner.antt =====
-- doover/src/processor/runner.rs, `dispatch_invocation` and `run_invocation`: the phases of an invocation in
-- their order, and its summary. The duration and the start are parameters.
use doover_rs.Base.{
  String, Bool, true, false, not, ◌&&◌, Option, none, some, List, [], ◌∷◌, ◌++◌, str_eq, is_some,
  unwrap_or,
}
use doover_rs.Errors.{DooverError, Result, ok, err}
use doover_rs.Json.{Value, object, end, get, at}
use doover_rs.Cloud.{
  HttpRequest, DataClient, Sent, then_result, default_options, set_invoking_channel,
}
use doover_rs.Cloud.Backend.{update_channel_aggregate, create_message, done as unit_of}
use doover_rs.Processor.Tags.{Request, update_aggregate, commit_tags_with}
use doover_rs.Processor.Payloads.{
  Readings, EventPayload, message_create, aggregate_update, alarm_trigger, deployment, schedule,
  ingestion_endpoint, manual_invoke, invoking_channel, id_string, id_at, text_at,
}
use doover_rs.Processor.Invocation.{
  Hooks, Phase, Context, InvocationState, Live, Handled, done, not_implemented, SkipReason,
  no_handler, pre_hook_rejected, tag_values_self_loop, post_setup_rejected, skipped, failed,
  on_client, on_state, modify, give, end_with, lift, with_hook, with_sent, ◌>>=◌, ◌>>◌,
}
use doover_rs.Processor.Setup.{Cloudlet, decode_payload, setup_context}

abbrev pub is_ok {ℓ κ} : {E : Type ℓ} {A : Type κ} → Result E A → Bool
is_ok (ok a) = true
is_ok (err e) = false

-- An error of the handler counts as handled.
abbrev pub handled_of : Result DooverError Handled → Handled
handled_of (ok h) = h
handled_of (err e) = done

module _ {N : Type 0} where
  -- Whether a value is an object with the key.
  abbrev pub holds_key : Value N → String → Bool
  holds_key (object m) k = is_some (get k m)
  holds_key _ k = false

  unfoldable pub is_tag_values_self_loop : EventPayload N → String → Bool
  is_tag_values_self_loop (aggregate_update e) app_key =
      str_eq e.channel.name "tag_values" && holds_key e.request_data app_key
  is_tag_values_self_loop (message_create e) app_key =
      str_eq e.channel.name "tag_values" && holds_key e.message.data_value app_key
  is_tag_values_self_loop _ app_key = false

  abbrev pub is_deployment : EventPayload N → Bool
  is_deployment (deployment e) = true
  is_deployment _ = false

  -- The requests of a commit go through the client's backend.
  abbrev pub backend_call : Cloudlet N → DataClient → Request N → Sent N (Unit {0})
  backend_call 𝓒 c (update_aggregate v) =
      update_channel_aggregate 𝓒.server 𝓒.readings c "tag_values" v default_options
  backend_call 𝓒 c (Request.create_message v) =
      then_result (create_message 𝓒.server 𝓒.readings c "tag_values" v) unit_of

  -- What the requests of a commit, newest first, send and how they end: only the newest may have failed.
  abbrev pub requests_of : Cloudlet N → DataClient → List (Request N) → List (HttpRequest N)
  requests_of 𝓒 c [] = []
  requests_of 𝓒 c (r ∷ rs) = requests_of 𝓒 c rs ++ (backend_call 𝓒 c r).requests

  abbrev pub result_of : Cloudlet N → DataClient → List (Request N) → Result DooverError (Unit {0})
  result_of 𝓒 c [] = ok tt
  result_of 𝓒 c (r ∷ rs) = (backend_call 𝓒 c r).result

  abbrev pub set_ids : Readings N → Value N → InvocationState N → InvocationState N
  set_ids 𝓝 d st = record st {
    schedule_id = id_string 𝓝 (at d "schedule_id");
    ingestion_id = id_string 𝓝 (at d "ingestion_id");
  }

  abbrev pub event_data : Value N → Value N
  event_data event = unwrap_or (at event "d") (object end)

  abbrev pub op_of : Value N → Option String
  op_of event = text_at event "op"

  module _ {P : Type 0} where
    abbrev pub take_token : Option String → Phase N P String
    take_token none = end_with (failed "RuntimeError" "Initial token has not been set.")
    take_token (some token) = give token

    -- The end of a run that a filter has turned down.
    abbrev pub unless_rejected : SkipReason → Bool → Phase N P (Unit {0})
    unless_rejected reason true = give tt
    unless_rejected reason false = end_with (skipped reason)

    abbrev pub with_payload : Option (EventPayload N) → Phase N P (EventPayload N)
    with_payload none = end_with (skipped no_handler)
    with_payload (some payload) = give payload

    -- Without a handler only a deployment goes on.
    abbrev pub unless_unhandled : Bool → Handled → Phase N P (Unit {0})
    unless_unhandled true handled = give tt
    unless_unhandled false done = give tt
    unless_unhandled false not_implemented = end_with (skipped no_handler)

    -- The single flush of the tags; its failure ends the run with its error.
    unfoldable pub commit_phase : Cloudlet N → String → Phase N P (Unit {0})
    unfolding commit_tags_with
    commit_phase 𝓒 app_key m =
        let c = m.live.client in
        let (tags, requests, fine) =
          commit_tags_with (λ r. is_ok (backend_call 𝓒 c r).result) app_key false m.live.tags in
        lift 𝓒.print_int (result_of 𝓒 c requests)
          (with_sent (requests_of 𝓒 c requests) (record m { live = record m.live { tags = tags } }))

  module _ {P : Type 0} (hooks : Hooks N P) where
    abbrev pub dispatch_handler :
        Context N → EventPayload N → P × Live N → (P × Live N) × Result DooverError Handled
    dispatch_handler ctx (message_create e) s = hooks.on_message_create ctx e s
    dispatch_handler ctx (aggregate_update e) s = hooks.on_aggregate_update ctx e s
    dispatch_handler ctx (alarm_trigger e) s = hooks.on_alarm_trigger ctx e s
    dispatch_handler ctx (deployment e) s = hooks.on_deployment ctx e s
    dispatch_handler ctx (schedule e) s = hooks.on_schedule ctx e s
    dispatch_handler ctx (ingestion_endpoint e) s = hooks.on_ingestion_endpoint ctx e s
    dispatch_handler ctx (manual_invoke e) s = hooks.on_manual_invoke ctx e s

    -- The hooks between the setup and the commit.
    abbrev pub user_setup : Context N → Phase N P (Unit {0})
    user_setup ctx m = (with_hook (hooks.setup ctx (m.processor, m.live)).0 m, ok tt)

    abbrev pub post_setup : Context N → EventPayload N → Phase N P (Unit {0})
    post_setup ctx payload m =
        let (s, fine) = hooks.post_setup_filter ctx payload (m.processor, m.live) in
        unless_rejected post_setup_rejected fine (with_hook s m)

    abbrev pub handle : Context N → EventPayload N → Phase N P Handled
    handle ctx payload m =
        let (s, result) = dispatch_handler ctx payload (m.processor, m.live) in
        (with_hook s m, ok (handled_of result))

    abbrev pub user_close : Context N → Phase N P (Unit {0})
    user_close ctx m = (with_hook (hooks.close ctx (m.processor, m.live)).0 m, ok tt)

    abbrev pub decode : Cloudlet N → Value N → Phase N P (EventPayload N)
    decode 𝓒 event m =
        (lift 𝓒.print_int (
              decode_payload 𝓒.readings (hooks.parse_ingestion_payload m.processor)
                (unwrap_or (op_of event) "") (event_data event))
            >>= with_payload)
          m

    abbrev pub pre_hook : EventPayload N → Phase N P (Unit {0})
    pre_hook payload m =
        let (p, fine) = hooks.pre_hook_filter payload m.processor in
        unless_rejected pre_hook_rejected fine (record m { processor = p })

    -- From the context on, to the commit and to the end.
    abbrev pub before_commit : Context N → EventPayload N → Phase N P (Unit {0})
    before_commit ctx payload =
        unless_rejected tag_values_self_loop (not (is_tag_values_self_loop payload ctx.app_key))
        >> user_setup ctx
        >> post_setup ctx payload
        >> (handle ctx payload >>= unless_unhandled (is_deployment payload))

    unfoldable pub process : Cloudlet N → Context N → EventPayload N → Phase N P (Unit {0})
    unfolding is_tag_values_self_loop commit_phase
    process 𝓒 ctx payload =
        before_commit ctx payload >> commit_phase 𝓒 ctx.app_key >> user_close ctx

    -- From the payload on, and from the token on.
    abbrev pub run_payload : Cloudlet N → Value N → String → EventPayload N → Phase N P (Unit {0})
    run_payload 𝓒 event token payload =
        modify (on_client (set_invoking_channel (invoking_channel payload)))
        >> pre_hook payload
        >> (setup_context 𝓒 (event_data event) token
              (id_at 𝓒.readings (event_data event) "organisation_id")
            >>= λ ctx. process 𝓒 ctx payload)

    abbrev pub run_token : Cloudlet N → Value N → String → Phase N P (Unit {0})
    run_token 𝓒 event token =
        modify (on_state (λ st. record st { agent_id = id_at 𝓒.readings event "agent_id" }))
        >> (decode 𝓒 event >>= run_payload 𝓒 event token)

    unfoldable pub dispatch_invocation : Cloudlet N → Value N → Phase N P (Unit {0})
    unfolding process setup_context
    dispatch_invocation 𝓒 event =
        modify (on_state (set_ids 𝓒.readings (event_data event)))
        >> (take_token (text_at event "token") >>= run_token 𝓒 event)
