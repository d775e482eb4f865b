-- ===== src/Processor/Setup.antt =====
-- doover/src/processor/runner.rs, `setup_context` and `decode_payload`: the event of an invocation, the upgrade
-- of its token, and the context with the seeded tags.
use doover_rs.Base.{
  ℕ, String, true, Option, none, some, str_eq, unwrap_or, and_then, or_else, if◌then◌else◌,
}
use doover_rs.Base.Int.{ℤ}
use doover_rs.Base.Text.{print_u64}
use doover_rs.Errors.{DooverError, Result, ok, err}
use doover_rs.Json.{Value, object, end, at}
use doover_rs.Cloud.{Server, DataClient, set_token, set_agent_id, set_app_key, set_organisation_id}
use doover_rs.Cloud.Calls.{fetch_subscription_info, fetch_schedule_info, unless_null}
use doover_rs.Processor.Tags.{new}
use doover_rs.Processor.Payloads.{
  Readings, SubscriptionInfo, EventPayload, message_create, aggregate_update, alarm_trigger,
  deployment, schedule, ingestion_endpoint, manual_invoke, message_create_from,
  aggregate_update_from, alarm_trigger_from, deployment_from, schedule_from, ingestion_from,
  manual_from, subscription_info_from, text_at,
}
use doover_rs.Processor.Invocation.{
  Machine, Phase, Context, InvocationState, failed, ProcConfig, config_from, on_client, on_state,
  modify, give, end_with, lift, call, ◌>>=◌, ◌>>◌,
}

-- What of the outside an invocation needs: the server, how numbers read and print, and the deserializer of
-- the configuration.
pub record Cloudlet (N : Type 0) : Type 0 where
  pub server : Server N
  pub readings : Readings N
  pub print_int : ℤ → String
  pub deserialize : Value N → Option (ProcConfig N)

-- The organisation's header, where there is an organisation.
abbrev pub with_organisation : Option ℕ → DataClient → DataClient
with_organisation none c = c
with_organisation (some org) c = set_organisation_id (print_u64 org) c

module _ {N : Type 0} where
  -- Decoding into one kind of payload.
  abbrev pub as_payload :
      {E : Type 0}
      → (E → EventPayload N)
      → Result DooverError E
      → Result DooverError (Option (EventPayload N))
  as_payload wrap (ok e) = ok (some (wrap e))
  as_payload wrap (err e) = err e

  abbrev pub ingestion_payload :
      Readings N
      → Value N
      → Result DooverError (Value N)
      → Result DooverError (Option (EventPayload N))
  ingestion_payload 𝓝 d (ok parsed) = ok (some (ingestion_endpoint (ingestion_from 𝓝 d parsed)))
  ingestion_payload 𝓝 d (err e) = err e

  -- `Ok(None)` for an unknown op.
  unfoldable pub decode_payload :
      Readings N
      → (String → Result DooverError (Value N))
      → String
      → Value N
      → Result DooverError (Option (EventPayload N))
  decode_payload 𝓝 parse op d =
      if str_eq op "on_message_create"
      then as_payload message_create (message_create_from 𝓝 d)
      else if str_eq op "on_aggregate_update"
      then as_payload aggregate_update (aggregate_update_from 𝓝 d)
      else if str_eq op "on_alarm_trigger"
      then as_payload alarm_trigger (alarm_trigger_from 𝓝 d)
      else if str_eq op "on_deployment"
      then ok (some (deployment (deployment_from 𝓝 d)))
      else if str_eq op "on_schedule"
      then ok (some (schedule (schedule_from 𝓝 d)))
      else if str_eq op "on_ingestion_endpoint"
      then ingestion_payload 𝓝 d (parse (unwrap_or (text_at d "payload") ""))
      else if str_eq op "on_manual_invoke"
      then ok (some (manual_invoke (manual_from 𝓝 d)))
      else ok none

  -- The value at a key, unless it is null.
  abbrev pub present_at : Value N → String → Option (Value N)
  present_at v k = and_then (at v k) unless_null

  abbrev pub upgrade_client : SubscriptionInfo N → Option ℕ → DataClient → DataClient
  upgrade_client info organisation_id c =
      with_organisation organisation_id
        (set_app_key info.app_key (set_token info.token (set_agent_id info.agent_id c)))

  abbrev pub set_identity : SubscriptionInfo N → InvocationState N → InvocationState N
  set_identity info st = record st { agent_id = some info.agent_id; app_key = some info.app_key }

  abbrev pub context_of : Cloudlet N → SubscriptionInfo N → Option ℕ → Context N
  context_of 𝓒 info organisation_id = record {
    agent_id = info.agent_id;
    app_key = info.app_key;
    app_id = text_at info.deployment_config "APP_ID";
    organisation_id = organisation_id;
    display_name = text_at info.deployment_config "APP_DISPLAY_NAME";
    deployment_config = info.deployment_config;
    proc_config = config_from 𝓒.deserialize (at info.deployment_config "dv_proc_config");
  }

  abbrev pub set_config : Context N → InvocationState N → InvocationState N
  set_config ctx st = record st { app_id = ctx.app_id; proc_config = ctx.proc_config }

  module _ {P : Type 0} (𝓒 : Cloudlet N) where
    -- The source of the upgrade: the inline payload, or else the endpoint of the invocation's source.
    abbrev pub info_from_schedule : Option String → Phase N P (SubscriptionInfo N)
    info_from_schedule (some schedule_id) =
        call 𝓒.print_int (λ c. fetch_schedule_info 𝓒.server 𝓒.readings c schedule_id)
    info_from_schedule none =
        end_with (failed "ValueError" "No subscription or schedule ID provided.")

    abbrev pub info_from_source : Option String → Option String → Phase N P (SubscriptionInfo N)
    info_from_source (some subscription_id) schedule_id =
        call 𝓒.print_int (λ c. fetch_subscription_info 𝓒.server 𝓒.readings c subscription_id)
    info_from_source none schedule_id = info_from_schedule schedule_id

    abbrev pub resolve_info : Option (Value N) → InvocationState N → Phase N P (SubscriptionInfo N)
    resolve_info (some upgrade) st = lift 𝓒.print_int (subscription_info_from 𝓒.readings upgrade)
    resolve_info none st = info_from_source st.subscription_id st.schedule_id

    -- The tags of the invocation and its connection data, from the upgrade.
    abbrev pub seed : SubscriptionInfo N → Machine N P → Machine N P
    seed info m = record m {
      live = record m.live {
        tags = new info.tag_values true;
        connection_config = unwrap_or (present_at info.connection_data "config") (object end);
        connection_status = unwrap_or (present_at info.connection_data "status") (object end);
      };
    }

    -- What follows once the upgrade is there.
    abbrev pub apply_upgrade : SubscriptionInfo N → Option ℕ → Phase N P (Context N)
    apply_upgrade info event_organisation_id =
        let org = or_else info.organisation_id event_organisation_id in
        let ctx = context_of 𝓒 info org in
        modify (on_state (set_identity info))
        >> modify (on_client (upgrade_client info org))
        >> modify (seed info)
        >> modify (on_state (set_config ctx))
        >> give ctx

    -- The state's ids are those that the event had.
    unfoldable pub setup_context : Value N → String → Option ℕ → Phase N P (Context N)
    setup_context d initial_token event_organisation_id m =
        (modify (on_client (set_token initial_token))
            >> (resolve_info (present_at d "upgrade") m.state >>= λ info.
                apply_upgrade info event_organisation_id))
          m
