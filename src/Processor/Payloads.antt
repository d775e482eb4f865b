-- ===== src/Processor/Payloads.antt =====
-- doover/src/processor/events.rs, and the ids and the upgrade of doover/src/models.rs: the payload of an
-- invocation, decoded from JSON. How a number reads and prints is a parameter.
pub mod Shapes
pub use doover_rs.Processor.Payloads.Shapes.{
  ChannelId, AlarmState, wire, from_wire, is_alarmed, is_ok_state, EventMessage, MessageCreateEvent,
  AggregateUpdateEvent, Alarm, AlarmTriggerEvent, DeploymentEvent, ScheduleEvent,
  IngestionEndpointEvent, ManualInvokeEvent, EventPayload, SubscriptionInfo, no_data, is_fine,
  alarmed, alarm_pending, message_create, aggregate_update, alarm_trigger, deployment, schedule,
  ingestion_endpoint, manual_invoke,
}
use doover_rs.Base.{
  ℕ, String, Bool, true, false, Option, none, some, List, [], ◌∷◌, str_eq, unwrap_or, is_some,
  and_then, if◌then◌else◌,
}
use doover_rs.Base.Int.{ℤ}
use doover_rs.Base.Text.{split, trim, parse_u64, append}
use doover_rs.Errors.{DooverError, invalid_payload, Result, ok, err, ◌>>=◌}
use doover_rs.Json.{Value, null, number, string, at}
use doover_rs.Rpc.{as_str}

-- What the program reads of a `serde_json::Number`, and how one prints and is made.
pub record Readings (N : Type 0) : Type 0 where
  pub number_u64 : N → Option ℕ
  pub number_i64 : N → Option ℤ
  pub number_text : N → String
  pub of_u64 : ℕ → N

-- `ok_or_else`
abbrev pub ok_or {ℓ} : {A : Type ℓ} → Option A → DooverError → Result DooverError A
ok_or none e = err e
ok_or (some a) e = ok a

module _ {N : Type 0} where
  -- A text at a key, or an empty one.
  abbrev pub text_at : Value N → String → Option String
  text_at d k = and_then (at d k) as_str

  abbrev pub text_or_empty : Value N → String → String
  text_or_empty d k = unwrap_or (text_at d k) ""

  abbrev pub value_or_null : Value N → String → Value N
  value_or_null d k = unwrap_or (at d k) null

  -- The data of the value at a key.
  abbrev pub data_of : Value N → String → Value N
  data_of d k = unwrap_or (and_then (at d k) (λ a. at a "data")) null

  -- `invoking_channel`
  abbrev pub invoking_channel : EventPayload N → Option String
  invoking_channel (message_create e) = some e.channel.name
  invoking_channel (aggregate_update e) = some e.channel.name
  invoking_channel (alarm_trigger e) = some e.channel.name
  invoking_channel _ = none

  abbrev pub is_rate_alarm : Alarm N → Bool
  is_rate_alarm a = is_some a.rate_window_ms

  abbrev pub is_alarm : AlarmTriggerEvent N → Bool
  is_alarm e = is_alarmed e.new_state

  abbrev pub is_cleared : AlarmTriggerEvent N → Bool
  is_cleared e = is_ok_state e.new_state

  -- The walk of `AlarmTriggerEvent::value` down the parts of the alarm's key.
  unfoldable pub walk : List String → Value N → Option (Value N)
  walk [] current = some current
  walk (part ∷ parts) current = and_then (at current part) (walk parts)

  unfoldable pub alarm_value : AlarmTriggerEvent N → Option (Value N)
  alarm_value e = walk (split 46 e.alarm.key) e.aggregate_data

  module _ (𝓝 : Readings N) where
    abbrev pub value_as_id : Value N → Option ℕ
    value_as_id (number n) = 𝓝.number_u64 n
    value_as_id (string s) = parse_u64 (trim s)
    value_as_id _ = none

    abbrev pub value_as_i64 : Value N → Option ℤ
    value_as_i64 (number n) = 𝓝.number_i64 n
    value_as_i64 _ = none

    -- An id as a text.
    abbrev pub id_string_of : Value N → Option String
    id_string_of (string s) = some s
    id_string_of (number n) = some (𝓝.number_text n)
    id_string_of _ = none

    abbrev pub id_string : Option (Value N) → Option String
    id_string v = and_then v id_string_of

    abbrev pub id_at : Value N → String → Option ℕ
    id_at d k = and_then (at d k) value_as_id

    abbrev pub id_or_zero : Value N → String → ℕ
    id_or_zero d k = unwrap_or (id_at d k) 0

    unfoldable pub channel_id_from : Value N → Result DooverError ChannelId
    channel_id_from d = do
      name ← ok_or (text_at d "name") (invalid_payload "channel missing name")
      ok (record { agent_id = id_or_zero d "agent_id"; name = name })

    -- The channel at a key that must be there.
    abbrev pub channel_at : Value N → String → Result DooverError ChannelId
    channel_at d missing = ok_or (at d "channel") (invalid_payload missing) >>= channel_id_from

    unfoldable pub event_message_from : Value N → Result DooverError (EventMessage N)
    event_message_from d = do
      channel ← channel_at d "message missing channel"
      ok (record {
        id = id_or_zero d "id";
        author_id = id_or_zero d "author_id";
        channel = channel;
        data_value = value_or_null d "data";
      })

    unfoldable pub message_create_from : Value N → Result DooverError (MessageCreateEvent N)
    message_create_from d = do
      message ← event_message_from (unwrap_or (at d "message") d)
      ok (record { channel = message.channel; message = message })

    unfoldable pub aggregate_update_from : Value N → Result DooverError (AggregateUpdateEvent N)
    aggregate_update_from d = do
      channel ← channel_at d "event missing channel"
      ok (record {
        author_id = id_or_zero d "author_id";
        channel = channel;
        aggregate_data = data_of d "aggregate";
        request_data = data_of d "request_data";
        organisation_id = id_at d "organisation_id";
      })

    -- The state at a key, by its name.
    abbrev pub state_at : Value N → String → Option AlarmState
    state_at d k = and_then (text_at d k) from_wire

    unfoldable pub alarm_from : Value N → Result DooverError (Alarm N)
    alarm_from d = do
      state ← ok_or (state_at d "state") (invalid_payload "alarm has no known state")
      ok (record {
        id = id_or_zero d "id";
        name = text_or_empty d "name";
        key = text_or_empty d "key";
        state = state;
        channel_name = text_or_empty d "channel_name";
        rate_window_ms = and_then (at d "rate_window_ms") value_as_i64;
        raw = d;
      })

    -- A state that an event must have.
    abbrev pub event_state : Value N → String → Result DooverError AlarmState
    event_state d k = ok_or (state_at d k) (invalid_payload (append "event missing " k))

    unfoldable pub alarm_trigger_from : Value N → Result DooverError (AlarmTriggerEvent N)
    alarm_trigger_from d = do
      channel ← channel_at d "event missing channel"
      raised ← ok_or (at d "alarm") (invalid_payload "event missing alarm")
      alarm ← alarm_from raised
      old_state ← event_state d "old_state"
      new_state ← event_state d "new_state"
      ok (record {
        channel = channel;
        alarm = alarm;
        old_state = old_state;
        new_state = new_state;
        aggregate_data = data_of d "aggregate";
        request_data = data_of d "request_data";
        organisation_id = id_at d "organisation_id";
      })

    abbrev pub deployment_from : Value N → DeploymentEvent N
    deployment_from d = record {
      agent_id = id_or_zero d "agent_id";
      app_id = value_or_null d "app_id";
      app_install_id = value_or_null d "app_install_id";
      app_key = text_or_empty d "app_key";
      app_display_name = text_or_empty d "app_display_name";
    }

    abbrev pub schedule_from : Value N → ScheduleEvent N
    schedule_from d = record { schedule_id = unwrap_or (id_string (at d "schedule_id")) "" }

    abbrev pub ingestion_from : Value N → Value N → IngestionEndpointEvent N
    ingestion_from d parsed = record {
      ingestion_id = unwrap_or (id_string (at d "ingestion_id")) "";
      agent_id = id_or_zero d "agent_id";
      organisation_id = id_at d "organisation_id";
      payload = text_or_empty d "payload";
      data_value = parsed;
      invocation_url = text_at d "invocation_url";
      content_type = text_at d "content_type";
    }

    abbrev pub manual_from : Value N → ManualInvokeEvent N
    manual_from d = record {
      organisation_id = id_at d "organisation_id";
      payload = value_or_null d "payload";
    }

    unfoldable pub subscription_info_from : Value N → Result DooverError (SubscriptionInfo N)
    subscription_info_from d = do
      agent_id ← ok_or (id_at d "agent_id") (invalid_payload "SubscriptionInfo missing agent_id")
      app_key ← ok_or (text_at d "app_key") (invalid_payload "SubscriptionInfo missing app_key")
      token ← ok_or (text_at d "token") (invalid_payload "SubscriptionInfo missing token")
      ok (record {
        agent_id = agent_id;
        organisation_id = id_at d "organisation_id";
        app_key = app_key;
        deployment_config = value_or_null d "deployment_config";
        ui_state = value_or_null d "ui_state";
        ui_cmds = value_or_null d "ui_cmds";
        tag_values = value_or_null d "tag_values";
        connection_data = value_or_null d "connection_data";
        token = token;
      })
