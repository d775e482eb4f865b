-- ===== src/Processor/Payloads/Shapes.antt =====
-- doover/src/processor/events.rs and doover/src/models.rs: the payloads of an invocation and the answer of its token
-- upgrade, as they are once decoded.
use doover_rs.Base.{ℕ, String, Bool, true, false, Option, none, some, str_eq, if◌then◌else◌}
use doover_rs.Base.Int.{ℤ}
use doover_rs.Json.{Value}

pub record ChannelId : Type 0 where
  pub agent_id : ℕ
  pub name : String

pub data AlarmState : Type 0 where
  no_data is_fine alarmed alarm_pending : AlarmState

abbrev pub wire : AlarmState → String
wire no_data = "NoData"
wire is_fine = "OK"
wire alarmed = "Alarm"
wire alarm_pending = "AlarmPending"

abbrev pub from_wire : String → Option AlarmState
from_wire s =
    if str_eq s "NoData"
    then some no_data
    else if str_eq s "OK"
    then some is_fine
    else if str_eq s "Alarm"
    then some alarmed
    else if str_eq s "AlarmPending"
    then some alarm_pending
    else none

abbrev pub is_alarmed : AlarmState → Bool
is_alarmed alarmed = true
is_alarmed _ = false

abbrev pub is_ok_state : AlarmState → Bool
is_ok_state is_fine = true
is_ok_state _ = false

module _ (N : Type 0) where
  pub record EventMessage : Type 0 where
    pub id : ℕ
    pub author_id : ℕ
    pub channel : ChannelId
    pub data_value : Value N

  pub record MessageCreateEvent : Type 0 where
    pub channel : ChannelId
    pub message : EventMessage

  pub record AggregateUpdateEvent : Type 0 where
    pub author_id : ℕ
    pub channel : ChannelId
    pub aggregate_data : Value N
    pub request_data : Value N
    pub organisation_id : Option ℕ

  pub record Alarm : Type 0 where
    pub id : ℕ
    pub name : String
    pub key : String
    pub state : AlarmState
    pub channel_name : String
    pub rate_window_ms : Option ℤ
    pub raw : Value N

  pub record AlarmTriggerEvent : Type 0 where
    pub channel : ChannelId
    pub alarm : Alarm
    pub old_state : AlarmState
    pub new_state : AlarmState
    pub aggregate_data : Value N
    pub request_data : Value N
    pub organisation_id : Option ℕ

  pub record DeploymentEvent : Type 0 where
    pub agent_id : ℕ
    pub app_id : Value N
    pub app_install_id : Value N
    pub app_key : String
    pub app_display_name : String

  pub record ScheduleEvent : Type 0 where
    pub schedule_id : String

  pub record IngestionEndpointEvent : Type 0 where
    pub ingestion_id : String
    pub agent_id : ℕ
    pub organisation_id : Option ℕ
    pub payload : String
    pub data_value : Value N
    pub invocation_url : Option String
    pub content_type : Option String

  pub record ManualInvokeEvent : Type 0 where
    pub organisation_id : Option ℕ
    pub payload : Value N

  pub data EventPayload : Type 0 where
    message_create : MessageCreateEvent → EventPayload
    aggregate_update : AggregateUpdateEvent → EventPayload
    alarm_trigger : AlarmTriggerEvent → EventPayload
    deployment : DeploymentEvent → EventPayload
    schedule : ScheduleEvent → EventPayload
    ingestion_endpoint : IngestionEndpointEvent → EventPayload
    manual_invoke : ManualInvokeEvent → EventPayload

  -- The answer to a token upgrade.
  pub record SubscriptionInfo : Type 0 where
    pub agent_id : ℕ
    pub organisation_id : Option ℕ
    pub app_key : String
    pub deployment_config : Value N
    pub ui_state : Value N
    pub ui_cmds : Value N
    pub tag_values : Value N
    pub connection_data : Value N
    pub token : String
