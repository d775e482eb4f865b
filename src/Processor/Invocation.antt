-- ===== src/Processor/Invocation.antt =====
-- doover/src/processor: the state of one invocation, of runner.rs, with `ProcConfig` of config.rs and the
-- `Processor` trait and `ProcessorContext` of application.rs. A processor's own methods are parameters: each
-- may change the processor, the client, the tags and the connection data, and send requests.
use doover_rs.Base.{ℕ, String, Bool, false, Option, none, some, List, [], ◌∷◌, ◌++◌, unwrap_or}
use doover_rs.Base.Int.{ℤ}
use doover_rs.Errors.{DooverError, type_name, error_text, Result, ok, err}
use doover_rs.Json.{Value, Map, object, end}
use doover_rs.Cloud.{HttpRequest, DataClient, Sent}
use doover_rs.Processor.Tags.{TagState}
use doover_rs.Processor.Payloads.{
  MessageCreateEvent, AggregateUpdateEvent, AlarmTriggerEvent, DeploymentEvent, ScheduleEvent,
  IngestionEndpointEvent, ManualInvokeEvent, EventPayload,
}

pub data Handled : Type 0 where
  done not_implemented : Handled

pub data SkipReason : Type 0 where
  no_handler pre_hook_rejected tag_values_self_loop post_setup_rejected : SkipReason

abbrev pub skip_text : SkipReason → String
skip_text no_handler = "no_handler"
skip_text pre_hook_rejected = "pre_hook_filter"
skip_text tag_values_self_loop = "tag_values_self_loop"
skip_text post_setup_rejected = "post_setup_filter"

pub data DispatchEnd : Type 0 where
  skipped : SkipReason → DispatchEnd
  failed : String → String → DispatchEnd

-- `DispatchEnd::from`; `print` prints the status of an error.
abbrev pub end_of : (ℤ → String) → DooverError → DispatchEnd
end_of print e = failed (type_name e) (error_text print e)

pub record InvocationPublishTarget : Type 0 where
  pub agent_id : Option ℕ
  pub channel : String

abbrev pub default_targets : List InvocationPublishTarget
default_targets = record { agent_id = none; channel = "dv-proc-inv-$app_id" } ∷ []

module _ (N : Type 0) where
  pub record ProcConfig : Type 0 where
    pub log_level : String
    pub log_overrides : Map N
    pub inv_targets : List InvocationPublishTarget
    pub live_logs : Bool

  pub record InvocationState : Type 0 where
    pub subscription_id : Option String
    pub schedule_id : Option String
    pub ingestion_id : Option String
    pub event_type : Option String
    pub agent_id : Option ℕ
    pub app_key : Option String
    pub app_id : Option String
    pub proc_config : ProcConfig

  -- What stays fixed of a `ProcessorContext`.
  pub record Context : Type 0 where
    pub agent_id : ℕ
    pub app_key : String
    pub app_id : Option String
    pub organisation_id : Option ℕ
    pub display_name : Option String
    pub deployment_config : Value N
    pub proc_config : ProcConfig

  -- What a hook may change: the client, the tags and the connection data, and the requests sent so far.
  pub record Live : Type 0 where
    pub client : DataClient
    pub tags : TagState N
    pub connection_config : Value N
    pub connection_status : Value N
    pub sent : List (HttpRequest N)

module _ {N : Type 0} where
  abbrev pub default_config : ProcConfig N
  default_config = record {
    log_level = "INFO";
    log_overrides = end;
    inv_targets = default_targets;
    live_logs = false;
  }

  -- `ProcConfig::from_value`; the deserializer that serde derives is a parameter.
  unfoldable pub config_from : (Value N → Option (ProcConfig N)) → Option (Value N) → ProcConfig N
  config_from deserialize (some (object m)) = unwrap_or (deserialize (object m)) default_config
  config_from deserialize _ = default_config

module _ (N : Type 0) where
  -- An event handler of a processor `P`.
  abbrev pub Handler : Type 0 → Type 0 → Type 0
  Handler P E = Context N → E → P × Live N → (P × Live N) × Result DooverError Handled

  -- The methods of a processor. `pre_hook_filter` runs before there is a context.
  pub record Hooks (P : Type 0) : Type 0 where
    pub pre_hook_filter : EventPayload N → P → P × Bool
    pub setup : Context N → P × Live N → (P × Live N) × Result DooverError (Unit {0})
    pub post_setup_filter : Context N → EventPayload N → P × Live N → (P × Live N) × Bool
    pub close : Context N → P × Live N → (P × Live N) × Result DooverError (Unit {0})
    pub on_message_create : Handler P (MessageCreateEvent N)
    pub on_aggregate_update : Handler P (AggregateUpdateEvent N)
    pub on_alarm_trigger : Handler P (AlarmTriggerEvent N)
    pub on_deployment : Handler P (DeploymentEvent N)
    pub on_schedule : Handler P (ScheduleEvent N)
    pub on_ingestion_endpoint : Handler P (IngestionEndpointEvent N)
    pub on_manual_invoke : Handler P (ManualInvokeEvent N)
    pub parse_ingestion_payload : P → String → Result DooverError (Value N)

  -- The state of a run: the processor, what the hooks may change, and the bookkeeping.
  pub record Machine (P : Type 0) : Type 0 where
    pub processor : P
    pub live : Live N
    pub state : InvocationState N

  -- A phase of the run, which may end it.
  abbrev pub Phase : Type 0 → Type 0 → Type 0
  Phase P A = Machine P → Machine P × Result DispatchEnd A

module _ {N P : Type 0} where
  abbrev pub next_phase :
      {A B : Type 0}
      → Machine N P × Result DispatchEnd A
      → (A → Phase N P B)
      → Machine N P × Result DispatchEnd B
  next_phase (m, ok a) f = f a m
  next_phase (m, err e) f = (m, err e)

  infixl 5 ◌>>=◌ ◌>>◌
  abbrev pub ◌>>=◌ : {A B : Type 0} → Phase N P A → (A → Phase N P B) → Phase N P B
  ◌>>=◌ p f m = next_phase (p m) f

  abbrev pub ◌>>◌ : {B : Type 0} → Phase N P (Unit {0}) → Phase N P B → Phase N P B
  p >> q = p >>= λ _. q

  abbrev pub end_with : {A : Type 0} → DispatchEnd → Phase N P A
  end_with e m = (m, err e)

  abbrev pub give : {A : Type 0} → A → Phase N P A
  give a m = (m, ok a)

  -- A result that ends the run with its error.
  abbrev pub lift : {A : Type 0} → (ℤ → String) → Result DooverError A → Phase N P A
  lift print (ok a) m = (m, ok a)
  lift print (err e) m = (m, err (end_of print e))

  abbrev pub modify : (Machine N P → Machine N P) → Phase N P (Unit {0})
  modify f m = (f m, ok tt)

  abbrev pub on_client : (DataClient → DataClient) → Machine N P → Machine N P
  on_client f m = record m { live = record m.live { client = f m.live.client } }

  abbrev pub on_state : (InvocationState N → InvocationState N) → Machine N P → Machine N P
  on_state f m = record m { state = f m.state }

  -- The requests that a call of the client sent.
  abbrev pub with_sent : List (HttpRequest N) → Machine N P → Machine N P
  with_sent requests m = record m { live = record m.live { sent = m.live.sent ++ requests } }

  abbrev pub with_hook : P × Live N → Machine N P → Machine N P
  with_hook (p, live) m = record m { processor = p; live = live }

  -- A call of the client whose failure ends the run.
  abbrev pub call : {A : Type 0} → (ℤ → String) → (DataClient → Sent N A) → Phase N P A
  call print f m = lift print (f m.live.client).result (with_sent (f m.live.client).requests m)
