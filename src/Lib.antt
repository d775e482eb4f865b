-- ===== src/Lib.antt =====
-- Verification of the doover client library (doover/src): a device's runtime, a processor's
-- runtime, and the clients that both stand on.
--
-- The parts and how they interact. A channel holds an aggregate, a JSON object, and messages.
-- Changes of an aggregate travel as diffs (doover/src/utils/diff.rs). Events of a channel
-- (doover/src/events.rs) reach a device through one stream per channel
-- (doover/src/docker/subscriptions.rs), which keeps a cache of the aggregate and calls the
-- callbacks registered for the kind of event. Three clients of these streams are modelled: the tags
-- of a device (doover/src/tags), which buffer writes and flush them as one diff; the remote calls
-- (doover/src/rpc.rs), which are messages whose status is updated until it is final; and the
-- interface (doover/src/ui/runtime.rs), which publishes its schema and takes commands. The main
-- loop of a device (doover/src/docker/application.rs) runs over them, and the sidecars of the
-- device are called over shared channels (doover/src/docker/grpc.rs, platform.rs). A processor
-- (doover/src/processor) runs once for an event: it decodes it, upgrades its token, calls the
-- processor's methods and flushes its tags through the client of the cloud
-- (doover/src/api/data.rs), whose guard keeps it from triggering itself.
--
-- Files, whose sources are below doover/src:
--   Base            shared names, tests, integers (Base/Int), hash maps (Base/Table) and texts
--                  (Base/Text)
--   Errors          DooverError of error.rs, and results
--   Json            serde_json values and maps: get, insert, remove; Json/Keys: no key twice
--   Diff            apply_diff, generate_diff, python_json_eq of utils/diff.rs
--   Tags            KeyPath and strip_paths of tags/mod.rs
--   Tags/Triggers   LogTrigger, TriggerSet and validate_log_on of tags/triggers.rs
--   Tags/Setup, Tags/Observation, Tags/Runtime, Tags/Commit
--                  TagsRuntime of tags/runtime.rs: its subscriptions, who looks on, the buffered
--                  writes, the commit
--   Events          Event and EventSubscription of events.rs
--   Snowflake       the layout of an id and its time, of utils/snowflake.rs
--   Subscriptions   SubscriptionHub, and ChannelRef of docker/device_agent.rs
--   Rpc             statuses, expiry and RpcContext of rpc.rs; Rpc/Context what a handler reads;
--                  Rpc/Calls the request of a call; Rpc/Manager the state of RpcManager; Rpc/Serve
--                  handle_request; Rpc/Resolve handle_response
--   Processor/Tags  ProcessorTags of processor/tags.rs
--   Processor/Handler
--                  unwrap_event of processor/handler.rs
--   Processor/Payloads
--                  the payloads of processor/events.rs, SubscriptionInfo of models.rs
--   Processor/Invocation
--                  the processor, its context and ProcConfig, of processor/application.rs and
--                  processor/config.rs, and how phases of a run follow one another
--   Processor/Setup, Processor/Runner, Processor/Summary
--                  decode_payload and setup_context, dispatch_invocation, run_invocation with its
--                  summary, of processor/runner.rs
--   Processor/Context
--                  what a context writes itself: pings, schemas, notifications
--   Processor/Pipeline
--                  the proofs about a whole run, and the processor that notes its calls
--   Cloud           DataClient of api/data.rs: the request with its attempts; Cloud/Calls its calls
--                  and the guard; Cloud/Options what goes with a write, of channel_backend.rs;
--                  Cloud/Backend its ChannelBackend and the ping
--   Notifications   severities, types, topics and payloads of models.rs
--   Grpc            SharedChannel and check_response_header of docker/grpc.rs
--   Platform        the layout of the channels, of docker/platform.rs; Platform/Service the service
--                  that is called; Platform/Client, Platform/System the methods of PlatformClient;
--                  Platform/Pulses, Platform/Counters PulseCounter
--   Ui              UiRuntime of ui/runtime.rs; Ui/Refs resolve_config_refs
--   Docker          the loop, the events and the configuration of docker/application.rs; Docker/Boot
--                  the configuration at the start and its cached copy
--   Examples        concrete inputs on which the results are applied
--
-- How code becomes a definition. State behind a lock is a record, and an operation takes and
-- returns it. A callback, a handler or the sender of a waiting call is known by a number, and its
-- calls are results. The methods of an app or of a processor are parameters that act on what the
-- code lets them change. An awaited request is a call of a parameter: World in Tags/Runtime and
-- Backend in Ui say how the client answers each request, what other tasks do to the state
-- meanwhile, and what the clocks show; Server in Cloud answers each attempt of a request, so that
-- equal requests at equal attempts are answered alike; Attempt in Grpc answers on a channel at an
-- attempt. A command is served in two steps, before and after its handler, so that other events
-- come between. The stream of a channel runs on the list of what its connections yield, and the
-- main loop on the list of what it selects.
--
-- Numbers and floats of JSON are parameters (Numbers in Diff, Floats in Tags/Triggers, Readers in
-- Rpc, Readings in Processor/Payloads, Seconds in Platform/Pulses), read only through the
-- operations that the code calls. So are serializers and the deserializer that is derived for a
-- configuration. The order of the entries of a map is kept by insertion and is observed by no
-- definition. A logging call has no counterpart.
--
-- No definition runs on fuel: every loop follows a list, a map, a path or the attempts that are
-- left, of which max_retries is the number.
--
-- Not modelled: the generated protocol code and the transports (grpc, HTTP with its compression,
-- the lambda runtime), tokens that renew themselves, the typed handles of tags, the modbus client,
-- the builders of the interface's elements, of configurations and of declared notifications, the
-- macros and the command line, which keep no state between calls or only print and parse. Of the
-- modelled files, the waits for a first sync (tags/runtime.rs, docker/subscriptions.rs), of rpc.rs
-- the sending of a call, its timeout, and the accessors expires_after and cancelled_at, and of
-- docker/application.rs the options, the signals, the health server and the wiring of the channels,
-- are left out.
pub mod Base
pub mod Errors
pub mod Json
pub mod Diff
pub mod Events
pub mod Snowflake
pub mod Subscriptions
pub mod Rpc
pub mod Tags
pub mod Processor
pub mod Cloud
pub mod Notifications
pub mod Ui
pub mod Grpc
pub mod Platform
pub mod Docker
pub mod Examples
