-- ===== src/Examples/Remote.antt =====
-- Examples of the remote calls and of the channel subscriptions.
use doover_rs.Base.{◌≡◌, ◌≢◌, refl, true, false, none, some, [], List, ◌∷◌, ℕ, inr, or_else}
use doover_rs.Base.Int.{pos}
use doover_rs.Base.Table.{find}
use doover_rs.Json.{Value, Map, null, number, string, object, end, entry, get, at}
use doover_rs.Events.{Event, all_events}
use doover_rs.Subscriptions.{
  ChannelRef, ChannelState, HubState, found, event, broken, cached_aggregate, is_channel_synced,
  run_items, start_stream, seed,
}
use doover_rs.Subscriptions.Cache.{
  last_update, cached_aggregate-run_items, start_stream-is_channel_synced,
}
use doover_rs.Subscriptions.{dispatch}
use doover_rs.Subscriptions.Registered.{Kinds, masked, aggregate, dispatch-asked_for}
use doover_rs.Rpc.{
  Readers, RpcError, Outcome, ok, err, RpcContext, Update, written, progress, acknowledge, defer,
  status_is_cancelled, status_payload, command_is_cancelled,
}
use doover_rs.Rpc.Manager.{RpcState, end_call, cancellation}
use doover_rs.Rpc.Calls.{CallOptions, request_payload}
use doover_rs.Rpc.Serve.{accepted, begin_request, finish_request, result_payload}
use doover_rs.Rpc.Resolve.{handle_response}
use doover_rs.Rpc.Cancelled.{done, cancelled_never_written}
use doover_rs.Rpc.Replies.{handle_response-result_payload}
use doover_rs.Rpc.Dispatched.{begin_request_dropped, accepted-request_payload}

abbrev readers : Readers
readers = record {
  Number = ℕ;
  number_u64 = λ n. some n;
  number_i64 = λ n. some (pos n);
  of_i64 = λ i. 0;
  parse_u64 = λ s. none;
  trim_lower = λ s. s;
  print_value = λ v. "other";
  cancelled_text = λ s. s;
}

-- A channel with one callback for all events.
abbrev channel : ChannelState
channel = record { callbacks = (all_events, 5) ∷ []; task = true; synced = false }

abbrev hub : HubState ℕ
hub = record { channels = ("tag_values", channel) ∷ []; aggregates = [] }

abbrev empty_hub : HubState ℕ
empty_hub = record { channels = []; aggregates = [] }

abbrev updated : Event ℕ
updated = record {
  event_name = "AggregateUpdate";
  channel = "tag_values";
  payload = object (entry "aggregate" (object (entry "data" (number 3) end)) end);
}

cached_aggregate-run_items_example :
    cached_aggregate "tag_values" (run_items "tag_values" (event updated ∷ broken ∷ []) hub).0
    ≡ or_else (last_update (event updated ∷ broken ∷ [])) (cached_aggregate "tag_values" hub)
cached_aggregate-run_items_example =
    cached_aggregate-run_items "tag_values" (event updated ∷ broken ∷ []) hub

abbrev own : ChannelRef
own = record { name = "tag_values"; agent_id = none }

start_stream-is_channel_synced_example :
    (is_channel_synced "tag_values" (start_stream "tag_values" own (found (number 1)) true hub).0
      ≡ true)
    × (cached_aggregate "tag_values" (start_stream "tag_values" own (found (number 1)) true hub).0
        ≡ or_else (seed none (found (number 1)) true).0 (cached_aggregate "tag_values" hub))
unfolding find
start_stream-is_channel_synced_example =
    start_stream-is_channel_synced "tag_values" own (found (number 1)) true hub channel refl refl

-- Callback 6 asks for updates of the aggregate, and 7 for messages.
abbrev registrations : List (Kinds × ℕ)
registrations =
    (
      record { created = false; updated = false; aggregate = true; oneshot = false; synced = true },
      6,
    )
    ∷ (
      record { created = true; updated = true; aggregate = false; oneshot = true; synced = false },
      7,
    )
    ∷ []

abbrev registered : ChannelState
registered = record { callbacks = masked registrations; task = true; synced = true }

dispatch-asked_for_example :
    dispatch "tag_values" updated
      (record { channels = ("tag_values", registered) ∷ []; aggregates = [] })
    ≡ 6 ∷ []
unfolding find
dispatch-asked_for_example =
    dispatch-asked_for "tag_values" aggregate updated
      (record { channels = ("tag_values", registered) ∷ []; aggregates = [] }) registered
      registrations refl refl refl

-- A command that runs, and one that waits, under number 4.
abbrev running : RpcContext ℕ
running = record {
  method = "reboot";
  channel = "dv-rpc";
  message_id = some 4;
  request_message_id = some 4;
  data_of = object end;
  cell = 0;
}

abbrev manager : RpcState ℕ
manager = record {
  handlers = [];
  pending = (4, 9) ∷ [];
  inflight = (4, running) ∷ [];
  subscribed = [];
  subscriber = false;
  cells = [];
  next_cell = 1;
}

abbrev error_status : Value ℕ → Value ℕ
error_status m = object (entry "code" (string "error") (entry "message" m end))

abbrev cancelled_status : Value ℕ
cancelled_status = error_status (object (entry "cancelled_at" (number 1) end))

-- The update of message 4 with a body.
abbrev update_of : Value ℕ → Event ℕ
update_of body = record {
  event_name = "MessageUpdate";
  channel = "dv-rpc";
  payload = object (entry "id" (number 4) (entry "data" body end));
}

abbrev cancelled_body : Value ℕ
cancelled_body = object (entry "status" cancelled_status end)

abbrev after_cancel : RpcState ℕ
after_cancel = (handle_response readers none (pos 0) (update_of cancelled_body) manager).0

abbrev some_update : Update ℕ
some_update = record { channel = "dv-rpc"; message_id = 4; payload = null }

cancelled_never_written_example :
    ((finish_request readers none (pos 0) running (ok null) after_cancel).1 ≡ none)
    × (progress readers running (cancellation running after_cancel) none null ≢ written some_update)
    × (acknowledge readers running (cancellation running after_cancel) (pos 0)
        ≢ written some_update)
    × (defer readers running (cancellation running after_cancel) (pos 0) (pos 5)
        ≢ written some_update)
unfolding get find status_is_cancelled
cancelled_never_written_example =
    cancelled_never_written readers none (pos 0) (update_of cancelled_body) cancelled_body
      cancelled_status 4 running manager after_cancel (ok null) none null (pos 5) some_update refl
      refl refl refl refl (done after_cancel)

handle_response-result_payload_example :
    handle_response readers none
      (pos 0)
      (update_of (result_payload readers none (pos 0) (ok (number 8))))
      manager
    ≡ (end_call 4 manager, some (9, ok (number 8)))
unfolding get find
handle_response-result_payload_example =
    handle_response-result_payload readers none (pos 0)
      (update_of (result_payload readers none (pos 0) (ok (number 8)))) 4 9 (ok (number 8)) manager
      (record {
        body = result_payload readers none (pos 0) (ok (number 8));
        has_body = refl;
        has_id = refl;
        same_status = refl;
        same_response = refl;
      })
      refl

abbrev step_one : Value ℕ
step_one = status_payload "pending" (object (entry "text" (string "step 1") end))

begin_request_dropped_example :
    begin_request readers none (pos 0) (update_of cancelled_body) manager ≡ (manager, none)
unfolding get status_is_cancelled
begin_request_dropped_example =
    begin_request_dropped readers none (pos 0) (update_of cancelled_body) cancelled_body manager
      refl (inr (inr refl))

abbrev call_options : CallOptions ℕ
call_options = record {
  channel = "dv-rpc";
  app_key = some "app";
  timeout_ms = none;
  actor = none;
  reason = none;
  old_value = none;
  expires_after = none;
  retry_of = none;
}

accepted-request_payload_example :
    accepted readers
      (some "app")
      (pos 0)
      (update_of (request_payload readers.of_i64 call_options "reboot" none))
      (request_payload readers.of_i64 call_options "reboot" none)
    ≡ some ("reboot", object end)
unfolding get doover_rs.Json.insert doover_rs.Rpc.Calls.request_fields
    doover_rs.Rpc.command_is_expired
accepted-request_payload_example =
    accepted-request_payload readers (some "app") (pos 0)
      (update_of (request_payload readers.of_i64 call_options "reboot" none)) call_options "reboot"
      none (inr refl) refl
