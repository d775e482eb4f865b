-- ===== src/Rpc/Serve.antt =====
-- doover/src/rpc.rs: `handle_request`. The work on a request is two steps, before and after its handler
-- runs; other events are handled between them.
use doover_rs.Base.{
  ℕ, suc, String, Bool, true, false, not, Option, none, some, and_then, if◌then◌else◌,
}
use doover_rs.Base.Int.{ℤ}
use doover_rs.Json.{Value, null, string, object, end, entry, at}
use doover_rs.Events.{Event, is_one_shot, message_data, message_id}
use doover_rs.Rpc.{
  Readers, as_str, has_str, Outcome, ok, err, Update, RpcContext, command_is_expired,
  command_is_cancelled,
}
use doover_rs.Rpc.Manager.{option_str_eq, RpcState, get_handler, cancellation, track, untrack}

module _ (𝓡 : Readers) (own_key : Option String) (now : ℤ) where
  open 𝓡 use {Number, number_u64, parse_u64}

  abbrev pub id_of : Event Number → Option ℕ
  id_of e = message_id number_u64 parse_u64 e

  -- A request that names an app is for that app only.
  abbrev pub meant_for_us : Value Number → Bool
  meant_for_us v = elim (and_then (at v "app_key") as_str) [
    | none ↦ true
    | some target ↦ option_str_eq own_key (some target)
  ]

  abbrev pub expired : Option ℕ → Value Number → Bool
  expired none v = false
  expired (some id) v = command_is_expired 𝓡 now id v

  -- A request is dropped if it has expired or was cancelled before it came.
  abbrev pub unless_stale :
      Event Number → Value Number → String → Value Number → Option (String × Value Number)
  unless_stale e v method payload =
      if expired (id_of e) v
      then none
      else if command_is_cancelled 𝓡 v
      then none
      else some (method, payload)

  -- The request in the message of an event, with its method, if it is to be acted upon.
  unfoldable pub accepted : Event Number → Value Number → Option (String × Value Number)
  accepted e v =
      if not (has_str (at v "type") "rpc")
      then none
      else and_then (and_then (at v "method") as_str) λ method.
        if not (meant_for_us v) then none else and_then (at v "request") (unless_stale e v method)

  abbrev pub context : Event Number → Value Number → String → ℕ → RpcContext Number
  context e v method cell = record {
    method = method;
    channel = e.channel;
    message_id = if is_one_shot e then none else id_of e;
    request_message_id = id_of e;
    data_of = v;
    cell = cell;
  }

  abbrev pub Begun : Type 0
  Begun = RpcState Number × Option (RpcContext Number × Value Number × ℕ)

  -- The command is tracked before its handler runs.
  abbrev pub begin_with :
      Event Number → Value Number → String × Value Number → Option ℕ → RpcState Number → Begun
  begin_with e v request none st = (st, none)
  begin_with e v (method, payload) (some handler) st =
      let ctx = context e v method st.next_cell in
      (
        track ctx.request_message_id ctx (record st { next_cell = suc st.next_cell }),
        some (ctx, payload, handler),
      )

  abbrev pub begin_accepted :
      Event Number → Value Number → Option (String × Value Number) → RpcState Number → Begun
  begin_accepted e v none st = (st, none)
  begin_accepted e v (some request) st =
      begin_with e v request (get_handler e.channel request.0 st) st

  abbrev pub begin_body : Event Number → Option (Value Number) → RpcState Number → Begun
  begin_body e none st = (st, none)
  begin_body e (some v) st = begin_accepted e v (accepted e v) st

  -- `handle_request` up to the call of the handler: the context, the payload and the handler.
  unfoldable pub begin_request : Event Number → RpcState Number → Begun
  begin_request e st = begin_body e (message_data e) st

  abbrev pub result_payload : Outcome Number → Value Number
  result_payload (ok response) = object (
      entry "status" (object (entry "code" (string "success") (entry "message" null end)))
        (entry "response" response end))
  result_payload (err e) = object (
      entry "status"
        (object (
          entry "code" (string "error") (
            entry "message"
              (object (entry "code" (string e.code) (entry "message" (string e.message) end)))
              end)))
        (entry "response" (object end) end))

  -- Only a command that has a message and was not cancelled is answered.
  abbrev pub answer :
      RpcContext Number → Outcome Number → Option ℕ → Option (Value Number) → Option (Update Number)
  answer ctx result none cancelled = none
  answer ctx result (some id) (some body) = none
  answer ctx result (some id) none =
      some (record { channel = ctx.channel; message_id = id; payload = result_payload result })

  -- `handle_request` after the handler: the write of its result, if there is one.
  unfoldable pub finish_request :
      RpcContext Number
      → Outcome Number
      → RpcState Number
      → RpcState Number × Option (Update Number)
  finish_request ctx result st =
      (untrack ctx.request_message_id st, answer ctx result ctx.message_id (cancellation ctx st))
