-- ===== src/Rpc/Resolve.antt =====
-- doover/src/rpc.rs: `handle_response`. An update of a message is either a cancellation of a command
-- that runs here or the answer to a call that waits here.
use doover_rs.Base.{
  ℕ, String, Bool, true, false, ◌||◌, Option, none, some, str_eq, ◌==◌, and_then, unwrap_or,
  if◌then◌else◌,
}
use doover_rs.Base.Int.{ℤ}
use doover_rs.Base.Table.{find}
use doover_rs.Json.{Value, object, end, get, at}
use doover_rs.Events.{Event, message_data}
use doover_rs.Rpc.{
  Readers, RpcError, cancelled_error, as_str, Outcome, ok, err, RpcContext, status_is_cancelled,
  cancellation_body, value_to_message,
}
use doover_rs.Rpc.Manager.{RpcState, mark_cancelled, resolve_pending}
use doover_rs.Rpc.Serve.{id_of}

module _ (𝓡 : Readers) (own_key : Option String) (now : ℤ) where
  open 𝓡 use {Number}

  abbrev pub is_intermediate : String → Bool
  is_intermediate code =
      ((str_eq code "sent" || str_eq code "acknowledged") || str_eq code "deferred")
      || str_eq code "pending"

  abbrev pub error_of : Option (Value Number) → RpcError
  error_of (some (object m)) = record {
    code = unwrap_or (and_then (get "code" m) as_str) "UNKNOWN";
    message = elim (get "message" m) [ none ↦ "" | some v ↦ value_to_message 𝓡 v ];
  }
  error_of (some v) = record { code = "UNKNOWN"; message = value_to_message 𝓡 v }
  error_of none = record { code = "UNKNOWN"; message = "" }

  -- What a terminal status tells the waiting call.
  abbrev pub outcome_of : Value Number → Value Number → String → Option (Outcome Number)
  outcome_of v status code =
      if str_eq code "success"
      then some (ok (unwrap_or (at v "response") (object end)))
      else if str_eq code "error"
      then some (err (error_of (at status "message")))
      else none

  abbrev pub unless_none :
      Option (Outcome Number) → ℕ → RpcState Number → RpcState Number × Option (ℕ × Outcome Number)
  unless_none none id st = (st, none)
  unless_none (some outcome) id st = resolve_pending id outcome st

  -- The update of a call of ours, or of a command that no longer runs here.
  abbrev pub settle :
      Value Number
      → Value Number
      → ℕ
      → RpcState Number
      → RpcState Number × Option (ℕ × Outcome Number)
  settle v status id st =
      let code = unwrap_or (and_then (at status "code") as_str) "" in
      if is_intermediate code
      then (st, none)
      else if status_is_cancelled 𝓡 status
      then resolve_pending id
          (err (cancelled_error 𝓡 (unwrap_or (and_then (at v "method") as_str) "unknown"))) st
      else unless_none (outcome_of v status code) id st

  abbrev pub serving : Bool → ℕ → RpcState Number → Option (RpcContext Number)
  serving false id st = none
  serving true id st = find (λ a b. a == b) id st.inflight

  -- A cancellation goes to the command that runs here, if it does.
  abbrev pub respond_in :
      Option (RpcContext Number)
      → Value Number
      → Value Number
      → ℕ
      → RpcState Number
      → RpcState Number × Option (ℕ × Outcome Number)
  respond_in (some ctx) v status id st =
      (mark_cancelled ctx (cancellation_body 𝓡 (at status "message")) st, none)
  respond_in none v status id st = settle v status id st

  abbrev pub respond_status :
      Value Number
      → Option (Value Number)
      → Option ℕ
      → RpcState Number
      → RpcState Number × Option (ℕ × Outcome Number)
  respond_status v none id st = (st, none)
  respond_status v (some status) none st = (st, none)
  respond_status v (some status) (some id) st =
      respond_in (serving (status_is_cancelled 𝓡 status) id st) v status id st

  abbrev pub respond_body :
      Option (Value Number)
      → Option ℕ
      → RpcState Number
      → RpcState Number × Option (ℕ × Outcome Number)
  respond_body none id st = (st, none)
  respond_body (some v) id st = respond_status v (at v "status") id st

  unfoldable pub handle_response :
      Event Number → RpcState Number → RpcState Number × Option (ℕ × Outcome Number)
  handle_response e st = respond_body (message_data e) (id_of 𝓡 own_key now e) st
