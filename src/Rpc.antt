-- ===== src/Rpc.antt =====
-- doover/src/rpc.rs: the messages of a remote call, their statuses, their expiry, and the context of
-- a running handler. What serde_json and the standard library compute on numbers and text is a
-- parameter, and so is the clock.
pub mod Calls
pub mod Context
pub mod Manager
pub mod Serve
pub mod Resolve
pub mod Cancelled
pub mod Dispatched
pub mod Replies
use doover_rs.Base.{
  ℕ, String, Bool, true, false, not, ◌&&◌, ◌||◌, Option, none, some, str_eq, is_some, and_then,
  unwrap_or, if◌then◌else◌,
}
use doover_rs.Base.Int.{ℤ, pos, int_leb, wrap_i64, ◌+ℤ◌}
use doover_rs.Json.{
  Value, Map, null, bool, number, string, array, object, end, entry, get, insert, at,
}
use doover_rs.Snowflake.{unix_millis_from_snowflake}

-- Numbers and text: `as_u64`, `as_f64` cut to an `i64`, `json!` of an `i64`, `str::parse` after
-- `trim`, `trim` with `to_ascii_lowercase`, and `to_string` of a value.
pub record Readers : Type 1 where
  pub Number : Type 0
  pub number_u64 : Number → Option ℕ
  pub number_i64 : Number → Option ℤ
  pub of_i64 : ℤ → Number
  pub parse_u64 : String → Option ℕ
  pub trim_lower : String → String
  pub print_value : Value Number → String
  pub cancelled_text : String → String

pub record RpcError : Type 0 where
  pub code : String
  pub message : String

module _ {N : Type 0} where
  abbrev pub as_str : Value N → Option String
  as_str (string s) = some s
  as_str _ = none

  abbrev pub has_str : Option (Value N) → String → Bool
  has_str v s = elim (and_then v as_str) [ none ↦ false | some t ↦ str_eq t s ]

-- What a handler or a call ends with.
pub data Outcome (N : Type 0) : Type 0 where
  ok : Value N → Outcome N
  err : RpcError → Outcome N

-- A write of a status to the message of a command.
pub record Update (N : Type 0) : Type 0 where
  pub channel : String
  pub message_id : ℕ
  pub payload : Value N

-- The context of a running handler. `cell` is the place where the shared cancellation stands.
pub record RpcContext (N : Type 0) : Type 0 where
  pub method : String
  pub channel : String
  pub message_id : Option ℕ
  pub request_message_id : Option ℕ
  pub data_of : Value N
  pub cell : ℕ

module _ {N : Type 0} where
  abbrev pub status_payload : String → Value N → Value N
  status_payload code message =
      object
        (entry "status" (object (entry "code" (string code) (entry "message" message end))) end)

module _ (𝓡 : Readers) where
  open 𝓡 use {Number, number_i64, of_i64, trim_lower, print_value, cancelled_text}

  abbrev pub value_to_message : Value Number → String
  value_to_message (string s) = s
  value_to_message v = print_value v

  -- `RpcError::cancelled`
  abbrev pub cancelled_error : String → RpcError
  cancelled_error method = record { code = "CANCELLED"; message = cancelled_text method }

  abbrev pub number_ms : Value Number → Option ℤ
  number_ms (number n) = number_i64 n
  number_ms _ = none

  -- The sum is an `i64`, cut as without overflow checks.
  abbrev pub command_expires_at : ℕ → Value Number → Option ℤ
  command_expires_at id v = elim (and_then (at v "expires_after") number_ms) [
    | none ↦ none
    | some after ↦ some (wrap_i64 (wrap_i64 (pos (unix_millis_from_snowflake id)) +ℤ after))
  ]

  unfoldable pub command_is_expired : ℤ → ℕ → Value Number → Bool
  command_is_expired now id v = elim (command_expires_at id v) [
    | none ↦ false
    | some expires_at ↦ int_leb expires_at now
  ]

  abbrev pub is_cancelled_text : String → Bool
  is_cancelled_text s =
      str_eq (trim_lower s) "command cancelled" || str_eq (trim_lower s) "command canceled"

  abbrev pub cancelled_info : Option String → Bool
  cancelled_info none = false
  cancelled_info (some s) = is_cancelled_text s

  abbrev pub cancelled_message : Option (Value Number) → Bool
  cancelled_message (some (string text)) = is_cancelled_text text
  cancelled_message (some (object m)) =
      (is_some (get "cancelled_at" m) || is_some (get "cancelled_by" m))
      || cancelled_info (and_then (get "info" m) as_str)
  cancelled_message _ = false

  unfoldable pub status_is_cancelled : Value Number → Bool
  status_is_cancelled status =
      if has_str (at status "code") "error" then cancelled_message (at status "message") else false

  abbrev pub cancelled_status : Option (Value Number) → Bool
  cancelled_status none = false
  cancelled_status (some status) = status_is_cancelled status

  abbrev pub command_is_cancelled : Value Number → Bool
  command_is_cancelled v = cancelled_status (at v "status")

  -- What is kept of a cancellation: the body of its message if that is an object.
  abbrev pub cancellation_body : Option (Value Number) → Value Number
  cancellation_body (some (object m)) = object m
  cancellation_body _ = object end

  -- The fields of a progress report: an object or nothing.
  abbrev pub progress_fields : Value Number → Option (Map Number)
  progress_fields (object m) = some m
  progress_fields null = some end
  progress_fields _ = none

  abbrev pub with_text : Option String → Map Number → Map Number
  with_text none m = m
  with_text (some text) m = insert "text" (string text) m

  -- What a report of a handler comes to: a write, nothing since the command is cancelled, or an
  -- error before anything is written.
  pub data Report : Type 0 where
    written : Update Number → Report
    silent : Report
    refused : Report

  -- The checks that `progress`, `acknowledge` and `defer` share; a payload that cannot be built is
  -- refused after them.
  abbrev pub report_with :
      String → Option ℕ → Option (Value Number) → Option (Value Number) → Report
  report_with channel none cancelled payload = refused
  report_with channel (some id) (some body) payload = silent
  report_with channel (some id) none none = refused
  report_with channel (some id) none (some v) =
      written (record { channel = channel; message_id = id; payload = v })

  abbrev pub report : RpcContext Number → Option (Value Number) → Option (Value Number) → Report
  report ctx cancelled payload = report_with ctx.channel ctx.message_id cancelled payload

  abbrev pub progress_payload : Option String → Option (Map Number) → Option (Value Number)
  progress_payload text none = none
  progress_payload text (some m) = some (status_payload "pending" (object (with_text text m)))

  unfoldable pub progress :
      RpcContext Number → Option (Value Number) → Option String → Value Number → Report
  progress ctx cancelled text fields =
      report ctx cancelled (progress_payload text (progress_fields fields))

  unfoldable pub acknowledge : RpcContext Number → Option (Value Number) → ℤ → Report
  acknowledge ctx cancelled now =
      report ctx cancelled (
        some (status_payload "acknowledged" (object (entry "timestamp" (number (of_i64 now)) end))))

  -- The seconds stand as the milliseconds they are cut to.
  unfoldable pub defer : RpcContext Number → Option (Value Number) → ℤ → ℤ → Report
  defer ctx cancelled now wait_ms = report ctx cancelled (
      some (
        status_payload "deferred" (
          object (
            entry "until" (number (of_i64 (wrap_i64 (now +ℤ wait_ms))))
              (entry "at" (number (of_i64 now)) end)))))
