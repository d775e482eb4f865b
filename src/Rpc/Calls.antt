-- ===== src/Rpc/Calls.antt =====
-- doover/src/rpc.rs: `CallOptions` and the request that a call sends.
use doover_rs.Base.{ℕ, String, Option, none, some, unwrap_or}
use doover_rs.Base.Int.{ℤ, pos, wrap_i64}
use doover_rs.Json.{Value, Map, string, object, number, end, entry, insert}

-- `expires_after` is in whole milliseconds.
pub record CallOptions (N : Type 0) : Type 0 where
  pub channel : String
  pub app_key : Option String
  pub timeout_ms : Option ℕ
  pub actor : Option (Value N)
  pub reason : Option String
  pub old_value : Option (Value N)
  pub expires_after : Option ℕ
  pub retry_of : Option String

module _ {N : Type 0} where
  abbrev pub insert_some : String → Option (Value N) → Map N → Map N
  insert_some key none m = m
  insert_some key (some v) m = insert key v m

  abbrev pub string_of : Option String → Option (Value N)
  string_of none = none
  string_of (some s) = some (string s)

  -- A time in milliseconds, as an `i64`.
  abbrev pub millis_of : (ℤ → N) → Option ℕ → Option (Value N)
  millis_of of_i64 none = none
  millis_of of_i64 (some ms) = some (number (of_i64 (wrap_i64 (pos ms))))

  -- The request that a call sends, field by field.
  unfoldable pub request_fields : (ℤ → N) → CallOptions N → String → Option (Value N) → Map N
  request_fields of_i64 opts method params = insert_some "retry_of" (string_of opts.retry_of) (
      insert_some "expires_after" (millis_of of_i64 opts.expires_after) (
        insert_some "old_value" opts.old_value (
          insert_some "reason" (string_of opts.reason) (
            insert_some "actor" opts.actor (
              insert_some "app_key" (string_of opts.app_key) (
                insert "response" (object end) (
                  insert "status" (object (entry "code" (string "sent") end)) (
                    insert "request" (unwrap_or params (object end))
                      (insert "method" (string method) (insert "type" (string "rpc") end))))))))))

  abbrev pub request_payload : (ℤ → N) → CallOptions N → String → Option (Value N) → Value N
  request_payload of_i64 opts method params = object (request_fields of_i64 opts method params)
