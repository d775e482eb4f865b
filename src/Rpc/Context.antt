-- ===== src/Rpc/Context.antt =====
-- doover/src/rpc.rs: what a handler reads off its context. The cancellation of a context is an
-- argument.
use doover_rs.Base.{String, Bool, false, Option, none, some, and_then}
use doover_rs.Base.Int.{ℤ}
use doover_rs.Json.{Value, at}
use doover_rs.Rpc.{
  Readers, RpcError, RpcContext, as_str, command_expires_at, command_is_expired, cancelled_error,
}

module _ (𝓡 : Readers) where
  open 𝓡 use {Number}

  abbrev pub actor : RpcContext Number → Option (Value Number)
  actor ctx = at ctx.data_of "actor"

  abbrev pub reason : RpcContext Number → Option String
  reason ctx = and_then (at ctx.data_of "reason") as_str

  abbrev pub old_value : RpcContext Number → Option (Value Number)
  old_value ctx = at ctx.data_of "old_value"

  abbrev pub retry_of : RpcContext Number → Option String
  retry_of ctx = and_then (at ctx.data_of "retry_of") as_str

  abbrev pub expires_at : RpcContext Number → Option ℤ
  expires_at ctx = and_then ctx.request_message_id (λ id. command_expires_at 𝓡 id ctx.data_of)

  abbrev pub is_expired : ℤ → RpcContext Number → Bool
  is_expired now ctx = elim ctx.request_message_id [
    | none ↦ false
    | some id ↦ command_is_expired 𝓡 now id ctx.data_of
  ]

  -- `none` is `Ok`.
  abbrev pub error_if_cancelled : RpcContext Number → Option (Value Number) → Option RpcError
  error_if_cancelled ctx none = none
  error_if_cancelled ctx (some body) = some (cancelled_error 𝓡 ctx.method)

  abbrev pub cancelled_by : Option (Value Number) → Option (Value Number)
  cancelled_by cancelled = and_then cancelled (λ body. at body "cancelled_by")
