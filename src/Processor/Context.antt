-- ===== src/Processor/Context.antt =====
-- doover/src/processor/application.rs: the methods of a `ProcessorContext` that write to the cloud. A clock's
-- reading is an argument.
pub mod Pings
use doover_rs.Base.{
  ℕ, zero, suc, ◌+◌, ◌-◌, ◌*◌, ◌/◌, ◌%◌, ◌^◌, ◌≡◌, refl, ap, ◌∙◌, String, Bool, true, false, not,
  ◌&&◌, ◌||◌, Option, none, some, List, [], ◌∷◌, ◌++◌, ltb, ◌==◌, str_eq, eq_iff, unwrap_or,
  and_then, if◌then◌else◌, if_elim, Bool-cases, inl, inr, arith,
}
use doover_rs.Base.Text.{append}
use doover_rs.Errors.{DooverError, Result, ok, err, ◌>>=◌}
use doover_rs.Json.{
  Value, Map, null, bool, string, array, number, object, end, entry, get, insert, at, is_empty,
  get-insert,
}
use doover_rs.Cloud.{Sent, AggregateOptions, default_options, given, then_result}
use doover_rs.Cloud.Calls.{update_connection_config, update_channel_aggregate_http}
use doover_rs.Cloud.Backend.{
  ConnectionStatus, ConnectionDetermination, online, offline, ping_connection_at, done as unit_of,
}
use doover_rs.Notifications.{
  Notification, NotificationPolicy, application, with_topic, send_notification,
}
use doover_rs.Processor.Payloads.{Readings}
use doover_rs.Processor.Invocation.{Context, Live}
use doover_rs.Processor.Setup.{Cloudlet}

pub record PingOptions : Type 0 where
  pub online_at_ms : Option ℕ
  pub connection_status : ConnectionStatus
  pub offline_at_ms : Option ℕ

-- The product is a `u64`, cut as without overflow checks.
abbrev pub determination_of : ℕ → ℕ → ℕ → ConnectionDetermination
determination_of now online_at secs =
    if ltb (secs * 1000 % 2 ^ 64) (now - online_at) then offline else online

abbrev pub is_stored : Option ℕ → ℕ → Bool
is_stored none secs = false
is_stored (some n) secs = n == secs

module _ {N : Type 0} where
  -- `Value::as_u64`
  abbrev pub as_u64 : Readings N → Value N → Option ℕ
  as_u64 𝓝 (number n) = 𝓝.number_u64 n
  as_u64 𝓝 _ = none

  -- What the configuration says of the time after which a device counts as offline.
  abbrev pub stored_after : Readings N → Value N → Option ℕ
  stored_after 𝓝 config = and_then (at config "offline_after") (as_u64 𝓝)

  abbrev pub offline_after : Readings N → ℕ → Option ℕ → Value N → ℕ
  offline_after 𝓝 online_at none config = unwrap_or (stored_after 𝓝 config) 3600
  offline_after 𝓝 online_at (some offline_at) config = (offline_at - online_at) / 1000

  -- The configuration to write, if there is one and it says otherwise.
  abbrev pub updated_config : Readings N → ℕ → Value N → Option (Value N)
  updated_config 𝓝 secs (object m) =
      if is_empty m || is_stored (stored_after 𝓝 (object m)) secs
      then none
      else some (object (insert "offline_after" (number (𝓝.of_u64 secs)) m))
  updated_config 𝓝 secs _ = none

  abbrev pub if_given : Option ℕ → Option (Value N) → Option (Value N)
  if_given none v = none
  if_given (some _) v = v

  -- What a call of the client leaves.
  abbrev pub after_call : {A : Type 0} → Sent N A → Live N → Live N × Result DooverError A
  after_call s live = (record live { sent = live.sent ++ s.requests }, s.result)

  abbrev pub and_then_call :
      {A B : Type 0}
      → Live N × Result DooverError A
      → (Live N → Live N × Result DooverError B)
      → Live N × Result DooverError B
  and_then_call (live, ok a) f = f live
  and_then_call (live, err e) f = (live, err e)

  module _ (𝓒 : Cloudlet N) (ctx : Context N) where
    open 𝓒 use {server, readings}

    -- The changed configuration is kept, and then written.
    abbrev pub save_config : Option (Value N) → Live N → Live N × Result DooverError (Unit {0})
    save_config none live = (live, ok tt)
    save_config (some config) live =
        after_call
          (then_result
            (update_connection_config server readings live.client config (some ctx.agent_id))
            unit_of)
          (record live { connection_config = config })

    abbrev pub ping :
        ℕ
        → ℕ
        → PingOptions
        → ConnectionDetermination
        → Live N
        → Live N × Result DooverError (Unit {0})
    ping later online_at opts determination live =
        after_call
          (ping_connection_at server readings live.client later (record {
            online_at_ms = online_at;
            connection_status = opts.connection_status;
            determination = determination;
            ping_at_ms = none;
            user_agent = some (append "doover-rs-processor,app_key=" ctx.app_key);
            ip_address = none;
            agent_id = some ctx.agent_id;
          }))
          live

    -- The clock is read twice.
    unfoldable pub ping_connection :
        ℕ → ℕ → PingOptions → Live N → Live N × Result DooverError (Unit {0})
    unfolding ping_connection_at update_connection_config
    ping_connection now later opts live =
        let online_at = unwrap_or opts.online_at_ms now in
        let secs = offline_after readings online_at opts.offline_at_ms live.connection_config in
        and_then_call
          (save_config
            (if_given opts.offline_at_ms (updated_config readings secs live.connection_config))
            live)
          (ping later online_at opts (determination_of now online_at secs))

    abbrev pub ui_options : Bool → AggregateOptions
    ui_options clear =
        if clear
        then record default_options { replace_keys = append "state.children." ctx.app_key ∷ [] }
        else default_options

    unfoldable pub publish_ui_schema :
        Value N → Bool → Live N → Live N × Result DooverError (Unit {0})
    unfolding update_channel_aggregate_http
    publish_ui_schema schema clear live =
        after_call
          (then_result
            (update_channel_aggregate_http server live.client "ui_state"
              (object (
                entry "state"
                  (object (entry "children" (object (entry ctx.app_key schema end)) end)) end))
              (ui_options clear) none)
            unit_of)
          live

    unfoldable pub send_notification_event :
        (String → String)
        → Notification
        → String
        → NotificationPolicy
        → Live N
        → Live N × Result DooverError (Value N)
    unfolding application send_notification
    send_notification_event quote_text n event policy live =
        after_call
          (given (application quote_text ctx.app_key event policy)
            (λ topic. send_notification server readings live.client (with_topic topic n) none))
          live
