-- ===== src/Cloud/Backend.antt =====
-- doover/src/api/data.rs: the `ChannelBackend` of a `DataClient`, through which the tags of a processor are
-- written, and `ping_connection_at`.
use doover_rs.Base.{ℕ, String, true, Option, none, some, unwrap_or}
use doover_rs.Errors.{DooverError, not_found, Result, ok, err}
use doover_rs.Json.{Value, null, string, number, object, end, entry, at}
use doover_rs.Processor.Payloads.{Readings, id_or_zero}
use doover_rs.Cloud.{AggregateOptions, UpdateMessageOptions, DataClient, Sent, Server, then_result}
use doover_rs.Cloud.Calls.{
  fetch_channel_aggregate_raw, update_channel_aggregate_http, create_message_http,
  update_message_http, write_connection,
}

pub data ConnectionDetermination : Type 0 where
  online offline : ConnectionDetermination

abbrev pub determination_text : ConnectionDetermination → String
determination_text online = "Online"
determination_text offline = "Offline"

pub data ConnectionStatus : Type 0 where
  continuous_online continuous_online_no_ping continuous_offline : ConnectionStatus
  continuous_pending periodic_unknown unknown : ConnectionStatus

abbrev pub status_text : ConnectionStatus → String
status_text continuous_online = "ContinuousOnline"
status_text continuous_online_no_ping = "ContinuousOnlineNoPing"
status_text continuous_offline = "ContinuousOffline"
status_text continuous_pending = "ContinuousPending"
status_text periodic_unknown = "PeriodicUnknown"
status_text unknown = "Unknown"

pub record PingConnectionArgs : Type 0 where
  pub online_at_ms : ℕ
  pub connection_status : ConnectionStatus
  pub determination : ConnectionDetermination
  pub ping_at_ms : Option ℕ
  pub user_agent : Option String
  pub ip_address : Option String
  pub agent_id : Option ℕ

abbrev pub done : {A : Type 0} → A → Result DooverError (Unit {0})
done _ = ok tt

module _ {N : Type 0} where
  -- A channel that is not there has no data.
  abbrev pub absent_data : Result DooverError (Value N) → Result DooverError (Option (Value N))
  absent_data (ok payload) = ok (at payload "data")
  absent_data (err (not_found _)) = ok none
  absent_data (err e) = err e

  abbrev pub opt_text : Option String → Value N
  opt_text none = null
  opt_text (some s) = string s

  module _ (server : Server N) (𝓝 : Readings N) (c : DataClient) where
    unfoldable pub fetch_channel_data : String → Sent N (Option (Value N))
    unfolding fetch_channel_aggregate_raw
    fetch_channel_data channel =
        let s = fetch_channel_aggregate_raw server c channel none in
        record { requests = s.requests; waits = s.waits; result = absent_data s.result }

    unfoldable pub update_channel_aggregate :
        String → Value N → AggregateOptions → Sent N (Unit {0})
    unfolding update_channel_aggregate_http
    update_channel_aggregate channel v opts =
        then_result
          (update_channel_aggregate_http server c channel v
            (record opts { suppress_response = true }) none)
          done

    unfoldable pub create_message : String → Value N → Sent N ℕ
    unfolding create_message_http
    create_message channel v =
        then_result (create_message_http server 𝓝 c channel v none none)
          (λ created. ok (id_or_zero 𝓝 created "id"))

    unfoldable pub update_message : String → ℕ → Value N → UpdateMessageOptions → Sent N (Unit {0})
    unfolding update_message_http
    update_message channel message_id v opts =
        then_result (update_message_http server c channel message_id v opts none) done

    abbrev pub ping_payload : ℕ → PingConnectionArgs → Value N
    ping_payload now args = object (
        entry "status"
          (object (
            entry "status" (string (status_text args.connection_status)) (
              entry "last_online" (number (𝓝.of_u64 args.online_at_ms)) (
                entry "last_ping" (number (𝓝.of_u64 (unwrap_or args.ping_at_ms now))) (
                  entry "user_agent" (string (unwrap_or args.user_agent "doover-rs-processor"))
                    (entry "ip" (opt_text args.ip_address) end))))))
          (entry "determination" (string (determination_text args.determination)) end))

    unfoldable pub ping_connection_at : ℕ → PingConnectionArgs → Sent N (Unit {0})
    unfolding write_connection
    ping_connection_at now args =
        then_result (write_connection server 𝓝 c (ping_payload now args) args.agent_id) done
