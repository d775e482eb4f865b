-- ===== src/Examples/Cloud.antt =====
-- Examples of the cloud client and of the channels of the sidecars.
use doover_rs.Base.{
  ℕ, zero, suc, ◌≡◌, ◌≢◌, ◌≤◌, ◌+◌, ◌*◌, ◌^◌, refl, inl, true, none, some, List, [], ◌∷◌, length,
  str_eq,
}
use doover_rs.Base.Int.{pos}
use doover_rs.Errors.{http, ok}
use doover_rs.Json.{Value, number, object, end, entry}
use doover_rs.Processor.Payloads.{Readings}
use doover_rs.Cloud.{
  Method, HttpRequest, post, Server, Answer, answered, again, DataClient, new_client, set_agent_id,
  set_app_key, set_token, set_invoking_channel, default_options, request, verdict, finished,
}
use doover_rs.Cloud.Calls.{create_message_http, update_channel_aggregate_http}
use doover_rs.Cloud.Attempts.{total, request_bounds, request_settled}
use doover_rs.Cloud.Guard.{IsOwn, guarded_write}
use doover_rs.Grpc
use doover_rs.Grpc.{
  Code, unavailable, SharedChannel, new_shared, Attempt, replied, refused, Headed, Header, call,
  unary, check,
}
use doover_rs.Grpc.Retry.{IsBuilt, IsCalled, call-IsCalled}
use doover_rs.Grpc.Fresh.{IsUnavailable, call-IsUnavailable}

abbrev pub readings : Readings ℕ
readings = record {
  number_u64 = λ n. some n;
  number_i64 = λ n. some (pos n);
  number_text = λ n. "1";
  of_u64 = λ n. n;
}

-- A server that fails once, and then answers an empty object.
abbrev pub flaky : Server ℕ
flaky r zero = answered 503 "busy" (ok none)
flaky r (suc n) = answered 200 "" (ok (some (object end)))

abbrev pub client : DataClient
client =
    set_app_key "app"
      (set_agent_id 7 (set_token "token" (new_client "https://data.doover.com/api")))

request_bounds_example :
    (length (request flaky client post "/agents/7" none []).requests ≤ 3)
    × (total (request flaky client post "/agents/7" none []).waits + 1000 ≤ 1000 * 2 ^ 2)
request_bounds_example = request_bounds flaky client post "/agents/7" none [] 2 refl

request_settled_example :
    ((request flaky client post "/agents/7" none []).result ≡ ok (some (object end)))
    × (length (request flaky client post "/agents/7" none []).requests ≡ 2)
request_settled_example =
    request_settled flaky client post "/agents/7" none [] 1 1 (ok (some (object end))) refl
      ((http (pos 503) "busy", refl), tt) refl

-- A processor run by the tags' channel.
abbrev invoked : DataClient
invoked = set_invoking_channel (some "tag_values") client

-- {"app": 1}
abbrev own : Value ℕ
own = object (entry "app" (number 1) end)

not_empty : {x : HttpRequest ℕ} {xs : List (HttpRequest ℕ)} → x ∷ xs ≢ []
not_empty e = cc

guarded_write_example : (str_eq "tag_values" "tag_values" ≡ true) × IsOwn "app" own
unfolding create_message_http update_channel_aggregate_http request
    doover_rs.Cloud.Calls.has_other_key doover_rs.Cloud.attempts
guarded_write_example =
    guarded_write flaky readings invoked "tag_values" "app" own none none default_options refl refl
      (inl not_empty)

-- A service whose first channel is gone; the second attempt is answered.
abbrev gone_once : Attempt (Headed ℕ)
gone_once ch zero = refused (record { code = unavailable; message = "gone" })
gone_once ch (suc n) = replied (record { header = none; body = 5 })

abbrev gone : Attempt ℕ
gone ch n = refused (record { code = unavailable; message = "gone" })

abbrev shared : SharedChannel
shared = new_shared "doover.PlatformInterface"

shared-IsBuilt : IsBuilt shared
shared-IsBuilt ch h = absurd (let wrong : none ≡ some ch = h in cc)

call-IsCalled_example : IsCalled 0 (call gone shared)
call-IsCalled_example = call-IsCalled gone shared shared-IsBuilt

call-IsUnavailable_example : IsUnavailable gone 0 (record { code = unavailable; message = "gone" })
unfolding call Grpc.call_once
call-IsUnavailable_example = call-IsUnavailable gone shared _ shared-IsBuilt refl refl
