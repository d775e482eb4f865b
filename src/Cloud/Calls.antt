-- ===== src/Cloud/Calls.antt =====
-- doover/src/api/data.rs: the calls of a `DataClient`, each a guard, a request and the reading of its answer.
use doover_rs.Base.{
  ℕ, String, Bool, true, false, not, ◌||◌, Option, none, some, List, [], ◌∷◌, ◌++◌, map, str_eq,
  unwrap_or, and_then, if◌then◌else◌,
}
use doover_rs.Base.Text.{append, print_u64}
use doover_rs.Errors.{DooverError, invalid_payload, other, Result, ok, err, ◌>>=◌}
use doover_rs.Json.{Value, Values, Map, null, bool, array, nil, object, end, entry, at}
use doover_rs.Processor.Payloads.{
  Readings, SubscriptionInfo, subscription_info_from, id_or_zero, text_at, ok_or,
}
use doover_rs.Cloud.{
  Method, get, post, put, patch, AggregateOptions, UpdateMessageOptions, ListMessagesQuery,
  DataClient, HttpRequest, resolve_agent_id, Sent, CloudChannel, Server, then_result, given,
  request, default_options,
}

abbrev pub channel_path : ℕ → String → String → String
channel_path agent channel rest =
    append "/agents/" (append (print_u64 agent) (append "/channels/" (append channel rest)))

abbrev pub flag_param : Bool → String → List (String × String)
flag_param true name = (name, "true") ∷ []
flag_param false name = []

abbrev pub write_method : Bool → Method
write_method true = put
write_method false = patch

abbrev pub is_channel : Option String → String → Bool
is_channel none channel = false
is_channel (some invoking) channel = str_eq invoking channel

abbrev pub aggregate_query : AggregateOptions → List (String × String)
aggregate_query opts =
    flag_param opts.suppress_response "suppress_response"
    ++ flag_param opts.clear_attachments "clear_attachments"
    ++ flag_param opts.save_log "log_update"
    ++ map (λ k. ("replace", k)) opts.replace_keys

abbrev pub bool_param : Bool → String
bool_param true = "true"
bool_param false = "false"

abbrev pub number_param : String → Option ℕ → List (String × String)
number_param name none = []
number_param name (some n) = (name, print_u64 n) ∷ []

abbrev pub list_query : ListMessagesQuery → List (String × String)
list_query q =
    number_param "before" q.before
    ++ number_param "after" q.after
    ++ number_param "limit" q.limit
    ++ map (λ k. ("field_name", k)) q.field_names

module _ {N : Type 0} where
  -- A result that must not be empty.
  abbrev pub not_empty : String → Option (Value N) → Result DooverError (Value N)
  not_empty message v = ok_or v (invalid_payload message)

  -- Whether a key of the data is not the app's.
  unfoldable pub has_other_key : Option String → Map N → Bool
  has_other_key app_key end = false
  has_other_key none (entry k v m) = true
  has_other_key (some app_key) (entry k v m) =
      not (str_eq k app_key) || has_other_key (some app_key) m

  abbrev pub outside_scope : Option String → Value N → Bool
  outside_scope app_key (object m) = has_other_key app_key m
  outside_scope app_key _ = false

  -- The guard against a processor that triggers itself.
  unfoldable pub check_invoking_channel :
      DataClient → String → Value N → Result DooverError (Unit {0})
  check_invoking_channel c channel data_value =
      if not (is_channel c.invoking_channel channel)
      then ok tt
      else if not (str_eq channel "tag_values")
      then err (other "Cannot publish to the invoking channel.")
      else if outside_scope c.app_key data_value
      then err (
          other
            "Cannot publish to tag_values outside the scope of this app without explicit enable.")
      else ok tt

  abbrev pub unless_suppressed : Bool → Option (Value N) → Option (Value N)
  unless_suppressed true v = none
  unless_suppressed false v = v

  abbrev pub with_timestamp : Readings N → Option ℕ → Map N
  with_timestamp 𝓝 none = end
  with_timestamp 𝓝 (some ts) = entry "ts" (Value.number (𝓝.of_u64 ts)) end

  abbrev pub bool_of : Value N → Bool
  bool_of (bool b) = b
  bool_of _ = false

  abbrev pub unless_null : Value N → Option (Value N)
  unless_null null = none
  unless_null v = some v

  unfoldable pub channel_from : Readings N → Value N → Result DooverError (CloudChannel N)
  channel_from 𝓝 raw = do
    name ← ok_or (text_at raw "name") (invalid_payload "channel missing name")
    ok (record {
      name = name;
      owner_id = id_or_zero 𝓝 raw "owner_id";
      is_private = unwrap_or (and_then (at raw "is_private") (λ b. some (bool_of b))) false;
      aggregate_data = and_then (and_then (at raw "aggregate") (λ a. at a "data")) unless_null;
      raw = raw;
    })

  -- An absent list is empty; `print` prints what stands in the place of a list.
  abbrev pub message_list : (Value N → String) → Option (Value N) → Result DooverError (Values N)
  message_list print none = ok nil
  message_list print (some (array items)) = ok items
  message_list print (some v) =
      err (invalid_payload (append "expected message list, got: " (print v)))

  -- The requests of a call, and then those of the next if it succeeds.
  abbrev pub go_on :
      {A B : Type 0} → Result DooverError A → List (HttpRequest N) → List ℕ → Sent N B → Sent N B
  go_on (ok _) requests waits next = record {
    requests = requests ++ next.requests;
    waits = waits ++ next.waits;
    result = next.result;
  }
  go_on (err e) requests waits next = record { requests = requests; waits = waits; result = err e }

  abbrev pub and_also : {A B : Type 0} → Sent N A → Sent N B → Sent N B
  and_also s next = go_on s.result s.requests s.waits next

  module _ (server : Server N) where
    unfoldable pub update_channel_aggregate_http :
        DataClient → String → Value N → AggregateOptions → Option ℕ → Sent N (Option (Value N))
    unfolding check_invoking_channel request
    update_channel_aggregate_http c channel data_value opts agent_id =
        given (check_invoking_channel c channel data_value) (λ _.
          given (resolve_agent_id c agent_id) (λ agent.
            then_result
              (request server c (write_method opts.replace_data)
                (channel_path agent channel "/aggregate") (some data_value) (aggregate_query opts))
              (λ v. ok (unless_suppressed opts.suppress_response v))))

    unfoldable pub create_message_http :
        Readings N → DataClient → String → Value N → Option ℕ → Option ℕ → Sent N (Value N)
    unfolding check_invoking_channel request
    create_message_http 𝓝 c channel data_value timestamp_ms agent_id =
        given (check_invoking_channel c channel data_value) (λ _.
          given (resolve_agent_id c agent_id) (λ agent.
            then_result
              (request server c post (channel_path agent channel "/messages")
                (some (object (entry "data" data_value (with_timestamp 𝓝 timestamp_ms)))) [])
              (not_empty "empty create_message response")))

    unfoldable pub update_message_http :
        DataClient
        → String
        → ℕ
        → Value N
        → UpdateMessageOptions
        → Option ℕ
        → Sent N (Option (Value N))
    unfolding request
    update_message_http c channel message_id data_value opts agent_id =
        given (resolve_agent_id c agent_id) (λ agent.
          request server c (write_method opts.replace_data)
            (channel_path agent channel (append "/messages/" (print_u64 message_id)))
            (some (object (entry "data" data_value end)))
            (flag_param opts.clear_attachments "clear_attachments"))

    -- `GET` of what a path names, which must have an answer.
    abbrev pub fetch : DataClient → String → List (String × String) → String → Sent N (Value N)
    fetch c path query message =
        then_result (request server c get path none query) (not_empty message)

    unfoldable pub fetch_channel_with :
        Readings N → DataClient → String → Bool → Option ℕ → Sent N (CloudChannel N)
    unfolding request
    fetch_channel_with 𝓝 c channel include_aggregate agent_id =
        given (resolve_agent_id c agent_id) (λ agent.
          then_result
            (fetch c (channel_path agent channel "")
              (("include_aggregate", bool_param include_aggregate) ∷ []) "empty channel response")
            (channel_from 𝓝))

    unfoldable pub fetch_channel_aggregate_raw : DataClient → String → Option ℕ → Sent N (Value N)
    unfolding request
    fetch_channel_aggregate_raw c channel agent_id =
        given (resolve_agent_id c agent_id)
          (λ agent. fetch c (channel_path agent channel "/aggregate") [] "empty aggregate response")

    unfoldable pub fetch_message : DataClient → String → ℕ → Option ℕ → Sent N (Value N)
    unfolding request
    fetch_message c channel message_id agent_id = given (resolve_agent_id c agent_id) (λ agent.
        fetch c (channel_path agent channel (append "/messages/" (print_u64 message_id))) []
          "empty message response")

    unfoldable pub list_messages :
        (Value N → String) → DataClient → String → ListMessagesQuery → Option ℕ → Sent N (Values N)
    unfolding request
    list_messages print c channel query agent_id = given (resolve_agent_id c agent_id) (λ agent.
        then_result
          (request server c get (channel_path agent channel "/messages") none (list_query query))
          (message_list print))

    unfoldable pub fetch_subscription_info :
        Readings N → DataClient → String → Sent N (SubscriptionInfo N)
    unfolding request
    fetch_subscription_info 𝓝 c subscription_id =
        then_result
          (fetch c (append "/processors/subscriptions/" subscription_id) []
            "empty subscription info")
          (subscription_info_from 𝓝)

    unfoldable pub fetch_schedule_info :
        Readings N → DataClient → String → Sent N (SubscriptionInfo N)
    unfolding request
    fetch_schedule_info 𝓝 c schedule_id =
        then_result (fetch c (append "/processors/schedules/" schedule_id) [] "empty schedule info")
          (subscription_info_from 𝓝)

    -- A `doover_connection` message, and then the aggregate.
    unfoldable pub write_connection :
        Readings N → DataClient → Value N → Option ℕ → Sent N (Option (Value N))
    unfolding create_message_http update_channel_aggregate_http
    write_connection 𝓝 c payload agent_id =
        and_also (create_message_http 𝓝 c "doover_connection" payload none agent_id)
          (update_channel_aggregate_http c "doover_connection" payload default_options agent_id)

    unfoldable pub update_connection_config :
        Readings N → DataClient → Value N → Option ℕ → Sent N (Option (Value N))
    unfolding write_connection
    update_connection_config 𝓝 c config agent_id =
        write_connection 𝓝 c (object (entry "config" config end)) agent_id
