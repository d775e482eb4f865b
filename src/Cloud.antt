-- ===== src/Cloud.antt =====
-- doover/src/api/data.rs: `DataClient`, the client of the cloud. The server is a parameter that answers each
-- attempt of a request; what a client sends and how long it waits are results. The bytes of an answer are given
-- decoded, and the compression of a body is left out.
pub mod Options
pub mod Calls
pub mod Attempts
pub mod Guard
pub mod Backend
use doover_rs.Base.{
  ℕ, zero, suc, ◌+◌, ◌*◌, ◌%◌, ◌^◌, String, Bool, true, false, not, ◌&&◌, ◌||◌, Option, none, some,
  List, [], ◌∷◌, ◌++◌, map, str_eq, ltb, leb, ◌==◌, unwrap_or, or_else, and_then, if◌then◌else◌,
}
use doover_rs.Base.Int.{ℤ, pos}
use doover_rs.Base.Text.{append, print_u64}
pub use doover_rs.Cloud.Options.{
  Qos, standard, at_most_once, AggregateOptions, default_options, UpdateMessageOptions,
}
use doover_rs.Errors.{DooverError, not_found, http, invalid_payload, other, Result, ok, err, ◌>>=◌}
use doover_rs.Json.{Value, Map, Values, null, bool, array, nil, object, end, entry, at}
use doover_rs.Rpc.{as_str}
use doover_rs.Processor.Payloads.{
  Readings, SubscriptionInfo, subscription_info_from, id_or_zero, value_as_id, id_at, ok_or,
}

pub data Method : Type 0 where
  get post put patch : Method

pub record ListMessagesQuery : Type 0 where
  pub before : Option ℕ
  pub after : Option ℕ
  pub limit : Option ℕ
  pub field_names : List String

-- The client with the token of its `BearerAuth`.
pub record DataClient : Type 0 where
  pub base_url : String
  pub token : Option String
  pub agent_id : Option ℕ
  pub organisation_id : Option String
  pub app_key : Option String
  pub invoking_channel : Option String
  pub max_retries : ℕ
  pub retry_delay : ℕ

-- `with_client`; the delay is in milliseconds.
abbrev pub new_client : String → DataClient
new_client base_url = record {
  base_url = base_url;
  token = none;
  agent_id = none;
  organisation_id = none;
  app_key = none;
  invoking_channel = none;
  max_retries = 3;
  retry_delay = 1000;
}

abbrev pub set_token : String → DataClient → DataClient
set_token t c = record c { token = some t }

abbrev pub set_agent_id : ℕ → DataClient → DataClient
set_agent_id n c = record c { agent_id = some n }

abbrev pub set_organisation_id : String → DataClient → DataClient
set_organisation_id o c = record c { organisation_id = some o }

abbrev pub set_app_key : String → DataClient → DataClient
set_app_key k c = record c { app_key = some k }

abbrev pub set_invoking_channel : Option String → DataClient → DataClient
set_invoking_channel ch c = record c { invoking_channel = ch }

-- The agent of a request: the argument, or else the client's.
abbrev pub resolve_agent_id : DataClient → Option ℕ → Result DooverError ℕ
resolve_agent_id c agent_id =
    ok_or (or_else agent_id c.agent_id)
      (other "agent_id must be provided either as a method argument or set on the client")

-- `_raise_for_status`
abbrev pub map_status : ℕ → String → DooverError
map_status status text = if status == 404 then not_found text else http (pos status) text

module _ (N : Type 0) where
  -- A request with the headers that the client's state puts on it.
  pub record HttpRequest : Type 0 where
    pub method : Method
    pub url : String
    pub body : Option (Value N)
    pub query : List (String × String)
    pub token : Option String
    pub organisation_id : Option String

  -- The answer to one attempt: no connection, or a status with the text and the decoded body.
  pub data Answer : Type 0 where
    unsent : DooverError → Answer
    answered : ℕ → String → Result DooverError (Option (Value N)) → Answer

  -- What a client's call does: the requests that it sends, its waits, and its result.
  pub record Sent (A : Type 0) : Type 0 where
    pub requests : List HttpRequest
    pub waits : List ℕ
    pub result : Result DooverError A

  -- Whether an attempt ends the request, or is tried again with the error to keep.
  pub data Verdict : Type 0 where
    finished : Result DooverError (Option (Value N)) → Verdict
    again : DooverError → Verdict

  -- A channel of the cloud.
  pub record CloudChannel : Type 0 where
    pub name : String
    pub owner_id : ℕ
    pub is_private : Bool
    pub aggregate_data : Option (Value N)
    pub raw : Value N

abbrev pub Server : Type 0 → Type 0
Server N = HttpRequest N → ℕ → Answer N

-- The wait after an attempt that is not the last; the factor is a `u32`, cut as without overflow checks. A wait
-- past the largest `Duration`, which ends the program, is not modelled.
abbrev pub pause : ℕ → ℕ → ℕ → List ℕ
pause zero delay attempt = []
pause (suc left) delay attempt = delay * (2 ^ attempt % 2 ^ 32) ∷ []

module _ {N : Type 0} where
  abbrev pub verdict : Answer N → Verdict N
  verdict (unsent e) = again e
  verdict (answered status text body) =
      if leb 500 status
      then again (map_status status text)
      else if leb 400 status
      then finished (err (map_status status text))
      else finished body

  abbrev pub after_attempt :
      HttpRequest N
      → List ℕ
      → Verdict N
      → (DooverError → Sent N (Option (Value N)))
      → Sent N (Option (Value N))
  after_attempt r waits (finished result) retry = record {
    requests = r ∷ [];
    waits = [];
    result = result;
  }
  after_attempt r waits (again e) retry = record {
    requests = r ∷ (retry e).requests;
    waits = waits ++ (retry e).waits;
    result = (retry e).result;
  }

  -- The loop over the attempts: how many are left, the number of the next one, and the last error.
  unfoldable pub attempts :
      Server N → ℕ → HttpRequest N → ℕ → ℕ → Option DooverError → Sent N (Option (Value N))
  attempts server delay r zero attempt last = record {
    requests = [];
    waits = [];
    result = err (unwrap_or last (other (append "request to " (append r.url " failed"))));
  }
  attempts server delay r (suc left) attempt last =
      after_attempt r (pause left delay attempt) (verdict (server r attempt))
        (λ e. attempts server delay r left (suc attempt) (some e))

  -- A call that fails before it sends anything.
  abbrev pub refused : {A : Type 0} → DooverError → Sent N A
  refused e = record { requests = []; waits = []; result = err e }

  -- What a call makes of the result of its request.
  abbrev pub then_result : {A B : Type 0} → Sent N A → (A → Result DooverError B) → Sent N B
  then_result s f = record { requests = s.requests; waits = s.waits; result = s.result >>= f }

  -- A call that needs a value first.
  abbrev pub given : {A B : Type 0} → Result DooverError A → (A → Sent N B) → Sent N B
  given (ok a) f = f a
  given (err e) f = refused e

  module _ (server : Server N) where
    unfoldable pub request :
        DataClient
        → Method
        → String
        → Option (Value N)
        → List (String × String)
        → Sent N (Option (Value N))
    request c method path body query =
        attempts server c.retry_delay
          (record {
            method = method;
            url = append c.base_url path;
            body = body;
            query = query;
            token = c.token;
            organisation_id = c.organisation_id;
          })
          c.max_retries 0 none
