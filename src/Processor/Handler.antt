-- ===== src/Processor/Handler.antt =====
-- doover/src/processor/handler.rs, `unwrap_event`: the event of an invocation. The parser of
-- serde_json is a parameter, and the errors are told apart by what went wrong.
use doover_rs.Base.{◌≡◌, refl, String, Option, none, some, str_eq, and_then, if◌then◌else◌}
use doover_rs.Json.{Value, Map, string, array, object, nil, cons, end, entry, get, at}
use doover_rs.Rpc.{as_str}

pub data Unwrapped (N : Type 0) : Type 0 where
  event : Value N → Option String → Unwrapped N
  missing_message : Unwrapped N
  not_json : Unwrapped N
  unknown_source : Unwrapped N

module _ {N : Type 0} where
  -- `get(0)`, which only an array answers.
  abbrev pub first : Value N → Option (Value N)
  first (array (cons v vs)) = some v
  first _ = none

  abbrev pub record_of : Value N → Option (Value N)
  record_of e = and_then (at e "Records") first

  abbrev pub source_of : Value N → Option String
  source_of e = and_then (and_then (record_of e) (λ r. at r "EventSource")) as_str

  abbrev pub sns_message : Value N → Option String
  sns_message r = and_then (and_then (at r "Sns") (λ s. at s "Message")) as_str

  abbrev pub parsed : Option (Value N) → Option String → Unwrapped N
  parsed none subscription_id = not_json
  parsed (some v) subscription_id = event v subscription_id

  abbrev pub unwrap_message :
      (String → Option (Value N)) → Option String → Option String → Unwrapped N
  unwrap_message from_str none subscription_id = missing_message
  unwrap_message from_str (some message) subscription_id = parsed (from_str message) subscription_id

  abbrev pub unwrap_source :
      (String → Option (Value N)) → Value N → Option (Value N) → Option String → Unwrapped N
  unwrap_source from_str e rec none = event e none
  unwrap_source from_str e none (some source) = unknown_source
  unwrap_source from_str e (some r) (some source) =
      if str_eq source "aws:sns"
      then unwrap_message from_str (sns_message r) (and_then (at r "EventSubscriptionArn") as_str)
      else unknown_source

  unfoldable pub unwrap_event : (String → Option (Value N)) → Value N → Unwrapped N
  unwrap_event from_str e = unwrap_source from_str e (record_of e) (source_of e)

  -- The envelope in which a payload's text arrives from SNS.
  abbrev pub sns_envelope : String → String → Value N
  sns_envelope message arn = object (
      entry "Records"
        (array (
          cons
            (object (
              entry "EventSource" (string "aws:sns") (
                entry "EventSubscriptionArn" (string arn)
                  (entry "Sns" (object (entry "Message" (string message) end)) end))))
            nil))
        end)

  -- A payload printed into an SNS envelope is unwrapped to the payload with the subscription's
  -- name, if the parser reads back what was printed.
  pub unwrap_event-sns_envelope :
      (print : Value N → String) (from_str : String → Option (Value N)) (v : Value N) (arn : String)
      → from_str (print v) ≡ some v
      → unwrap_event from_str (sns_envelope (print v) arn) ≡ event v (some arn)
  unfolding unwrap_event get
  unwrap_event-sns_envelope print from_str v arn h = rw (h) refl

  -- A payload that is itself an object without records is passed on as it is.
  pub unwrap_event_direct :
      (from_str : String → Option (Value N)) (m : Map N)
      → get "Records" m ≡ none
      → unwrap_event from_str (object m) ≡ event (object m) none
  unfolding unwrap_event
  unwrap_event_direct from_str m h = rw (h) refl
