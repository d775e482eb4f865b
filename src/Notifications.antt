-- ===== src/Notifications.antt =====
-- doover/src/models.rs: the notifications, their severities and types, and the topics of an app. How a text is
-- quoted in an error is a parameter.
pub mod Topics
use Prim.Native.Char.{Char, code}
use Prim.Native.String
use doover_rs.Base.{
  ℕ, ◌-◌, String, Bool, true, false, ◌&&◌, ◌||◌, Option, none, some, List, [], ◌∷◌, leb, ◌==◌,
  str_eq, if◌then◌else◌,
}
use doover_rs.Base.Text.{append, trim}
use doover_rs.Errors.{DooverError, invalid_payload, Result, ok, err, ◌>>=◌}
use doover_rs.Json.{Value, Map, string, number, object, end, entry}
use doover_rs.Cloud.{Server, DataClient, Sent, given}
use doover_rs.Cloud.Calls.{create_message_http}
use doover_rs.Processor.Payloads.{Readings}

-- `to_ascii_lowercase`, of one character and of a text.
abbrev pub lower_char : Char → String
lower_char c =
    let n = code c in
    if leb 65 n && leb n 90
    then String.slice "abcdefghijklmnopqrstuvwxyz" (n - 65) (n - 64)
    else String.◌∷◌ c ""

unfoldable pub to_ascii_lowercase : String → String
to_ascii_lowercase String.[] = ""
to_ascii_lowercase (String.◌∷◌ c s) = append (lower_char c) (to_ascii_lowercase s)

pub data NotificationSeverity : Type 0 where
  trace debug info warn critical : NotificationSeverity

abbrev pub severity_text : NotificationSeverity → String
severity_text trace = "Trace"
severity_text debug = "Debug"
severity_text info = "Info"
severity_text warn = "Warn"
severity_text critical = "Critical"

abbrev pub severity_value : NotificationSeverity → ℕ
severity_value trace = 3
severity_value debug = 4
severity_value info = 5
severity_value warn = 6
severity_value critical = 7

abbrev pub all_severities : List NotificationSeverity
all_severities = trace ∷ debug ∷ info ∷ warn ∷ critical ∷ []

-- `find`
unfoldable pub find_in {ℓ} : {A : Type ℓ} → (A → Bool) → List A → Option A
find_in p [] = none
find_in p (x ∷ xs) = let rest = find_in p xs in if p x then some x else rest

unfoldable pub severity_from_value : ℕ → Option NotificationSeverity
unfolding find_in
severity_from_value value = find_in (λ s. severity_value s == value) all_severities

-- The misspellings.
abbrev pub severity_alias : String → Option NotificationSeverity
severity_alias key =
    if str_eq key "warning"
    then some warn
    else if str_eq key "error" || str_eq key "err" || str_eq key "fatal" || str_eq key "crit"
    then some critical
    else none

abbrev pub found_or {ℓ} : {A : Type ℓ} → Option A → Option A → String → Result DooverError A
found_or (some a) other_way message = ok a
found_or none (some a) message = ok a
found_or none none message = err (invalid_payload message)

pub data NotificationType : Type 0 where
  email sms web_push http_call placeholder firebase_push : NotificationType

abbrev pub type_text : NotificationType → String
type_text email = "Email"
type_text sms = "Sms"
type_text web_push = "WebPush"
type_text http_call = "Http"
type_text placeholder = "Placeholder"
type_text firebase_push = "FirebasePush"

abbrev pub type_value : NotificationType → ℕ
type_value email = 1
type_value sms = 2
type_value web_push = 3
type_value http_call = 4
type_value placeholder = 5
type_value firebase_push = 6

abbrev pub all_types : List NotificationType
all_types = email ∷ sms ∷ web_push ∷ http_call ∷ placeholder ∷ firebase_push ∷ []

unfoldable pub type_from_value : ℕ → Option NotificationType
unfolding find_in
type_from_value value = find_in (λ t. type_value t == value) all_types

pub data NotificationPolicy : Type 0 where
  default opt_in : NotificationPolicy

abbrev pub policy_text : NotificationPolicy → String
policy_text default = "default"
policy_text opt_in = "opt-in"

-- The characters of a segment, and those that it may begin with.
abbrev pub is_first_char : Char → Bool
is_first_char c = let n = code c in (leb 97 n && leb n 122) || (leb 48 n && leb n 57)

abbrev pub is_segment_char : Char → Bool
is_segment_char c = let n = code c in is_first_char c || (n == 46) || (n == 95) || (n == 45)

unfoldable pub all_chars : (Char → Bool) → String → Bool
all_chars p String.[] = true
all_chars p (String.◌∷◌ c s) = p c && all_chars p s

abbrev pub first_char : (Char → Bool) → String → Bool
first_char p String.[] = false
first_char p (String.◌∷◌ c s) = p c

unfoldable pub is_segment : String → Bool
unfolding all_chars
is_segment value = first_char is_first_char value && all_chars is_segment_char value

abbrev pub topic_text : NotificationPolicy → String → String → String
topic_text policy app_key event =
    append "dev/applications/"
      (append (policy_text policy) (append "/" (append app_key (append "/" event))))

module _ (quote_text : String → String) where
  unfoldable pub severity_from_str : String → Result DooverError NotificationSeverity
  unfolding find_in
  severity_from_str s =
      let key = to_ascii_lowercase (trim s) in
      found_or (find_in (λ m. str_eq (to_ascii_lowercase (severity_text m)) key) all_severities)
        (severity_alias key)
        (append (quote_text s)
          " is not a valid NotificationSeverity — expected one of Trace, Debug, Info, Warn, Critical")

  unfoldable pub type_from_str : String → Result DooverError NotificationType
  unfolding find_in
  type_from_str s =
      let key = to_ascii_lowercase (trim s) in
      found_or (find_in (λ m. str_eq (to_ascii_lowercase (type_text m)) key) all_types) none (
        append (quote_text s)
          " is not a valid NotificationType — expected one of Email, Sms, WebPush, Http, Placeholder, FirebasePush")

  unfoldable pub validate_topic_segment : String → String → Result DooverError (Unit {0})
  unfolding is_segment
  validate_topic_segment name value =
      if is_segment value
      then ok tt
      else err (
          invalid_payload (
            append "notification topic "
              (append name (append " must match ^[a-z0-9][a-z0-9._-]*$, got " (quote_text value)))))

  -- `NotificationTopic::application`
  unfoldable pub application : String → String → NotificationPolicy → Result DooverError String
  unfolding validate_topic_segment
  application app_key event policy = validate_topic_segment "app_key" app_key >>= λ _.
      validate_topic_segment "event" event >>= λ _. ok (topic_text policy app_key event)

pub record Notification : Type 0 where
  pub message : String
  pub title : Option String
  pub severity : Option NotificationSeverity
  pub topic : Option String

abbrev pub new_notification : String → Notification
new_notification message = record { message = message; title = none; severity = none; topic = none }

abbrev pub with_title : String → Notification → Notification
with_title t n = record n { title = some t }

abbrev pub set_severity : NotificationSeverity → Notification → Notification
set_severity s n = record n { severity = some s }

abbrev pub with_topic : String → Notification → Notification
with_topic t n = record n { topic = some t }

unfoldable pub validate : Notification → Result DooverError (Unit {0})
validate n =
    if str_eq (trim n.message) ""
    then err (invalid_payload "notification message must not be empty")
    else ok tt

module _ {N : Type 0} where
  abbrev pub with_text : String → Option String → Map N → Map N
  with_text k none m = m
  with_text k (some s) m = entry k (string s) m

  abbrev pub with_severity : (ℕ → N) → Option NotificationSeverity → Map N → Map N
  with_severity of_u64 none m = m
  with_severity of_u64 (some s) m = entry "severity" (number (of_u64 (severity_value s))) m

  abbrev pub to_json : (ℕ → N) → Notification → Value N
  to_json of_u64 n = object (
      entry "message" (string n.message) (
        with_text "title" n.title
          (with_severity of_u64 n.severity (with_text "topic" n.topic end))))

  module _ (server : Server N) (𝓝 : Readings N) (c : DataClient) where
    -- A notification that is not valid is not sent.
    unfoldable pub send_notification : Notification → Option ℕ → Sent N (Value N)
    unfolding validate create_message_http
    send_notification n agent_id =
        given (validate n)
          (λ _. create_message_http server 𝓝 c "notifications" (to_json 𝓝.of_u64 n) none agent_id)
