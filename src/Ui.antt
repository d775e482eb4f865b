-- ===== src/Ui.antt =====
-- doover/src/ui/runtime.rs: `UiRuntime`, the commands and the values of an app's interface, and the publishing of
-- its schema. The backend is a parameter: how it answers a request, and what the other tasks do to the state
-- meanwhile.
pub mod Refs
pub mod Commands
pub mod Publish
use doover_rs.Base.{
  ℕ, String, Bool, true, false, not, ◌||◌, Option, none, some, List, [], ◌∷◌, ◌++◌, str_eq,
  unwrap_or, and_then, if◌then◌else◌,
}
use doover_rs.Base.Int.{ℤ, negsuc}
use doover_rs.Errors.{DooverError, Result, ok, err}
use doover_rs.Json.{Value, null, string, object, end, entry, at}
use doover_rs.Rpc.{as_str}
use doover_rs.Events.{
  Event, is_aggregate_update, is_channel_sync, is_message_create, is_one_shot, aggregate_data,
  message_data, message_id,
}

module _ (N : Type 0) where
  pub record UiCommand : Type 0 where
    pub name : String
    pub value : Value N
    pub message_id : Option ℕ

  pub record UiState : Type 0 where
    pub values : Value N
    pub interactions : List String
    pub last_published : Option String

  -- What the backend is asked to do, with the channel; an update of an aggregate has its maximal age in
  -- seconds if one is set.
  pub data Request : Type 0 where
    update_channel_aggregate : String → Value N → Option ℤ → Request
    create_message : String → Value N → Request
    update_message : String → ℕ → Value N → Request

  -- The backend with the app's key, given the requests sent so far.
  pub record Backend : Type 0 where
    pub answer : List Request → Request → Result DooverError (Unit {0})
    pub meanwhile : List Request → UiState → UiState
    pub app_key : String

  pub record Io : Type 0 where
    pub state : UiState
    pub sent : List Request

abbrev pub is_member : List String → String → Bool
is_member [] name = false
is_member (x ∷ xs) name = str_eq x name || is_member xs name

abbrev pub is_published : Option String → String → Bool
is_published none serialized = false
is_published (some last) serialized = str_eq last serialized

-- Whether a command is for this app: it may name none.
abbrev pub is_for : String → Option String → Bool
is_for app_key none = true
is_for app_key (some target) = str_eq target app_key

abbrev pub is_rpc : Option String → Bool
is_rpc none = false
is_rpc (some kind) = str_eq kind "rpc"

module _ {N : Type 0} where
  abbrev pub new_state : UiState N
  new_state = record { values = object end; interactions = []; last_published = none }

  unfoldable pub set_interactions : List String → UiState N → UiState N
  set_interactions names st = record st { interactions = names }

  abbrev pub get_value : String → UiState N → Option (Value N)
  get_value name st = at st.values name

  module _ (number_u64 : N → Option ℕ) (parse_u64 : String → Option ℕ) (app_key : String) where
    abbrev pub command_id : Event N → Option ℕ
    command_id e = if is_one_shot e then none else message_id number_u64 parse_u64 e

    -- The command of a message whose method is an interaction.
    abbrev pub command_of : Event N → Value N → String → Option (UiCommand N)
    command_of e d method =
        and_then (at d "request")
          (λ v. some (record { name = method; value = v; message_id = command_id e }))

    abbrev pub for_method : UiState N → Event N → Value N → Option String → Option (UiCommand N)
    for_method st e d none = none
    for_method st e d (some method) =
        if not (is_for app_key (and_then (at d "app_key") as_str))
        then none
        else if is_member st.interactions method
        then command_of e d method
        else none

    abbrev pub command_in : UiState N → Event N → Value N → Option (UiCommand N)
    command_in st e d =
        if is_rpc (and_then (at d "type") as_str)
        then for_method st e d (and_then (at d "method") as_str)
        else none

    abbrev pub values_of : Event N → Value N
    values_of e = unwrap_or (and_then (aggregate_data e) (λ d. at d app_key)) (object end)

    -- The state after an event, and the command that it is.
    unfoldable pub handle_event : Event N → UiState N → UiState N × Option (UiCommand N)
    handle_event e st =
        if is_aggregate_update e || is_channel_sync e
        then (record st { values = values_of e }, none)
        else if is_message_create e || is_one_shot e
        then (st, and_then (message_data e) (command_in st e))
        else (st, none)

  module _ (𝓑 : Backend N) where
    abbrev pub send : Request N → Io N → Result DooverError (Unit {0}) × Io N
    send r io = (
      𝓑.answer io.sent r,
      record { state = 𝓑.meanwhile (io.sent ++ r ∷ []) io.state; sent = io.sent ++ r ∷ [] },
    )

    -- What follows only if the request succeeded.
    abbrev pub and_ok :
        {A : Type 0}
        → Result DooverError (Unit {0}) × Io N
        → (Io N → Result DooverError A × Io N)
        → Result DooverError A × Io N
    and_ok (ok _, io) f = f io
    and_ok (err e, io) f = (err e, io)

    abbrev pub log_message : String → Value N → Value N
    log_message name v = object (
        entry "type" (string "log")
          (entry "app_key" (string 𝓑.app_key) (entry "key" (string name) (entry "value" v end))))

    unfoldable pub set_value : String → Value N → Bool → Io N → Result DooverError (Unit {0}) × Io N
    set_value name v log_update io =
        and_ok
          (send
            (update_channel_aggregate "ui_cmds"
              (object (entry 𝓑.app_key (object (entry name v end)) end)) none)
            io)
          (λ io'.
            if log_update
            then send (create_message "ui_cmds" (log_message name v)) io'
            else (ok tt, io'))

    -- A command without a message is answered by nothing.
    abbrev pub respond : Option ℕ → Value N → Io N → Result DooverError (Unit {0}) × Io N
    respond none v io = (ok tt, io)
    respond (some id) v io = send (update_message "ui_cmds" id v) io

    abbrev pub success_payload : Value N
    success_payload = object (
        entry "status" (object (entry "code" (string "success") (entry "message" null end)))
          (entry "response" (object end) end))

    abbrev pub error_payload : String → String → Value N
    error_payload code message = object (
        entry "status"
          (object (
            entry "code" (string "error") (
              entry "message"
                (object (entry "code" (string code) (entry "message" (string message) end))) end)))
          (entry "response" (object end) end))

    abbrev pub respond_success : UiCommand N → Io N → Result DooverError (Unit {0}) × Io N
    respond_success cmd io = respond cmd.message_id success_payload io

    abbrev pub respond_error :
        UiCommand N → String → String → Io N → Result DooverError (Unit {0}) × Io N
    respond_error cmd code message io = respond cmd.message_id (error_payload code message) io

    abbrev pub wrap : Value N → Value N
    wrap inner =
        object
          (entry "state" (object (entry "children" (object (entry 𝓑.app_key inner end)) end)) end)

    abbrev pub published : String → Io N → Result DooverError Bool × Io N
    published serialized io =
        (ok true, record io { state = record io.state { last_published = some serialized } })

    -- `serialize` prints a value; the result says whether something was sent.
    unfoldable pub publish_schema :
        (Value N → String) → Value N → Io N → Result DooverError Bool × Io N
    publish_schema serialize schema io =
        if is_published io.state.last_published (serialize schema)
        then (ok false, io)
        else and_ok (send (update_channel_aggregate "ui_state" (wrap null) (some (negsuc 0))) io)
            (λ io₁.
              and_ok
                (send (update_channel_aggregate "ui_state" (wrap schema) (some (negsuc 0))) io₁)
                (published (serialize schema)))
