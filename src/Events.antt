-- ===== src/Events.antt =====
-- doover/src/events.rs: the events of a channel and the flags that select them.
use doover_rs.Base.{ℕ, String, Bool, not, Option, none, str_eq, ◌==◌, and_then, if◌then◌else◌}
use doover_rs.Json.{Value, number, string, object, end, entry, at}
use Prim.Native.Nat.{bit_and, bit_or}

-- A set of event kinds: a `u8` of five flags.
pub record EventSubscription : Type 0 where
  pub bits : ℕ

abbrev pub flag : ℕ → EventSubscription
flag n = record { bits = n }

abbrev pub no_events : EventSubscription
no_events = flag 0

abbrev pub message_create : EventSubscription
message_create = flag 1

abbrev pub message_update : EventSubscription
message_update = flag 2

abbrev pub aggregate_update : EventSubscription
aggregate_update = flag 4

abbrev pub oneshot_message : EventSubscription
oneshot_message = flag 8

abbrev pub channel_sync_flag : EventSubscription
channel_sync_flag = flag 16

abbrev pub all_events : EventSubscription
all_events = flag 31

abbrev pub contains : EventSubscription → EventSubscription → Bool
contains a b = bit_and a.bits b.bits == b.bits

abbrev pub intersects : EventSubscription → EventSubscription → Bool
intersects a b = not (bit_and a.bits b.bits == 0)

abbrev pub union : EventSubscription → EventSubscription → EventSubscription
union a b = flag (bit_or a.bits b.bits)

module _ (N : Type 0) where
  pub record Event : Type 0 where
    pub event_name : String
    pub channel : String
    pub payload : Value N

module _ {N : Type 0} where
  abbrev pub channel_sync : String → Value N → Event N
  channel_sync channel v = record {
    event_name = "ChannelSync";
    channel = channel;
    payload = object (entry "aggregate" (object (entry "data" v end)) end);
  }

  abbrev pub is_aggregate_update : Event N → Bool
  is_aggregate_update e = str_eq e.event_name "AggregateUpdate"

  abbrev pub is_message_create : Event N → Bool
  is_message_create e = str_eq e.event_name "MessageCreate"

  abbrev pub is_message_update : Event N → Bool
  is_message_update e = str_eq e.event_name "MessageUpdate"

  abbrev pub is_one_shot : Event N → Bool
  is_one_shot e = str_eq e.event_name "OneShotMessage"

  abbrev pub is_channel_sync : Event N → Bool
  is_channel_sync e = str_eq e.event_name "ChannelSync"

  abbrev pub subscription_flag : Event N → EventSubscription
  subscription_flag e =
      if is_message_create e
      then message_create
      else if is_message_update e
      then message_update
      else if is_aggregate_update e
      then aggregate_update
      else if is_one_shot e
      then oneshot_message
      else if is_channel_sync e
      then channel_sync_flag
      else no_events

  abbrev pub aggregate_data : Event N → Option (Value N)
  aggregate_data e = and_then (at e.payload "aggregate") (λ a. at a "data")

  abbrev pub aggregate_diff : Event N → Option (Value N)
  aggregate_diff e = and_then (at e.payload "request_data") (λ r. at r "data")

  abbrev pub message_data : Event N → Option (Value N)
  message_data e = at e.payload "data"

  -- `Number::as_u64` and `str::trim` with `parse` are the first two arguments.
  abbrev pub as_u64 : (N → Option ℕ) → (String → Option ℕ) → Value N → Option ℕ
  as_u64 number_u64 parse_u64 (number n) = number_u64 n
  as_u64 number_u64 parse_u64 (string s) = parse_u64 s
  as_u64 number_u64 parse_u64 _ = none

  abbrev pub message_id : (N → Option ℕ) → (String → Option ℕ) → Event N → Option ℕ
  message_id number_u64 parse_u64 e = and_then (at e.payload "id") (as_u64 number_u64 parse_u64)

  abbrev pub author_id : (N → Option ℕ) → (String → Option ℕ) → Event N → Option ℕ
  author_id number_u64 parse_u64 e =
      and_then (at e.payload "author_id") (as_u64 number_u64 parse_u64)
