-- ===== src/Subscriptions.antt =====
-- doover/src/docker/subscriptions.rs: `SubscriptionHub`, the streams of channel events, and
-- `ChannelRef` of doover/src/docker/device_agent.rs. A callback is known by a number, and its calls
-- are results. The stream task of a channel is run on the answers of the client.
pub mod Cache
pub mod Dispatch
pub mod Registered
use doover_rs.Base.{
  ℕ, zero, suc, ◌+◌, ◌*◌, ◌/◌, ◌%◌, String, Bool, true, false, not, ◌&&◌, Option, none, some, List,
  [], ◌∷◌, ◌++◌, map, str_eq, ltb, ◌==◌, unwrap_or, and_then, is_some, or_else, if◌then◌else◌,
}
use doover_rs.Base.Table.{Table, find, put}
use doover_rs.Json.{Value, object, end}
use doover_rs.Events.{
  EventSubscription, contains, no_events, Event, channel_sync, is_aggregate_update, aggregate_data,
  subscription_flag,
}

pub record ChannelRef : Type 0 where
  pub name : String
  pub agent_id : Option ℕ

-- A channel's name in the caches; the decimal of a number is an argument.
abbrev pub cache_key : (ℕ → String) → (String → String → String) → ChannelRef → String
cache_key show_u64 concat ref = elim ref.agent_id [
  | none ↦ ref.name
  | some id ↦ concat (concat (show_u64 id) ":") ref.name
]

pub record ChannelState : Type 0 where
  pub callbacks : List (EventSubscription × ℕ)
  pub task : Bool
  pub synced : Bool

abbrev pub default_channel : ChannelState
default_channel = record { callbacks = []; task = false; synced = false }

module _ (N : Type 0) where
  pub record HubState : Type 0 where
    pub channels : Table String ChannelState
    pub aggregates : Table String (Value N)

  -- What a fetch of the aggregate answers: a value, no such channel, or an error.
  pub data Fetched : Type 0 where
    found : Value N → Fetched
    missing : Fetched
    failed : Fetched

  -- What the event stream of a connection yields.
  pub data Item : Type 0 where
    event : Event N → Item
    broken : Item

abbrev pub no_callbacks : List (EventSubscription × ℕ) → Bool
no_callbacks [] = true
no_callbacks (_ ∷ _) = false

-- The callbacks whose mask has the flag, in the order of registration.
unfoldable pub selected : EventSubscription → List (EventSubscription × ℕ) → List ℕ
selected kind [] = []
selected kind ((events, cb) ∷ r) =
    let rest = selected kind r in if contains events kind then cb ∷ rest else rest

abbrev pub ready : Option ChannelState → Bool
ready none = false
ready (some ch) = not (no_callbacks ch.callbacks) && ch.synced

abbrev stopped : Table String ChannelState → Table String ChannelState
stopped [] = []
stopped ((k, ch) ∷ r) = (k, record ch { task = false }) ∷ stopped r

-- `channels.get_mut(key)` with `synced = true`.
abbrev pub mark_synced : String → Table String ChannelState → Table String ChannelState
mark_synced key [] = []
mark_synced key ((k, ch) ∷ r) =
    let rest = mark_synced key r in
    if str_eq k key then (k, record ch { synced = true }) ∷ r else (k, ch) ∷ rest

-- The pause before the next attempt, in seconds.
abbrev pub next_backoff : ℕ → ℕ
next_backoff backoff = if ltb (backoff * 2) 10 then backoff * 2 else 10

module _ {N : Type 0} where
  -- `entry(key).or_default()`, then the push; the result says whether a task was spawned.
  unfoldable pub subscribe : String → EventSubscription → ℕ → HubState N → HubState N × Bool
  subscribe key events cb st =
      let ch = unwrap_or (find str_eq key st.channels) default_channel in
      (
        record st {
          channels =
              put str_eq key
                (record {
                  callbacks = ch.callbacks ++ (events, cb) ∷ [];
                  task = true;
                  synced = ch.synced;
                })
                st.channels;
        },
        not ch.task,
      )

  unfoldable pub cached_aggregate : String → HubState N → Option (Value N)
  cached_aggregate key st = find str_eq key st.aggregates

  -- Whether a fetch answers from the cache, and else the client's answer.
  abbrev pub fetch_channel_data : String → Option (Value N) → HubState N → Option (Value N)
  fetch_channel_data key fetched st = or_else (cached_aggregate key st) fetched

  unfoldable pub is_channel_synced : String → HubState N → Bool
  is_channel_synced key st = ready (find str_eq key st.channels)

  unfoldable pub close : HubState N → HubState N
  close st = record st { channels = stopped st.channels }

  abbrev pub store : String → Value N → HubState N → HubState N
  store key v st = record st { aggregates = put str_eq key v st.aggregates }

  abbrev pub synced_at : String → HubState N → HubState N
  synced_at key st = record st { channels = mark_synced key st.channels }

  -- The aggregate a channel starts from, and whether it was asked to be created; `created` is the
  -- answer to that request.
  unfoldable pub seed : Option ℕ → Fetched N → Bool → Option (Value N) × Bool
  seed agent_id (found v) created = (some v, false)
  seed (some id) missing created = (none, false)
  seed none missing created = (if created then some (object end) else none, true)
  seed agent_id failed created = (none, false)

  unfoldable pub dispatch : String → Event N → HubState N → List ℕ
  unfolding selected
  dispatch key e st =
      let kind = subscription_flag e in
      if kind.bits == no_events.bits
      then []
      else elim (find str_eq key st.channels) [ none ↦ [] | some ch ↦ selected kind ch.callbacks ]

  abbrev pub seeded_with : String → Option (Value N) → HubState N → HubState N
  seeded_with key none st = synced_at key st
  seeded_with key (some v) st = synced_at key (store key v st)

  -- The task up to its first connection: the state and the callbacks that are called.
  unfoldable pub start_stream :
      String → ChannelRef → Fetched N → Bool → HubState N → HubState N × List ℕ
  unfolding dispatch seed
  start_stream key ref fetched created st =
      let seeded = (seed ref.agent_id fetched created).0 in
      let st' = seeded_with key seeded st in
      (st', elim seeded [ none ↦ [] | some v ↦ dispatch key (channel_sync ref.name v) st' ])

  -- The effect of an event on the caches.
  abbrev pub cache_event : String → Event N → HubState N → HubState N
  cache_event key e st =
      if is_aggregate_update e
      then elim (aggregate_data e) [ none ↦ st | some v ↦ synced_at key (store key v st) ]
      else st

  -- The items of one connection, up to an error: the callbacks are called after the cache is fed.
  unfoldable pub run_items : String → List (Item N) → HubState N → HubState N × List ℕ
  unfolding dispatch
  run_items key [] st = (st, [])
  run_items key (broken ∷ items) st = (st, [])
  run_items key (event e ∷ items) st =
      let st' = cache_event key e st in
      let (last, calls) = run_items key items st' in (last, dispatch key e st' ++ calls)

  -- The attempts to connect, each with its items or with `none` for a failure: the state, the
  -- callbacks called and the pauses.
  unfoldable pub run_connections :
      String → ℕ → List (Option (List (Item N))) → HubState N → HubState N × List ℕ × List ℕ
  unfolding run_items
  run_connections key backoff [] st = (st, [], [])
  run_connections key backoff (none ∷ more) st =
      let (last, calls, pauses) = run_connections key (next_backoff backoff) more st in
      (last, calls, backoff ∷ pauses)
  run_connections key backoff (some items ∷ more) st =
      let (st', now) = run_items key items st in
      let (last, calls, pauses) = run_connections key (next_backoff 1) more st' in
      (last, now ++ calls, 1 ∷ pauses)
