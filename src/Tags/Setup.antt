-- ===== src/Tags/Setup.antt =====
-- doover/src/tags/runtime.rs, `setup`: the two subscriptions of the tag runtime, and what its callbacks
-- do with an event. Callback 0 is the one of the tags, callback 1 the one of `dv-ui-sub`.
use doover_rs.Base.{ℕ, ◌≡◌, refl, Bool, Option, none, some, List, [], ◌∷◌, str_eq, if◌then◌else◌}
use doover_rs.Base.Table.{find, drop}
use doover_rs.Json.{Value, get}
use doover_rs.Events.{
  EventSubscription, Event, channel_sync, is_channel_sync, aggregate_data, aggregate_update,
  channel_sync_flag, union,
}
use doover_rs.Subscriptions.{
  ChannelRef, HubState, found, subscribe, start_stream, dispatch, selected,
}
use doover_rs.Tags.{KeyPath}
use doover_rs.Tags.Triggers.{Floats}
use doover_rs.Tags.Runtime.{TagsState, on_tag_sync, on_tag_update}

abbrev pub watched : EventSubscription
watched = union aggregate_update channel_sync_flag

-- The hub after both subscriptions, without the wait for their first sync.
unfoldable pub setup : {N : Type 0} → HubState N → HubState N
setup hub = (subscribe "dv-ui-sub" watched 1 (subscribe "tag_values" watched 0 hub).0).0

module _ (𝓕 : Floats) where
  open 𝓕 use {Number}

  -- The callback of the tags.
  unfoldable pub on_tag_event :
      Event Number → TagsState 𝓕 → TagsState 𝓕 × List (KeyPath × ℕ × Option (Value Number))
  on_tag_event e st =
      if is_channel_sync e
      then (on_tag_sync 𝓕 (aggregate_data e) st, [])
      else on_tag_update 𝓕 (aggregate_data e) st

  abbrev with_ui_sub : Option (Value Number) → TagsState 𝓕 → TagsState 𝓕
  with_ui_sub none st = st
  with_ui_sub (some v) st = record st { ui_sub = v }

  -- The callback of `dv-ui-sub`.
  unfoldable pub on_ui_sub : Event Number → TagsState 𝓕 → TagsState 𝓕
  on_ui_sub e st = with_ui_sub (aggregate_data e) st

  abbrev tags_channel : ChannelRef
  tags_channel = record { name = "tag_values"; agent_id = none }

  -- On a hub without the channel, the start of the stream after the setup hands the fetched aggregate to
  -- the tag runtime and to nobody else: its callback alone is called, with an event that makes the
  -- aggregate the cached tags.
  pub start_stream-setup :
      (hub : HubState Number) (v : Value Number) (created : Bool) (st : TagsState 𝓕)
      → find str_eq "tag_values" hub.channels ≡ none
      → ((start_stream "tag_values" tags_channel (found v) created (setup hub)).1 ≡ 0 ∷ [])
        × ((on_tag_event (channel_sync "tag_values" v) st).0.tag_values ≡ v)
  unfolding start_stream setup subscribe find on_tag_event on_tag_sync dispatch selected get drop
  start_stream-setup hub v created st fresh = rw (fresh) (refl, refl)
