-- ===== src/Subscriptions/Cache.antt =====
-- doover/src/docker/subscriptions.rs: what the aggregate cache holds.
use doover_rs.Base.{
  ap, unwrap_or, ◌++◌, ℕ, ◌≡◌, refl, inl, inr, String, Bool, true, false, Option, none, some, List,
  [], ◌∷◌, Bool-cases, Option-cases, str_eq, eq_iff, or_else, if◌then◌else◌,
}
use doover_rs.Base.Table.{Table, find, put}
use doover_rs.Json.{Value}
use doover_rs.Events.{EventSubscription, Event, is_aggregate_update, aggregate_data}
use doover_rs.Subscriptions.{
  default_channel, subscribe, ChannelRef, ChannelState, HubState, Fetched, found, missing, failed,
  Item, event, broken, cached_aggregate, run_items, seed, start_stream, is_channel_synced,
  mark_synced, no_callbacks, cache_event,
}

str_eq_refl : (k : String) → str_eq k k ≡ true
str_eq_refl k = (eq_iff k k).1 refl

none≢some : {A : Type 0} {a : A} {B : Type 0} → none ≡ some a → B
none≢some h = cc

put_hit :
    {V : Type 0} (k : String) (v : V) (t : Table String V)
    → find str_eq k (put str_eq k v t) ≡ some v
unfolding find
put_hit k v t = rw (str_eq_refl k) refl

or_else_assoc : {A : Type 0} (a b c : Option A) → or_else a (or_else b c) ≡ or_else (or_else a b) c
or_else_assoc none b c = refl
or_else_assoc (some a) b c = refl

mark_synced-find :
    (key : String) (chs : Table String ChannelState) (ch : ChannelState)
    → find str_eq key chs ≡ some ch
    → find str_eq key (mark_synced key chs) ≡ some (record ch { synced = true })
unfolding find
mark_synced-find key [] ch h = none≢some h
mark_synced-find key ((k, c) ∷ r) ch h = elim (Bool-cases (str_eq k key)) [
  | inl e ↦
      let h' : some c ≡ some ch = rw (e) at h in let same : c ≡ ch = cc in rw (e, e, same) refl
  | inr e ↦
      let h' : find str_eq key r ≡ some ch = rw (e) at h in rw (e, e) (mark_synced-find key r ch h')
]

module _ {N : Type 0} where
  -- The data of the last aggregate update before an error of the stream.
  unfoldable pub last_update : List (Item N) → Option (Value N)
  last_update [] = none
  last_update (broken ∷ items) = none
  last_update (event e ∷ items) =
      or_else (last_update items) (if is_aggregate_update e then aggregate_data e else none)

  cached-cache_event :
      (key : String) (e : Event N) (st : HubState N)
      → cached_aggregate key (cache_event key e st)
        ≡ or_else
            (if is_aggregate_update e then aggregate_data e else none)
            (cached_aggregate key st)
  unfolding cached_aggregate find
  cached-cache_event key e st = elim (Bool-cases (is_aggregate_update e)) [
    | inl is_update ↦ elim (Option-cases (aggregate_data e)) [
      | inl d ↦ rw (is_update, d) refl
      | inr (v, d) ↦ rw (is_update, d, str_eq_refl key) refl
    ]
    | inr other ↦ rw (other) refl
  ]

  -- After the items of a connection the cache holds the data of the last aggregate update that came
  -- before an error, and what it held if there was none.
  pub cached_aggregate-run_items :
      (key : String) (items : List (Item N)) (st : HubState N)
      → cached_aggregate key (run_items key items st).0
        ≡ or_else (last_update items) (cached_aggregate key st)
  unfolding run_items last_update
  cached_aggregate-run_items key [] st = refl
  cached_aggregate-run_items key (broken ∷ items) st = refl
  cached_aggregate-run_items key (event e ∷ items) st =
      rw (cached_aggregate-run_items key items (cache_event key e st), cached-cache_event key e st)
        (or_else_assoc (last_update items) _ _)

  -- For a channel of another agent no creation is ever asked for, whatever the fetch answers.
  pub seed_other_agent :
      (id : ℕ) (fetched : Fetched N) (created : Bool) → (seed (some id) fetched created).1 ≡ false
  unfolding seed
  seed_other_agent id (found v) created = refl
  seed_other_agent id missing created = refl
  seed_other_agent id failed created = refl

  -- Once its stream has started, a channel with a callback counts as synced, whatever the fetch and
  -- the creation answered, and the cache holds the seeded aggregate if there is one
  -- and what it held otherwise.
  pub start_stream-is_channel_synced :
      (key : String) (ref : ChannelRef) (fetched : Fetched N) (created : Bool) (st : HubState N)
      (ch : ChannelState)
      → find str_eq key st.channels ≡ some ch
      → no_callbacks ch.callbacks ≡ false
      → (is_channel_synced key (start_stream key ref fetched created st).0 ≡ true)
        × (cached_aggregate key (start_stream key ref fetched created st).0
            ≡ or_else (seed ref.agent_id fetched created).0 (cached_aggregate key st))
  unfolding start_stream is_channel_synced cached_aggregate
  start_stream-is_channel_synced key ref fetched created st ch h some_cb =
      elim (Option-cases (seed ref.agent_id fetched created).0) [
        | inl none_seeded ↦
            rw (none_seeded, mark_synced-find key st.channels ch h, some_cb) (refl, refl)
        | inr (v, seeded) ↦
            rw (seeded, mark_synced-find key st.channels ch h, some_cb)
              (refl, put_hit key v st.aggregates)
      ]

  -- The stream task of a channel is spawned at most once: after a subscription, another to the same
  -- channel spawns none, and calls its callback after those that were there.
  pub subscribe_again :
      (key : String) (e₁ e₂ : EventSubscription) (c₁ c₂ : ℕ) (st : HubState N) (ch : ChannelState)
      → find str_eq key (subscribe key e₁ c₁ st).0.channels ≡ some ch
      → ((subscribe key e₂ c₂ (subscribe key e₁ c₁ st).0).1 ≡ false)
        × (find str_eq key (subscribe key e₂ c₂ (subscribe key e₁ c₁ st).0).0.channels
            ≡ some (record ch { callbacks = ch.callbacks ++ (e₂, c₂) ∷ []; task = true }))
  unfolding subscribe find
  subscribe_again key e₁ e₂ c₁ c₂ st ch h =
      let old = unwrap_or (find str_eq key st.channels) default_channel in
      let first : ChannelState = record {
        callbacks = old.callbacks ++ (e₁, c₁) ∷ [];
        task = true;
        synced = old.synced;
      } in
      let stored : some first ≡ some ch = rw (str_eq_refl key) at h in
      let same : first ≡ ch = cc in
      rw (str_eq_refl key) (
        refl,
        ap
            (λ (c : ChannelState).
              some (record c { callbacks = c.callbacks ++ (e₂, c₂) ∷ []; task = true }))
            same,
      )
