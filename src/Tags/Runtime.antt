-- ===== src/Tags/Runtime.antt =====
-- doover/src/tags/runtime.rs: `TagsRuntime`, the buffered writes of the docker runtime.
-- An operation takes the state and the requests sent so far, and returns whether it was `Ok`. The
-- client is a parameter: how it answers a request, what the other tasks do to the state while a
-- request is awaited, and the clocks.
pub mod Reads
pub mod Flush
pub mod Published
pub mod Updates
use doover_rs.Base.{
  ℕ, ◌-◌, String, Bool, true, false, not, ◌&&◌, ◌||◌, Option, none, some, List, [], ◌∷◌, ◌++◌,
  str_eq, and_then, leb, if◌then◌else◌,
}
use doover_rs.Json.{Value, Map, null, object, end, entry, get, insert, is_empty, at}
use doover_rs.Diff.{apply_diff, generate_diff}
use doover_rs.Tags.{KeyPath, scoped, construct, lookup, in_value, qualified_name, strip_paths}
use doover_rs.Tags.Triggers.{Floats, LogTrigger, TriggerSet, new_set, evaluate_set}
use doover_rs.Tags.Observation.{live_tags_opened, max_age_secs, contains}

abbrev pub paths_eq : List String → List String → Bool
paths_eq [] [] = true
paths_eq (a ∷ p) (b ∷ q) = str_eq a b && paths_eq p q
paths_eq _ _ = false

abbrev pub key_eq : KeyPath → KeyPath → Bool
key_eq a b = paths_eq a.path b.path

module _ {N : Type 0} where
  abbrev pub empty_object : Value N
  empty_object = object end

  -- A value that is no object counts as empty.
  abbrev pub is_empty_object : Value N → Bool
  is_empty_object (object m) = is_empty m
  is_empty_object _ = true

-- `retain` without the key, then `push`.
abbrev pub replace_key : {A : Type 0} → KeyPath → A → List (KeyPath × A) → List (KeyPath × A)
replace_key kp a [] = (kp, a) ∷ []
replace_key kp a ((k, b) ∷ r) =
    let rest = replace_key kp a r in if key_eq k kp then rest else (k, b) ∷ rest

pub record SetTagOptions : Type 0 where
  pub only_if_changed : Bool
  pub flush : Bool
  pub log : Bool

-- What the client is asked to do; the channel is `tag_values`, whose name the live channel shares.
pub data Request (N : Type 0) : Type 0 where
  update_aggregate : Value N → ℕ → Request N
  one_shot : Value N → Request N
  create_message : Value N → Request N
  create_message_at : Value N → ℕ → Request N

module _ (𝓕 : Floats) where
  open 𝓕 use {Number, F64}

  -- A callback is known by a number, and its calls are results. An `Instant` is in milliseconds.
  pub record TagsState : Type 0 where
    pub tag_values : Value Number
    pub pending_aggregate : Value Number
    pub pending_log : Value Number
    pub pending_immediate_log : Value Number
    pub dirty : Bool
    pub last_log_flush : Option ℕ
    pub live_tag_keys : List KeyPath
    pub ui_sub : Value Number
    pub subscriptions : List (KeyPath × ℕ)
    pub log_triggers : List (KeyPath × TriggerSet 𝓕)

  unfoldable pub default_state : TagsState
  default_state = record {
    tag_values = empty_object;
    pending_aggregate = empty_object;
    pending_log = empty_object;
    pending_immediate_log = empty_object;
    dirty = false;
    last_log_flush = none;
    live_tag_keys = [];
    ui_sub = empty_object;
    subscriptions = [];
    log_triggers = [];
  }

  -- The client, the other tasks and the clocks, each given the requests sent so far.
  pub record World : Type 0 where
    pub answer : List (Request Number) → Request Number → Bool
    pub meanwhile : List (Request Number) → TagsState → TagsState
    pub now_unix_ms : List (Request Number) → F64
    pub now_instant : List (Request Number) → ℕ
    pub fresh_ms : F64
    pub app_key : String
    pub log_interval : ℕ

  pub record Io : Type 0 where
    pub state : TagsState
    pub sent : List (Request Number)

  -- What is read: the cache under the pending writes.
  abbrev pub current : TagsState → Value Number
  current st = apply_diff st.tag_values st.pending_aggregate false

  unfoldable pub get_tag : TagsState → String → String → Option (Value Number)
  get_tag st app_key key = lookup (scoped app_key (key ∷ [])) (current st)

  unfoldable pub on_tag_sync : Option (Value Number) → TagsState → TagsState
  on_tag_sync none st = record st { tag_values = empty_object }
  on_tag_sync (some v) st = record st { tag_values = v }

  -- The calls of the subscribed callbacks, with what they are told.
  unfoldable pub notified :
      Value Number → List (KeyPath × ℕ) → List (KeyPath × ℕ × Option (Value Number))
  notified diff [] = []
  notified diff ((kp, cb) ∷ r) =
      let rest = notified diff r in
      if in_value kp diff then (kp, cb, lookup kp diff) ∷ rest else rest

  unfoldable pub on_tag_update :
      Option (Value Number) → TagsState → TagsState × List (KeyPath × ℕ × Option (Value Number))
  unfolding notified
  on_tag_update none st = (st, [])
  on_tag_update (some new_values) st =
      let diff = generate_diff numbers st.tag_values new_values false in
      (
        record st { tag_values = new_values },
        if is_empty_object diff then [] else notified diff st.subscriptions,
      )
    where
      open 𝓕 use {numbers}

  unfoldable pub subscribe_to_tag : String → String → ℕ → TagsState → TagsState
  subscribe_to_tag app_key key callback st = record st {
    subscriptions = replace_key (scoped app_key (key ∷ [])) callback st.subscriptions;
  }

  unfoldable pub register_log_triggers :
      String → String → List (LogTrigger 𝓕) → Option (Value Number) → TagsState → TagsState
  register_log_triggers app_key key triggers default st = record st {
    log_triggers =
        replace_key (scoped app_key (key ∷ [])) (new_set 𝓕 triggers default) st.log_triggers;
  }

  unfoldable pub set_live_tags : List KeyPath → TagsState → TagsState
  set_live_tags keys st = record st { live_tag_keys = keys }

  -- The first registered set of the path is evaluated.
  unfoldable pub evaluate_registered :
      KeyPath
      → Option (Value Number)
      → Value Number
      → List (KeyPath × TriggerSet 𝓕)
      → List (KeyPath × TriggerSet 𝓕) × Bool
  evaluate_registered kp prev new [] = ([], false)
  evaluate_registered kp prev new ((k, set) ∷ r) =
      let (r', fired') = evaluate_registered kp prev new r in
      let (set', fired) = evaluate_set 𝓕 set prev new in
      if key_eq k kp then ((k, set') ∷ r, fired) else ((k, set) ∷ r', fired')

  unfoldable pub evaluate_log_triggers : KeyPath → Value Number → TagsState → TagsState × Bool
  unfolding evaluate_registered
  evaluate_log_triggers kp new st =
      let (triggers, fired) = evaluate_registered kp (lookup kp (current st)) new st.log_triggers in
      (record st { log_triggers = triggers }, fired)

  -- The part of `set_nested_tags` under the lock; `none` if the write changes nothing.
  abbrev pub log_write : Value Number → Bool → TagsState → TagsState
  log_write tags true st = record st {
    pending_immediate_log = apply_diff st.pending_immediate_log tags false;
    pending_log = strip_paths st.pending_log tags;
  }
  log_write tags false st = record st { pending_log = apply_diff st.pending_log tags false }

  abbrev pub aggregate_write : Value Number → Bool → TagsState → TagsState
  aggregate_write tags flush st = record st {
    pending_aggregate = apply_diff st.pending_aggregate tags false;
    dirty = if flush then st.dirty else true;
  }

  unfoldable pub buffer_tags : Value Number → SetTagOptions → TagsState → Option TagsState
  buffer_tags tags opts st =
      if opts.only_if_changed && is_empty_object (generate_diff numbers (current st) tags false)
      then none
      else some (aggregate_write tags opts.flush (log_write tags opts.log st))
    where
      open 𝓕 use {numbers}

  module _ (𝓦 : World) where
    open 𝓦 use {
      answer, meanwhile, now_unix_ms, now_instant, fresh_ms, app_key as own_key, log_interval,
    }

    -- One awaited call of the client.
    abbrev pub send : Request Number → Io → Bool × Io
    send r io = (
      answer io.sent r,
      record { state = meanwhile (io.sent ++ r ∷ []) io.state; sent = io.sent ++ r ∷ [] },
    )

    -- The `?` operator.
    abbrev pub and_ok : Bool × Io → (Io → Bool × Io) → Bool × Io
    and_ok (true, io) k = k io
    and_ok (false, io) k = (false, io)

    abbrev pub modify : (TagsState → TagsState) → Io → Bool × Io
    modify f io = (true, record io { state = f io.state })

    abbrev pub max_age : Io → ℕ
    max_age io = max_age_secs 𝓕 fresh_ms (now_unix_ms io.sent) own_key io.state.ui_sub

    -- The merge of published data into the cache, nulls deleting.
    abbrev pub publish : Value Number → TagsState → TagsState
    publish data' st = record st { tag_values = apply_diff st.tag_values data' true }

    abbrev pub flush_now : Io → Bool × Io
    flush_now io =
        and_ok (send (update_aggregate io.state.pending_aggregate (max_age io)) io)
          (modify λ st. record (publish st.pending_aggregate st) { dirty = false })

    -- What follows when the lock is released.
    abbrev pub released : SetTagOptions → Io → Option TagsState → Bool × Io
    released opts io none = (true, io)
    released opts io (some st) =
        if opts.flush
        then flush_now (record io { state = st })
        else (true, record io { state = st })

    unfoldable pub set_nested_tags : Value Number → SetTagOptions → Io → Bool × Io
    set_nested_tags tags opts io = released opts io (buffer_tags tags opts io.state)

    unfoldable pub set_tag : String → String → Value Number → SetTagOptions → Io → Bool × Io
    unfolding set_nested_tags evaluate_log_triggers
    set_tag app_key key value opts io =
        let kp = scoped app_key (key ∷ []) in
        let (st, fired) = evaluate_log_triggers kp value io.state in
        set_nested_tags (construct kp value) (record opts { log = opts.log || fired })
          (record io { state = st })

    unfoldable pub flush_tags : Io → Bool × Io
    flush_tags io =
        if io.state.dirty
        then (let payload = io.state.pending_aggregate in
            let taken = record io {
              state = record io.state { dirty = false; pending_aggregate = empty_object };
            } in
            and_ok (send (update_aggregate payload (max_age taken)) taken)
              (modify (publish payload)))
        else (true, io)
