-- ===== src/Processor/Tags.antt =====
-- doover/src/processor/tags.rs: `ProcessorTags`, the dirty and touched buffers of one invocation.
-- `==` on values is a parameter; so are the answers of the backend to the two requests of a commit.
pub mod Commit
pub mod Writes
use doover_rs.Base.{
  String, Bool, true, false, not, ◌&&◌, ◌||◌, Option, none, some, List, [], ◌∷◌, str_eq, unwrap_or,
  and_then, or_else, if◌then◌else◌,
}
use doover_rs.Json.{
  Value, Map, null, bool, number, string, array, object, end, entry, get, insert, is_empty, at,
}

pub data LogMode : Type 0 where
  always never only_changed only_set : LogMode

pub record SetProcessorTagOptions : Type 0 where
  pub app_key : Option String
  pub log : Bool

module _ (N : Type 0) where
  pub record TagState : Type 0 where
    pub tag_values : Value N
    pub update_tags : Bool
    pub record_tag_update : Bool
    pub update_external_tags : Bool
    pub log_mode : LogMode
    pub dirty : Map N
    pub touched : Map N

abbrev pub is_never : LogMode → Bool
is_never never = true
is_never _ = false

abbrev pub is_only_set : LogMode → Bool
is_only_set only_set = true
is_only_set _ = false

-- A request of the backend, and the requests of a commit with its result: the message is only
-- written if the aggregate was.
pub data Request (N : Type 0) : Type 0 where
  update_aggregate : Value N → Request N
  create_message : Value N → Request N

module _ {N : Type 0} where
  -- The inner object at a key of a buffer.
  abbrev pub inner_map : Option (Value N) → Map N
  inner_map (some (object m)) = m
  inner_map _ = end

  -- `buffer[app_key][key] = value`
  unfoldable pub insert_nested : Map N → String → String → Value N → Map N
  insert_nested buffer app_key key v =
      insert app_key (object (insert key v (inner_map (get app_key buffer)))) buffer

  abbrev pub is_falsy : Value N → Bool
  is_falsy null = true
  is_falsy (object m) = is_empty m
  is_falsy _ = false

  abbrev pub unless_falsy : Value N → Option (Value N)
  unless_falsy v = if is_falsy v then none else some v

  -- The own entry of a payload, scoped under the app key.
  abbrev pub own_payload : String → Option (Value N) → Option (Value N)
  own_payload app_key none = none
  own_payload app_key (some own) =
      if is_falsy own then none else some (object (entry app_key own end))

  unfoldable pub scope_payload : Map N → String → Bool → Option (Value N)
  scope_payload source app_key true = if is_empty source then none else some (object source)
  scope_payload source app_key false = own_payload app_key (get app_key source)

  abbrev pub as_payload : Value N → Value N
  as_payload (object m) = object m
  as_payload _ = object end

  -- `ProcessorTags::new`
  unfoldable pub new : Value N → Bool → TagState N
  new tag_values record_update = record {
    tag_values = as_payload tag_values;
    update_tags = false;
    record_tag_update = record_update;
    update_external_tags = false;
    log_mode = always;
    dirty = end;
    touched = end;
  }

  unfoldable pub get_tag_scoped : TagState N → String → String → Option (Value N)
  get_tag_scoped st app_key key = and_then (at st.tag_values app_key) (λ m. at m key)

  unfoldable pub set_log_mode : LogMode → TagState N → TagState N
  set_log_mode mode st = record st { log_mode = mode }

  -- The write into the payload; a payload that is no object is left alone.
  abbrev pub write_value : Value N → String → String → Value N → Value N
  write_value (object root) app_key key v = object (insert_nested root app_key key v)
  write_value other app_key key v = other

  -- The flags that an accepted write raises.
  abbrev pub raise_flags : String → String → Bool → TagState N → TagState N
  raise_flags own app_key log st = record st {
    update_tags = true;
    record_tag_update = if log then true else st.record_tag_update;
    update_external_tags = if str_eq app_key own then st.update_external_tags else true;
  }

  module _ (value_eq : Value N → Value N → Bool) (own_key : String) where
    unfoldable pub set_tag_with :
        String → Value N → SetProcessorTagOptions → TagState N → TagState N
    set_tag_with key v opts st =
        let app_key = unwrap_or opts.app_key own_key in
        let cur = unwrap_or (get_tag_scoped st app_key key) null in
        let marked = record st { touched = insert_nested st.touched app_key key v } in
        if value_eq cur v
        then (if opts.log || is_only_set st.log_mode
            then raise_flags own_key app_key opts.log marked
            else marked)
        else raise_flags own_key app_key opts.log (record marked {
          tag_values = write_value st.tag_values app_key key v;
          dirty = insert_nested st.dirty app_key key v;
        })

  -- What a commit publishes: the update, the aggregate write and the logged message.
  abbrev pub update_of : String → TagState N → Option (Value N)
  update_of own_key st =
      if st.update_external_tags
      then unless_falsy st.tag_values
      else own_payload own_key (at st.tag_values own_key)

  abbrev pub aggregate_of : String → TagState N → Option (Value N)
  aggregate_of own_key st = if is_empty st.dirty then none else update_of own_key st

  abbrev pub logged_by : LogMode → String → TagState N → Option (Value N)
  logged_by always own_key st = update_of own_key st
  logged_by never own_key st = none
  logged_by only_changed own_key st = scope_payload st.dirty own_key st.update_external_tags
  logged_by only_set own_key st = scope_payload st.touched own_key st.update_external_tags

  abbrev pub log_of : String → Bool → TagState N → Option (Value N)
  log_of own_key record_log st =
      if (st.record_tag_update || record_log) && not (is_never st.log_mode)
      then logged_by st.log_mode own_key st
      else none

  abbrev pub reset : TagState N → TagState N
  reset st = record st { update_tags = false; dirty = end; touched = end }

  abbrev pub then_message :
      (Request N → Bool) → Option (Value N) → List (Request N) → List (Request N) × Bool
  then_message answer none sent = (sent, true)
  then_message answer (some v) sent = (create_message v ∷ sent, answer (create_message v))

  abbrev pub write_out :
      (Request N → Bool) → Option (Value N) → Option (Value N) → List (Request N) × Bool
  write_out answer none message = then_message answer message []
  write_out answer (some v) message =
      if answer (update_aggregate v)
      then then_message answer message (update_aggregate v ∷ [])
      else (update_aggregate v ∷ [], false)

  -- The requests stand newest first.
  unfoldable pub commit_tags_with :
      (Request N → Bool) → String → Bool → TagState N → TagState N × List (Request N) × Bool
  commit_tags_with answer own_key record_log st =
      if st.update_tags
      then (let (sent, ok) =
            write_out answer (aggregate_of own_key st) (log_of own_key record_log st) in
          (reset st, sent, ok))
      else (st, [], true)
