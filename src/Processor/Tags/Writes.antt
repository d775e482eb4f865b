-- ===== src/Processor/Tags/Writes.antt =====
-- doover/src/processor/tags.rs, `set_tag_with`: what a write leaves to be read and to be committed.
use doover_rs.Base.{
  ◌≡◌, refl, String, Bool, true, false, Option, some, Bool-cases, inl, inr, eq_iff, unwrap_or,
  and_then, ◌||◌,
}
use doover_rs.Json.{Value, Map, null, object, get, insert, at, get-insert}
use doover_rs.Processor.Tags.{
  TagState, SetProcessorTagOptions, insert_nested, inner_map, get_tag_scoped, set_tag_with,
  is_only_set,
}

module _ {N : Type 0} where
  -- What a nested buffer holds.
  abbrev pub nested : Map N → String → String → Option (Value N)
  nested buffer app_key key = and_then (get app_key buffer) (λ m. at m key)

  get_same : (k : String) (v : Value N) (m : Map N) → get k (insert k v m) ≡ some v
  get_same k v m = rw (get-insert k k v m, (eq_iff k k).1 refl) refl

  nested-insert_nested :
      (buffer : Map N) (app_key key : String) (v : Value N)
      → nested (insert_nested buffer app_key key v) app_key key ≡ some v
  unfolding insert_nested
  nested-insert_nested buffer app_key key v =
      rw
        (
          get_same app_key (object (insert key v (inner_map (get app_key buffer)))) buffer,
          get_same key v (inner_map (get app_key buffer)),
        )
        refl

  module _ (value_eq : Value N → Value N → Bool) (own_key : String) where
    -- A write of a value that differs from what is read is read back as it was written, when the
    -- payload is an object; both buffers hold it, and the commit is asked for.
    pub set_tag_with_changed :
        (st : TagState N) (root : Map N) (key : String) (v : Value N)
        (opts : SetProcessorTagOptions)
        → st.tag_values ≡ object root
        → value_eq (unwrap_or (get_tag_scoped st (unwrap_or opts.app_key own_key) key) null) v
          ≡ false
        → (get_tag_scoped
              (set_tag_with value_eq own_key key v opts st)
              (unwrap_or opts.app_key own_key)
              key
            ≡ some v)
          × (nested
                (set_tag_with value_eq own_key key v opts st).dirty
                (unwrap_or opts.app_key own_key)
                key
              ≡ some v)
          × (nested
                (set_tag_with value_eq own_key key v opts st).touched
                (unwrap_or opts.app_key own_key)
                key
              ≡ some v)
          × ((set_tag_with value_eq own_key key v opts st).update_tags ≡ true)
    unfolding set_tag_with get_tag_scoped
    set_tag_with_changed st root key v opts is_root changed =
        let app_key = unwrap_or opts.app_key own_key in
        rw (changed, is_root)
          (
            nested-insert_nested root app_key key v,
            nested-insert_nested st.dirty app_key key v,
            nested-insert_nested st.touched app_key key v,
            refl,
          )

    -- A write of a value equal to what is read changes neither the payload nor the dirty buffer, and
    -- the touched buffer holds it.
    pub set_tag_with_unchanged :
        (st : TagState N) (key : String) (v : Value N) (opts : SetProcessorTagOptions)
        → value_eq (unwrap_or (get_tag_scoped st (unwrap_or opts.app_key own_key) key) null) v
          ≡ true
        → ((set_tag_with value_eq own_key key v opts st).tag_values ≡ st.tag_values)
          × ((set_tag_with value_eq own_key key v opts st).dirty ≡ st.dirty)
          × (nested
                (set_tag_with value_eq own_key key v opts st).touched
                (unwrap_or opts.app_key own_key)
                key
              ≡ some v)
    unfolding set_tag_with
    set_tag_with_unchanged st key v opts same =
        let app_key = unwrap_or opts.app_key own_key in
        elim (Bool-cases (opts.log || is_only_set st.log_mode)) [
          | inl l ↦ rw (same, l) (refl, refl, nested-insert_nested st.touched app_key key v)
          | inr l ↦ rw (same, l) (refl, refl, nested-insert_nested st.touched app_key key v)
        ]
