-- ===== src/Tags/Runtime/Published.antt =====
-- doover/src/tags/runtime.rs: a buffered write and the flush after it.
use doover_rs.Base.{
  ℕ, ◌≡◌, ◌≢◌, refl, String, Bool, true, false, ◌||◌, some, List, [], ◌∷◌, ◌++◌, inr,
}
use doover_rs.Json.{Value, null, is_object, object, end}
use doover_rs.Json.Keys.{IsUnique}
use doover_rs.Diff.{apply_diff}
use doover_rs.Diff.Keys.{apply_diff-IsUnique}
use doover_rs.Tags.{scoped, wrap, resolve, construct, lookup}
use doover_rs.Tags.Paths.{
  resolve-merged, resolve-apply_diff, resolve-wrap, wrap-IsUnique, resolve-merged_empty,
}
use doover_rs.Tags.Triggers.{Floats}
use doover_rs.Tags.Runtime.{
  update_aggregate, TagsState, SetTagOptions, World, Io, set_tag, flush_tags, get_tag,
  evaluate_log_triggers, buffer_tags, set_nested_tags, log_write, aggregate_write,
}
use doover_rs.Tags.Runtime.Reads.{scoped-ne}
use doover_rs.Tags.Runtime.Flush.{IsQuiet, flush_tags_success, request}

module _ (𝓕 : Floats) (𝓦 : World 𝓕) where
  open 𝓕 use {Number}

  abbrev pub tag_path : String → String → List String
  tag_path app_key key = (scoped app_key (key ∷ [])).path

  still_there :
      (p : List String) (root v : Value Number) (d : Bool)
      → p ≢ []
      → resolve p root ≡ some v
      → resolve p (apply_diff root (object end) d) ≡ some v
  still_there [] root v d n e = absurd (n refl)
  still_there (k ∷ p) root v d n e = resolve-merged_empty k p root v d e

  logged-pending :
      (tags : Value Number) (log : Bool) (st : TagsState 𝓕)
      → (log_write 𝓕 tags log st).pending_aggregate ≡ st.pending_aggregate
  logged-pending tags true st = refl
  logged-pending tags false st = refl

  flush_again :
      (io : Io 𝓕)
      → IsQuiet 𝓕 𝓦
      → io.state.dirty ≡ true
      → (flush_tags 𝓕 𝓦 io).0 ≡ true
      → flush_tags 𝓕 𝓦 (flush_tags 𝓕 𝓦 io).1 ≡ (true, (flush_tags 𝓕 𝓦 io).1)
  flush_again io quiet d fine =
      rw (flush_tags_success 𝓕 𝓦 io quiet d fine) (unfold flush_tags in refl)

  module _ (app_key key : String) (v : Value Number) (leaf : is_object v ≡ false)
      (uv : IsUnique v) where
    -- A write that waits for the flush of the next commit.
    abbrev IsWritten : Io 𝓕 → Io 𝓕 → Type 0
    IsWritten io written =
        (written.state.dirty ≡ true)
        × (written.sent ≡ io.sent)
        × (resolve (tag_path app_key key) written.state.pending_aggregate ≡ some v)
        × IsUnique written.state.pending_aggregate

    aggregate-IsWritten :
        (io : Io 𝓕) (st : TagsState 𝓕)
        → IsUnique st.pending_aggregate
        → IsWritten io
            (record io { state = aggregate_write 𝓕 (wrap (tag_path app_key key) v) false st })
    aggregate-IsWritten io st u =
        let p = tag_path app_key key in
        (
          refl,
          refl,
          resolve-apply_diff p st.pending_aggregate (wrap p v) v (wrap-IsUnique p v uv) leaf
              (resolve-wrap p v),
          apply_diff-IsUnique st.pending_aggregate (wrap p v) false u (wrap-IsUnique p v uv),
        )

    set_tag-IsWritten :
        (opts : SetTagOptions) (io : Io 𝓕)
        → opts.only_if_changed ≡ false
        → opts.flush ≡ false
        → IsUnique io.state.pending_aggregate
        → IsWritten io (set_tag 𝓕 𝓦 app_key key v opts io).1
    unfolding set_tag set_nested_tags buffer_tags construct
    set_tag-IsWritten opts io s f u =
        let triggered = evaluate_log_triggers 𝓕 (scoped app_key (key ∷ [])) v io.state in
        let tags = wrap (tag_path app_key key) v in
        let log = opts.log || triggered.1 in
        rw (s, f)
          (aggregate-IsWritten io (log_write 𝓕 tags log triggered.0)
            (rw (logged-pending tags log triggered.0) u))

    flush_tags-published :
        (io written : Io 𝓕)
        → IsQuiet 𝓕 𝓦
        → v ≢ null
        → IsWritten io written
        → (flush_tags 𝓕 𝓦 written).0 ≡ true
        → ((flush_tags 𝓕 𝓦 written).1.sent ≡ io.sent ++ request 𝓕 𝓦 written ∷ [])
          × (get_tag 𝓕 (flush_tags 𝓕 𝓦 written).1.state app_key key ≡ some v)
    unfolding get_tag lookup
    flush_tags-published io written quiet nonnull (d, s, r, u) fine =
        let p = tag_path app_key key in
        rw (flush_tags_success 𝓕 𝓦 written quiet d fine) (
          rw (s) refl,
          still_there p (apply_diff written.state.tag_values written.state.pending_aggregate true) v
              false (scoped-ne 𝓕 app_key key)
              (resolve-merged true p written.state.tag_values written.state.pending_aggregate v
                (inr nonnull) u leaf r),
        )

    -- A buffered write that skips nothing, and then a flush that succeeds, with nobody else at work: exactly one
    -- request is sent, an update of the aggregate whose payload has the value at the tag's path; the tag still reads
    -- as the value, and a further flush sends nothing. The value is no object and not null, and no key occurs twice in
    -- it nor in the writes that were pending.
    pub set_tag-flush_tags :
        (opts : SetTagOptions) (io : Io 𝓕)
        → IsQuiet 𝓕 𝓦
        → v ≢ null
        → opts.only_if_changed ≡ false
        → opts.flush ≡ false
        → IsUnique io.state.pending_aggregate
        → (flush_tags 𝓕 𝓦 (set_tag 𝓕 𝓦 app_key key v opts io).1).0 ≡ true
        → ((payload : Value Number) × (age : ℕ) × ((flush_tags 𝓕 𝓦
                (set_tag 𝓕 𝓦 app_key key v opts io).1).1.sent
              ≡ io.sent ++ update_aggregate payload age ∷ [])
            × (resolve (tag_path app_key key) payload ≡ some v))
          × (get_tag 𝓕 (flush_tags 𝓕 𝓦 (set_tag 𝓕 𝓦 app_key key v opts io).1).1.state app_key key
              ≡ some v)
          × (flush_tags 𝓕 𝓦 (flush_tags 𝓕 𝓦 (set_tag 𝓕 𝓦 app_key key v opts io).1).1
              ≡ (true, (flush_tags 𝓕 𝓦 (set_tag 𝓕 𝓦 app_key key v opts io).1).1))
    set_tag-flush_tags opts io quiet nonnull s f u fine =
        let written = (set_tag 𝓕 𝓦 app_key key v opts io).1 in
        let wrote = set_tag-IsWritten opts io s f u in
        let published = flush_tags-published io written quiet nonnull wrote fine in
        ((_, _, published.0, wrote.2), published.1, flush_again written quiet wrote.0 fine)
