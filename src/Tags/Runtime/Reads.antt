-- ===== src/Tags/Runtime/Reads.antt =====
-- doover/src/tags/runtime.rs: a write is read back before it is flushed.
use doover_rs.Base.{
  ◌≡◌, ◌≢◌, refl, ◌∙◌, sym, String, Bool, true, false, ◌&&◌, ◌||◌, Option, none, some, List, [],
  ◌∷◌, arith, eq_iff, Option-cases, ◌⊎◌, inl, inr, unwrap_or, if◌then◌else◌,
}
use doover_rs.Json.{
  Value, Map, null, bool, number, string, array, object, end, entry, get, is_object, is_empty,
}
use doover_rs.Json.Keys.{IsUnique}
use doover_rs.Diff.{Numbers, apply_diff, generate_diff, python_json_eq}
use doover_rs.Diff.Generated.{map_diff, sub_diff, entry_for, diff_at, get-map_diff}
use doover_rs.Diff.Keys.{apply_diff-IsUnique}
use doover_rs.Tags.{scoped, wrap, construct, resolve, lookup}
use doover_rs.Tags.Paths.{resolve-cons, resolve-wrap, resolve-apply_diff, wrap-IsUnique}
use doover_rs.Tags.Triggers.{Floats}
use doover_rs.Tags.Runtime.{
  aggregate_write, log_write, TagsState, SetTagOptions, is_empty_object, current, get_tag,
  buffer_tags, evaluate_log_triggers, World, Io, set_tag, released,
}

module _ (𝓝 : Numbers) where
  open 𝓝 use {Number}

  -- A diff that comes out empty was for a value that is there already.
  unchanged_leaf :
      (cur : Option (Value Number)) (v : Value Number)
      → is_object v ≡ false
      → entry_for 𝓝 cur v false ≡ none
      → (w : Value Number) × (cur ≡ some w) × (python_json_eq 𝓝 w v ≡ true)
  unchanged_leaf cur (object m) h e = cc
  unchanged_leaf none null h e = cc
  unchanged_leaf none _ h e = cc
  unchanged_leaf (some w) null h e = (w, refl, ground arith)
  unchanged_leaf (some w) (bool b) h e = (w, refl, ground arith)
  unchanged_leaf (some w) (number b) h e = (w, refl, ground arith)
  unchanged_leaf (some w) (string b) h e = (w, refl, ground arith)
  unchanged_leaf (some w) (array b) h e = (w, refl, ground arith)

  no_entry : (m : Map Number) (k : String) → is_empty m ≡ true → get k m ≡ none
  unfolding get
  no_entry end k h = refl
  no_entry (entry j v m) k h = cc

  -- The entry of a map diff along a path.
  unchanged_at :
      (o : Map Number) (k : String) (w : Value Number)
      → is_empty (map_diff 𝓝 o (entry k w end) false) ≡ true
      → entry_for 𝓝 (get k o) w false ≡ none
  unchanged_at o k w h =
      let e : get k (map_diff 𝓝 o (entry k w end) false)
          ≡ diff_at 𝓝 (get k o) (get k (entry k w end)) false =
        get-map_diff 𝓝 o (entry k w end) false k (unfold get in refl, tt) in
      let here : get k (entry k w end) ≡ some w = unfold get in rw ((eq_iff k k).1 refl) in
      let gone : get k (map_diff 𝓝 o (entry k w end) false) ≡ none =
        no_entry (map_diff 𝓝 o (entry k w end) false) k h in
      rw here at (sym e ∙ gone)

  some_unless :
      (b : Bool) (v : Value Number)
      → ◌≡◌ {A = Option (Value Number)} (if b then none else some v) none
      → b ≡ true
  some_unless true v e = refl
  some_unless false v e = cc

  abbrev Found : List String → Value Number → Value Number → Type 0
  Found p root v = (w : Value Number) × (resolve p root ≡ some w) × (python_json_eq 𝓝 w v ≡ true)

  not_in_empty :
      (k : String) (p : List String) (v : Value Number) → Found (k ∷ p) (object end) v → ⊥
  unfolding resolve get
  not_in_empty k p v (w, e, h) = cc

  Found-child :
      (k : String) (p : List String) (o : Map Number) (cur : Option (Value Number))
      (v : Value Number)
      → get k o ≡ cur
      → Found p (unwrap_or cur (object end)) v
      → (cur ≡ none → ⊥)
      → Found (k ∷ p) (object o) v
  Found-child k p o none v e f n = absurd (n refl)
  Found-child k p o (some c) v e (w, r, h) n = (w, rw (resolve-cons, e) r, h)

  unchanged_path :
      (k : String) (p : List String) (root v : Value Number)
      → is_object v ≡ false
      → is_empty (sub_diff 𝓝 (some root) (entry k (wrap p v) end) false) ≡ true
      → Found (k ∷ p) root v
  unfolding wrap
  unchanged_path k [] (object o) v h e =
      let (w, found, same) = unchanged_leaf (get k o) v h (unchanged_at o k (wrap [] v) e) in
      (w, rw (resolve-cons, found) (unfold resolve in refl), same)
  unchanged_path k (j ∷ p) (object o) v h e =
      let here : is_empty (sub_diff 𝓝 (get k o) (entry j (wrap p v) end) false) ≡ true =
        some_unless (is_empty (sub_diff 𝓝 (get k o) (entry j (wrap p v) end) false))
          (object (sub_diff 𝓝 (get k o) (entry j (wrap p v) end) false))
          (unchanged_at o k (wrap (j ∷ p) v) e) in
      elim (Option-cases (get k o)) [
        | inl gone ↦
            absurd (not_in_empty j p v (unchanged_path j p (object end) v h (rw gone at here)))
        | inr (c, there) ↦
            Found-child k (j ∷ p) o (some c) v there (unchanged_path j p c v h (rw there at here))
              (λ n. cc)
      ]
  unchanged_path k p null v h e = cc
  unchanged_path k p _ v h e = cc

  empty_diff :
      (k : String) (p : List String) (root v : Value Number)
      → is_empty_object (generate_diff 𝓝 root (wrap (k ∷ p) v) false) ≡ true
      → is_empty (sub_diff 𝓝 (some root) (entry k (wrap p v) end) false) ≡ true
  unfolding wrap generate_diff
  empty_diff k p root v h = h

  -- An empty diff for a write along a path: the path resolves to an equal value already.
  pub unchanged-Found :
      (p : List String) (root v : Value Number)
      → is_object v ≡ false
      → p ≢ []
      → is_empty_object (generate_diff 𝓝 root (wrap p v) false) ≡ true
      → Found p root v
  unchanged-Found [] root v h n e = absurd (n refl)
  unchanged-Found (k ∷ p) root v h n e = unchanged_path k p root v h (empty_diff k p root v e)

module _ (𝓕 : Floats) where
  open 𝓕 use {numbers, Number}

  -- What a write of `v` to a tag leaves to be read: `v`, or, if an unchanged value may be skipped, an equal one.
  abbrev pub ReadsBack : Bool → TagsState 𝓕 → String → String → Value Number → Type 0
  ReadsBack skips st app_key key v =
      (w : Value Number) × (get_tag 𝓕 st app_key key ≡ some w)
      × ((w ≡ v) ⊎ ((skips ≡ true) × (python_json_eq numbers w v ≡ true)))

  pub scoped-ne : (app_key key : String) → (scoped app_key (key ∷ [])).path ≢ []
  unfolding scoped
  scoped-ne app_key key = ground (arith, eq_iff app_key "")

  choose :
      (app_key key : String) (v : Value Number) (b c : Bool) (st st' : TagsState 𝓕)
      → (c ≡ true → ReadsBack true st app_key key v)
      → ReadsBack b st' app_key key v
      → ReadsBack b (unwrap_or (if b && c then none else some st') st) app_key key v
  choose app_key key v true true st st' same new = same refl
  choose app_key key v true false st st' same new = new
  choose app_key key v false c st st' same new = new

  module _ (app_key key : String) (v : Value Number) (leaf : is_object v ≡ false)
      (uv : IsUnique v) where
    path : List String
    path = (scoped app_key (key ∷ [])).path

    read_written :
        (cache pending : Value Number)
        → IsUnique pending
        → resolve path (apply_diff cache (apply_diff pending (wrap path v) false) false) ≡ some v
    read_written cache pending u =
        resolve-apply_diff path cache (apply_diff pending (wrap path v) false) v
          (apply_diff-IsUnique pending (wrap path v) false u (wrap-IsUnique path v uv)) leaf
          (resolve-apply_diff path pending (wrap path v) v (wrap-IsUnique path v uv) leaf
            (resolve-wrap path v))

    read_aggregate :
        (flush log : Bool) (st : TagsState 𝓕)
        → IsUnique st.pending_aggregate
        → get_tag 𝓕
            (aggregate_write 𝓕 (wrap path v) flush (log_write 𝓕 (wrap path v) log st))
            app_key
            key
          ≡ some v
    unfolding get_tag lookup path
    read_aggregate flush true st u = read_written st.tag_values st.pending_aggregate u
    read_aggregate flush false st u = read_written st.tag_values st.pending_aggregate u

    read_unchanged :
        (st : TagsState 𝓕)
        → is_empty_object (generate_diff numbers (current 𝓕 st) (wrap path v) false) ≡ true
        → ReadsBack true st app_key key v
    unfolding get_tag lookup path
    read_unchanged st e =
        let (w, found, same) =
          unchanged-Found numbers path (current 𝓕 st) v leaf (scoped-ne app_key key) e in
        (w, found, inr (refl, same))

    -- The state after the lock is released.
    read_buffered :
        (opts : SetTagOptions) (st : TagsState 𝓕)
        → IsUnique st.pending_aggregate
        → ReadsBack opts.only_if_changed
            (unwrap_or (buffer_tags 𝓕 (construct (scoped app_key (key ∷ [])) v) opts st) st)
            app_key
            key
            v
    unfolding buffer_tags construct path
    read_buffered opts st u =
        choose app_key key v opts.only_if_changed
          (is_empty_object (generate_diff numbers (current 𝓕 st) (wrap path v) false)) st
          (aggregate_write 𝓕 (wrap path v) opts.flush (log_write 𝓕 (wrap path v) opts.log st))
          (read_unchanged st) (v, read_aggregate opts.flush opts.log st u, inl refl)

    module _ (𝓦 : World 𝓕) where
      not_flushed :
          (opts : SetTagOptions) (io : Io 𝓕) (o : Option (TagsState 𝓕))
          → opts.flush ≡ false
          → released 𝓕 𝓦 opts io o ≡ (true, record io { state = unwrap_or o io.state })
      not_flushed opts io none f = refl
      not_flushed opts io (some st) f = rw f

      -- After a buffered write of a tag, reading the tag gives the value that was written, or the
      -- value that it had if that is equal in Python's sense and the write skips unchanged values.
      -- The write is `Ok` and sends nothing. The value is no object, and no key occurs twice in it
      -- nor in the pending writes.
      pub get_tag-set_tag :
          (opts : SetTagOptions) (io : Io 𝓕)
          → opts.flush ≡ false
          → IsUnique io.state.pending_aggregate
          → ((set_tag 𝓕 𝓦 app_key key v opts io).0 ≡ true)
            × ((set_tag 𝓕 𝓦 app_key key v opts io).1.sent ≡ io.sent)
            × ReadsBack opts.only_if_changed
                (set_tag 𝓕 𝓦 app_key key v opts io).1.state
                app_key
                key
                v
      unfolding set_tag
      get_tag-set_tag opts io f u =
          let kp = scoped app_key (key ∷ []) in
          let triggered = evaluate_log_triggers 𝓕 kp v io.state in
          let opts' : SetTagOptions = record opts { log = opts.log || triggered.1 } in
          rw
            (not_flushed opts' (record io { state = triggered.0 })
              (buffer_tags 𝓕 (construct kp v) opts' triggered.0) f)
            (refl, refl, read_buffered opts' triggered.0 u)
