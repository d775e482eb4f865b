-- ===== src/Diff/Generated.antt =====
-- doover/src/utils/diff.rs, `generate_diff`: what the generated diff holds at each key.
use doover_rs.Base.{
  ◌≡◌, refl, ap, String, Bool, true, false, Option, none, some, arith, str_eq, eq_iff, Bool-cases,
  if◌then◌else◌, unwrap_or, inl, inr, is_some, or_else, not, ◌&&◌,
}
use doover_rs.Json.{Value, Map, null, object, end, entry, get, insert, get-insert, is_empty}
use doover_rs.Json.Keys.{UniqueKeys, insert-UniqueKeys}
use doover_rs.Diff.{Numbers, is_changed, diff_from, mark_removed, with_removed, diff_entries}

module _ (𝓝 : Numbers) where
  open 𝓝 use {Number}

  -- The diff between the entries of two objects.
  abbrev pub map_diff : Map Number → Map Number → Bool → Map Number
  map_diff o n d = with_removed 𝓝 d o n (diff_entries 𝓝 o n d end)

  -- The diff of a nested object, as a map.
  abbrev pub sub_diff : Option (Value Number) → Map Number → Bool → Map Number
  sub_diff cur m d = diff_from 𝓝 (λ o. map_diff o m d) m (unwrap_or cur (object end))

  -- The entry that the diff has at a key of the new object.
  abbrev pub entry_for : Option (Value Number) → Value Number → Bool → Option (Value Number)
  entry_for cur (object m) d =
      if is_empty (sub_diff cur m d) then none else some (object (sub_diff cur m d))
  entry_for cur v d = if is_changed 𝓝 cur v then some v else none

  abbrev put : String → Option (Value Number) → Map Number → Map Number
  put k none m = m
  put k (some v) m = insert k v m

  get-put :
      (k : String) (o : Option (Value Number)) (m : Map Number) (j : String)
      → get j (put k o m) ≡ (if str_eq k j then or_else o (get j m) else get j m)
  get-put k none m j = ground arith
  get-put k (some v) m j = get-insert k j v m

  put-UniqueKeys :
      (k : String) (o : Option (Value Number)) (m : Map Number)
      → UniqueKeys m
      → UniqueKeys (put k o m)
  put-UniqueKeys k none m u = u
  put-UniqueKeys k (some v) m u = insert-UniqueKeys k v m u

  diff_entries_step :
      (old : Map Number) (k : String) (v : Value Number) (rest : Map Number) (d : Bool)
      (diff : Map Number)
      → diff_entries 𝓝 old (entry k v rest) d diff
        ≡ diff_entries 𝓝 old rest d (put k (entry_for (get k old) v d) diff)
  unfolding diff_entries
  diff_entries_step old k (object m) rest d diff =
      ap (diff_entries 𝓝 old rest d) (pushed (is_empty (sub_diff (get k old) m d)))
    where
      pushed :
          (b : Bool)
          → (if b then diff else insert k (object (sub_diff (get k old) m d)) diff)
            ≡ put k (if b then none else some (object (sub_diff (get k old) m d))) diff
      pushed true = refl
      pushed false = refl
  diff_entries_step old k v rest d diff =
      ap (diff_entries 𝓝 old rest d) (pushed (is_changed 𝓝 (get k old) v))
    where
      pushed :
          (b : Bool)
          → (if b then insert k v diff else diff) ≡ put k (if b then some v else none) diff
      pushed true = refl
      pushed false = refl

  -- What `diff_entries` adds at one key.
  abbrev found_at : Option (Value Number) → Option (Value Number) → Bool → Option (Value Number)
  found_at cur none d = none
  found_at cur (some v) d = entry_for cur v d

  last_entry :
      (old : Map Number) (k : String) (v : Value Number) (rest : Map Number) (d : Bool)
      (diff : Map Number) (j : String)
      → get k rest ≡ none
      → or_else
          (found_at (get j old) (get j rest) d)
          (if str_eq k j then or_else (entry_for (get k old) v d) (get j diff) else get j diff)
        ≡ or_else (found_at (get j old) (get j (entry k v rest)) d) (get j diff)
  unfolding get
  last_entry old k v rest d diff j u = elim (Bool-cases (str_eq k j)) [
    | inl same ↦
        let p : k ≡ j = (eq_iff k j).0 same in
        let q : get j rest ≡ none = rw p at u in
        rw (same, q) (ap (λ x. or_else (entry_for (get x old) v d) (get j diff)) p)
    | inr other ↦ rw other
  ]

  pub get-diff_entries :
      (old new : Map Number) (d : Bool) (diff : Map Number) (j : String)
      → UniqueKeys new
      → get j (diff_entries 𝓝 old new d diff)
        ≡ or_else (found_at (get j old) (get j new) d) (get j diff)
  get-diff_entries old end d diff j u = unfold diff_entries get in refl
  get-diff_entries old (entry k v rest) d diff j u = rw diff_entries_step (
      rw (get-diff_entries old rest d (put k (entry_for (get k old) v d) diff) j u.1)
        (rw (get-put k (entry_for (get k old) v d) diff j) (last_entry old k v rest d diff j u.0)))

  get-mark_removed :
      (old new diff : Map Number) (j : String)
      → get j (mark_removed 𝓝 old new diff)
        ≡ (if is_some (get j old) && not (is_some (get j new)) then some null else get j diff)
  unfolding mark_removed get
  get-mark_removed end new diff j = refl
  get-mark_removed (entry k v old) new diff j = ground (
    arith,
    eq_iff k j,
    get-insert k j null diff,
    get-mark_removed old new (if is_some (get k new) then diff else insert k null diff) j,
  )

  -- The diff between two objects has, at a key of the new object, the entry that the two values
  -- there call for, and at any other key a null if the old object has the key and removals count.
  abbrev pub diff_at : Option (Value Number) → Option (Value Number) → Bool → Option (Value Number)
  diff_at cur (some v) d = entry_for cur v d
  diff_at cur none d = if d && is_some cur then some null else none

  or_else-none : (o : Option (Value Number)) → or_else o none ≡ o
  or_else-none none = refl
  or_else-none (some v) = refl

  removed_or_found :
      (cur n : Option (Value Number))
      → (if is_some cur && not (is_some n) then some null else or_else (found_at cur n true) none)
        ≡ diff_at cur n true
  removed_or_found none none = refl
  removed_or_found (some c) none = refl
  removed_or_found none (some v) = or_else-none (entry_for none v true)
  removed_or_found (some c) (some v) = or_else-none (entry_for (some c) v true)

  only_found :
      (cur n : Option (Value Number)) → or_else (found_at cur n false) none ≡ diff_at cur n false
  only_found cur none = refl
  only_found cur (some v) = or_else-none (entry_for cur v false)

  pub get-map_diff :
      (old new : Map Number) (d : Bool) (j : String)
      → UniqueKeys new
      → get j (map_diff old new d) ≡ diff_at (get j old) (get j new) d
  get-map_diff old new true j u =
      rw (get-mark_removed old new (diff_entries 𝓝 old new true end) j) (
        rw (get-diff_entries old new true end j u)
          (unfold get in removed_or_found (get j old) (get j new)))
  get-map_diff old new false j u =
      rw (get-diff_entries old new false end j u) (unfold get in only_found (get j old) (get j new))

  diff_entries-UniqueKeys :
      (old new : Map Number) (d : Bool) (diff : Map Number)
      → UniqueKeys diff
      → UniqueKeys (diff_entries 𝓝 old new d diff)
  diff_entries-UniqueKeys old end d diff u = unfold diff_entries in u
  diff_entries-UniqueKeys old (entry k v rest) d diff u = rw diff_entries_step (
      diff_entries-UniqueKeys old rest d (put k (entry_for (get k old) v d) diff)
        (put-UniqueKeys k (entry_for (get k old) v d) diff u))

  mark_removed-UniqueKeys :
      (old new diff : Map Number) → UniqueKeys diff → UniqueKeys (mark_removed 𝓝 old new diff)
  unfolding mark_removed
  mark_removed-UniqueKeys end new diff u = u
  mark_removed-UniqueKeys (entry k v old) new diff u =
      mark_removed-UniqueKeys old new (if is_some (get k new) then diff else insert k null diff)
        (keep (is_some (get k new)))
    where
      keep : (b : Bool) → UniqueKeys (if b then diff else insert k null diff)
      keep true = u
      keep false = insert-UniqueKeys k null diff u

  pub map_diff-UniqueKeys : (old new : Map Number) (d : Bool) → UniqueKeys (map_diff old new d)
  map_diff-UniqueKeys old new true =
      mark_removed-UniqueKeys old new (diff_entries 𝓝 old new true end)
        (diff_entries-UniqueKeys old new true end tt)
  map_diff-UniqueKeys old new false = diff_entries-UniqueKeys old new false end tt
