-- ===== src/Diff/Pointwise.antt =====
-- doover/src/utils/diff.rs, `apply_diff`: what the result holds at each key, whatever the order of
-- the entries.
use doover_rs.Base.{
  ◌≡◌, refl, ap, String, Bool, true, false, Option, none, some, str_eq, eq_iff, Bool-cases,
  if◌then◌else◌, unwrap_or, inl, inr,
}
use doover_rs.Json.{
  Value, Map, null, bool, number, string, array, object, end, entry, get, insert, remove,
  get-insert, get-remove, at,
}
use doover_rs.Json.Keys.{UniqueKeys}
use doover_rs.Diff.{apply_entries, apply_diff, merge_into}

module _ {N : Type 0} where
  -- What one entry of a diff makes of the value at its key.
  abbrev pub merge_at : Bool → Option (Value N) → Option (Value N) → Option (Value N)
  merge_at do_delete cur none = cur
  merge_at do_delete cur (some null) = if do_delete then none else some null
  merge_at do_delete cur (some (object fs)) =
      some (apply_diff (unwrap_or cur (object end)) (object fs) do_delete)
  merge_at do_delete cur (some v) = some v

  -- The map after one entry.
  abbrev step_entry : Map N → String → Value N → Bool → Map N
  step_entry m k (object gs) d =
      insert k (merge_into (λ c. apply_entries c gs d) gs (unwrap_or (get k m) (object end))) m
  step_entry m k null d = if d then remove k m else insert k null m
  step_entry m k v d = insert k v m

  apply_entries_step :
      (m : Map N) (k : String) (v : Value N) (fs : Map N) (d : Bool)
      → apply_entries m (entry k v fs) d ≡ apply_entries (step_entry m k v d) fs d
  unfolding apply_entries
  apply_entries_step m k null fs d = refl
  apply_entries_step m k _ fs d = refl

  get-step_entry :
      (m : Map N) (k : String) (v : Value N) (d : Bool) (j : String)
      → get j (step_entry m k v d) ≡ (if str_eq k j then merge_at d (get k m) (some v) else get j m)
  get-step_entry m k null true j = get-remove k j m
  get-step_entry m k null false j = get-insert k j null m
  get-step_entry m k (object gs) d j = unfold apply_diff in get-insert k j _ m
  get-step_entry m k (bool b) d j = get-insert k j (bool b) m
  get-step_entry m k (number b) d j = get-insert k j (number b) m
  get-step_entry m k (string b) d j = get-insert k j (string b) m
  get-step_entry m k (array b) d j = get-insert k j (array b) m

  last_entry :
      (m : Map N) (k : String) (v : Value N) (fs : Map N) (d : Bool) (j : String)
      → get k fs ≡ none
      → merge_at d (if str_eq k j then merge_at d (get k m) (some v) else get j m) (get j fs)
        ≡ merge_at d (get j m) (get j (entry k v fs))
  unfolding get
  last_entry m k v fs d j u = elim (Bool-cases (str_eq k j)) [
    | inl same ↦
        let p : k ≡ j = (eq_iff k j).0 same in
        let q : get j fs ≡ none = rw p at u in
        rw (same, q) (ap (λ x. merge_at d (get x m) (some v)) p)
    | inr other ↦ rw other
  ]

  pub get-apply_entries :
      (m fs : Map N) (d : Bool) (j : String)
      → UniqueKeys fs
      → get j (apply_entries m fs d) ≡ merge_at d (get j m) (get j fs)
  get-apply_entries m end d j u = unfold apply_entries get in refl
  get-apply_entries m (entry k v fs) d j u = rw apply_entries_step (
      rw (get-apply_entries (step_entry m k v d) fs d j u.1)
        (rw (get-step_entry m k v d j) (last_entry m k v fs d j u.0)))

  -- Merging an object diff into an object: the result holds at a key what the entry of the diff at
  -- that key makes of the value there, and keeps every value at whose key the diff has no entry,
  -- provided that no key occurs twice in the diff.
  pub get-apply_diff :
      (m fs : Map N) (d : Bool) (j : String)
      → UniqueKeys fs
      → at (apply_diff (object m) (object fs) d) j ≡ merge_at d (get j m) (get j fs)
  unfolding apply_diff
  get-apply_diff m fs d j u = get-apply_entries m fs d j u
