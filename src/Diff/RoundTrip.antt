-- ===== src/Diff/RoundTrip.antt =====
-- doover/src/utils/diff.rs: applying a generated diff to the old value restores the new one.
use doover_rs.Base.{
  ◌≡◌, refl, String, true, false, Option, none, some, eq_iff, Bool-cases, Option-cases, ◌⊎◌, inl,
  inr, if◌then◌else◌,
}
use doover_rs.Json.{
  Value, Map, null, bool, number, string, array, object, end, entry, get, is_object, is_empty,
}
use doover_rs.Json.Keys.{UniqueKeys, AllValues, get-AllValues}
use doover_rs.Diff.{Numbers, python_json_eq, apply_diff, apply_entries, generate_diff, is_changed}
use doover_rs.Diff.Pointwise.{merge_at, get-apply_entries}
use doover_rs.Diff.Generated.{map_diff, entry_for, diff_at, get-map_diff, map_diff-UniqueKeys}

module _ {N : Type 0} where
  abbrev mutual
    -- A value of an object that a diff can carry: no null, no empty object, no key twice.
    pub IsCleanMember : Value N → Type 0
    IsCleanMember null = ⊥
    IsCleanMember (object m) = (is_empty m ≡ false) × IsCleanMap m
    IsCleanMember _ = Unit

    pub IsCleanMap : Map N → Type 0
    IsCleanMap end = Unit
    IsCleanMap (entry k v m) = (get k m ≡ none) × IsCleanMember v × IsCleanMap m

  abbrev pub IsClean : Value N → Type 0
  IsClean (object m) = IsCleanMap m
  IsClean _ = Unit

  IsCleanMap-UniqueKeys : (m : Map N) → IsCleanMap m → UniqueKeys m
  IsCleanMap-UniqueKeys end c = tt
  IsCleanMap-UniqueKeys (entry k v m) c = (c.0, IsCleanMap-UniqueKeys m c.2)

mutual
  -- The values agree: at each key of an object, and elsewhere by `==` or by `python_json_eq`.
  pub data Matches (𝓝 : Numbers) : Value 𝓝.Number → Value 𝓝.Number → Type 0 where
    leaf :
        {r v : Value 𝓝.Number}
        → is_object v ≡ false
        → (r ≡ v) ⊎ (python_json_eq 𝓝 r v ≡ true)
        → Matches 𝓝 r v
    members :
        {r m : Map 𝓝.Number}
        → ((k : String) → MatchesAt 𝓝 (get k r) (get k m))
        → Matches 𝓝 (object r) (object m)

  pub data MatchesAt (𝓝 : Numbers)
      : Option (Value 𝓝.Number) → Option (Value 𝓝.Number) → Type 0 where
    absent : MatchesAt 𝓝 none none
    present : {r v : Value 𝓝.Number} → Matches 𝓝 r v → MatchesAt 𝓝 (some r) (some v)

module _ (𝓝 : Numbers) where
  open 𝓝 use {Number}

  MatchesAt-refl :
      (m : Map Number) (k : String)
      → AllValues (λ v. Matches 𝓝 v v) m
      → MatchesAt 𝓝 (get k m) (get k m)
  MatchesAt-refl m k all = elim (Option-cases (get k m)) [
    | inl gone ↦ rw gone absent
    | inr (v, found) ↦ rw found (present (get-AllValues (λ v. Matches 𝓝 v v) k m all found))
  ]

  mutual
    Matches-refl : (v : Value Number) → Matches 𝓝 v v
    Matches-refl (object m) = members (λ k. MatchesAt-refl m k (Matches-refl_all m))
    Matches-refl null = leaf refl (inl refl)
    Matches-refl (bool b) = leaf refl (inl refl)
    Matches-refl (number b) = leaf refl (inl refl)
    Matches-refl (string b) = leaf refl (inl refl)
    Matches-refl (array b) = leaf refl (inl refl)

    Matches-refl_all : (m : Map Number) → AllValues (λ v. Matches 𝓝 v v) m
    Matches-refl_all end = tt
    Matches-refl_all (entry k v m) = (Matches-refl v, Matches-refl_all m)

  -- Whatever the old value is, the entry that is generated for `v` turns it into `v`.
  abbrev Restores : Value Number → Type 0
  Restores v =
      (cur : Option (Value Number))
      → MatchesAt 𝓝 (merge_at true cur (entry_for 𝓝 cur v true)) (some v)

  restored_at :
      (cur n : Option (Value Number))
      → ((v : Value Number) → n ≡ some v → Restores v)
      → MatchesAt 𝓝 (merge_at true cur (diff_at 𝓝 cur n true)) n
  restored_at none none r = absent
  restored_at (some c) none r = absent
  restored_at cur (some v) r = r v refl cur

  restore_map :
      (n : Map Number)
      → IsCleanMap n
      → AllValues Restores n
      → (o : Map Number) (j : String)
      → MatchesAt 𝓝 (get j (apply_entries o (map_diff 𝓝 o n true) true)) (get j n)
  restore_map n c all o j =
      rw (get-apply_entries o (map_diff 𝓝 o n true) true j (map_diff-UniqueKeys 𝓝 o n true)) (
        rw (get-map_diff 𝓝 o n true j (IsCleanMap-UniqueKeys n c))
          (restored_at (get j o) (get j n) (λ v found. get-AllValues Restores j n all found)))

  restored_leaf :
      (v : Value Number)
      → is_object v ≡ false
      → ((cur : Option (Value Number)) → merge_at true cur (some v) ≡ some v)
      → (cur : Option (Value Number))
      → MatchesAt 𝓝 (merge_at true cur (if is_changed 𝓝 cur v then some v else none)) (some v)
  restored_leaf v h put none = rw (put none) (present (leaf h (inl refl)))
  restored_leaf v h put (some ov) = elim (Bool-cases (python_json_eq 𝓝 ov v)) [
    | inl same ↦ rw same (present (leaf h (inr same)))
    | inr other ↦ rw other (rw (put (some ov)) (present (leaf h (inl refl))))
  ]

  absent_right : {a b : Option (Value Number)} → MatchesAt 𝓝 a b → a ≡ none → b ≡ none
  absent_right absent e = refl
  absent_right (present m) e = cc

  nothing_matches :
      (m : Map Number) → ((j : String) → MatchesAt 𝓝 none (get j m)) → is_empty m ≡ false → ⊥
  nothing_matches end h e = cc
  nothing_matches (entry k v m) h e =
      let p : get k (entry k v m) ≡ none = absent_right (h k) refl in
      let q : some v ≡ none = unfold get in (rw ((eq_iff k k).1 refl) at p) in cc

  abbrev unless_empty : Map Number → Option (Value Number)
  unless_empty d = if is_empty d then none else some (object d)

  -- A diff that came out empty is dropped: then nothing had to change.
  restored_old :
      (o m d : Map Number)
      → ((j : String) → MatchesAt 𝓝 (get j (apply_entries o d true)) (get j m))
      → MatchesAt 𝓝 (merge_at true (some (object o)) (unless_empty d)) (some (object m))
  unfolding apply_diff apply_entries
  restored_old o m end h = present (members h)
  restored_old o m (entry k v d) h = present (members h)

  restored_missing :
      (m d : Map Number)
      → is_empty m ≡ false
      → ((j : String) → MatchesAt 𝓝 (get j (apply_entries end d true)) (get j m))
      → MatchesAt 𝓝 (merge_at true none (unless_empty d)) (some (object m))
  unfolding apply_diff
  restored_missing m end e h = absurd (nothing_matches m (unfold apply_entries get in h) e)
  restored_missing m (entry k v d) e h = present (members h)

  restored_object :
      (m : Map Number)
      → is_empty m ≡ false
      → ((o : Map Number) (j : String)
          → MatchesAt 𝓝 (get j (apply_entries o (map_diff 𝓝 o m true) true)) (get j m))
      → Restores (object m)
  restored_object m e h none = restored_missing m (map_diff 𝓝 end m true) e (h end)
  restored_object m e h (some (object o)) = restored_old o m (map_diff 𝓝 o m true) (h o)
  restored_object m e h (some _) = rw e (unfold apply_diff in present (Matches-refl (object m)))

  mutual
    restores : (v : Value Number) → IsCleanMember v → Restores v
    restores null c cur = absurd c
    restores (bool b) c cur = restored_leaf (bool b) refl (λ _. refl) cur
    restores (number n) c cur = restored_leaf (number n) refl (λ _. refl) cur
    restores (string s) c cur = restored_leaf (string s) refl (λ _. refl) cur
    restores (array a) c cur = restored_leaf (array a) refl (λ _. refl) cur
    restores (object m) c cur = restored_object m c.0 (restore_map m c.1 (Restores-all m c.1)) cur

    Restores-all : (m : Map Number) → IsCleanMap m → AllValues Restores m
    Restores-all end c = tt
    Restores-all (entry k v m) c = (restores v c.1, Restores-all m c.2)

  -- Applying the diff from `old` to `new`, removals counted, to `old` gives a value that agrees with
  -- `new` at every depth, up to Python's equality of the leaves. `new` may hold no null and no empty
  -- object in an object, and no key twice; `old` is any value.
  pub apply_diff-generate_diff :
      (old new : Value Number)
      → IsClean new
      → Matches 𝓝 (apply_diff old (generate_diff 𝓝 old new true) true) new
  unfolding apply_diff generate_diff
  apply_diff-generate_diff (object o) (object m) c = members (restore_map m c (Restores-all m c) o)
  apply_diff-generate_diff _ (object m) c = Matches-refl (object m)
  apply_diff-generate_diff old _ c = Matches-refl _
