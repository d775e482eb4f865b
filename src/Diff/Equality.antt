-- ===== src/Diff/Equality.antt =====
-- doover/src/utils/diff.rs: `python_json_eq` and the diff of a value with itself.
use doover_rs.Base.{
  ◌≡◌, refl, ap, String, Bool, true, false, none, some, arith, str_eq, eq_iff, Bool-cases,
  Option-cases, inl, inr, if◌then◌else◌,
}
use doover_rs.Base.Int.{pos, int_eq_refl}
use doover_rs.Json.{
  Value, Values, Map, null, bool, number, string, array, object, nil, cons, end, entry, get,
}
use doover_rs.Json.Keys.{IsUnique, AllUnique, IsUniqueMap}
use doover_rs.Diff.{
  Numbers, PyNum, int, float, numeric_value, numbers_eq, python_json_eq, zip_eq, entries_eq,
  diff_entries, mark_removed, generate_diff,
}
use doover_rs.Diff.Generated.{map_diff}

module _ {N : Type 0} where
  -- Every entry that `s` finds is found in `m`.
  abbrev Within : Map N → Map N → Type 0
  Within s m = (k : String) (v : Value N) → get k s ≡ some v → get k m ≡ some v

  Within-tail :
      (k : String) (v : Value N) (s m : Map N)
      → get k s ≡ none
      → Within (entry k v s) m
      → Within s m
  unfolding get
  Within-tail k v s m u h j w found = elim (Bool-cases (str_eq k j)) [
    | inl same ↦ let p : k ≡ j = (eq_iff k j).0 same in let q : get j s ≡ none = rw p at u in cc
    | inr other ↦ h j w (rw other found)
  ]

  Within-head : (k : String) (v : Value N) (s m : Map N) → Within (entry k v s) m → get k m ≡ some v
  Within-head k v s m h = h k v (unfold get in (rw ((eq_iff k k).1 refl)))

-- What the documentation of `serde_json::Number` says: every number reads as a finite float.
pub record FiniteNumbers (𝓝 : Numbers) : Type 0 where
  pub reads : (n : 𝓝.Number) → (f : 𝓝.F64) × (𝓝.as_f64 n ≡ some f)
  pub reflexive : (n : 𝓝.Number) (f : 𝓝.F64) → 𝓝.as_f64 n ≡ some f → 𝓝.f64_eq f f ≡ true

module _ (𝓝 : Numbers) (finite : FiniteNumbers 𝓝) where
  open 𝓝 use {Number, F64, as_i64, as_u64}

  number_value :
      (n : Number)
      → (x : PyNum F64) × (numeric_value 𝓝 (number n) ≡ some x) × (numbers_eq 𝓝 x x ≡ true)
  unfolding numeric_value numbers_eq
  number_value n = elim (Option-cases (as_i64 n)) [
    | inr (i, e) ↦ (int i, ground (arith, e), int_eq_refl i)
    | inl not_signed ↦ elim (Option-cases (as_u64 n)) [
      | inr (w, e) ↦ (int (pos w), ground (arith, e, not_signed), int_eq_refl (pos w))
      | inl not_unsigned ↦
          let (f, e) = finite.reads n in
          (float f, ground (arith, e, not_signed, not_unsigned), finite.reflexive n f e)
    ]
  ]

  number_refl : (n : Number) → python_json_eq 𝓝 (number n) (number n) ≡ true
  unfolding python_json_eq
  number_refl n = let (x, p, q) = number_value n in rw p q

  mutual
    unfolding python_json_eq

    eq_refl : (v : Value Number) → IsUnique v → python_json_eq 𝓝 v v ≡ true
    eq_refl null u = refl
    eq_refl (bool b) u = int_eq_refl (pos (if b then 1 else 0))
    eq_refl (number n) u = number_refl n
    eq_refl (string s) u = (eq_iff s s).1 refl
    eq_refl (array xs) u = ground (arith, zip_refl xs u)
    eq_refl (object m) u = ground (arith, entries_refl m m u (λ k v found. found))

    zip_refl : (xs : Values Number) → AllUnique xs → zip_eq 𝓝 xs xs ≡ true
    zip_refl nil u = refl
    zip_refl (cons x xs) u = rw (eq_refl x u.0) (zip_refl xs u.1)

    entries_refl : (s m : Map Number) → IsUniqueMap s → Within s m → entries_eq 𝓝 s m ≡ true
    entries_refl end m u h = refl
    entries_refl (entry k v s) m u h =
        rw (Within-head k v s m h, eq_refl v u.1) (entries_refl s m u.2 (Within-tail k v s m u.0 h))

  nothing_removed : (s m : Map Number) → IsUniqueMap s → Within s m → mark_removed 𝓝 s m end ≡ end
  unfolding mark_removed
  nothing_removed end m u h = refl
  nothing_removed (entry k v s) m u h =
      rw (Within-head k v s m h) (nothing_removed s m u.2 (Within-tail k v s m u.0 h))

  same_map :
      (o : Map Number) (d : Bool)
      → IsUniqueMap o
      → diff_entries 𝓝 o o d end ≡ end
      → map_diff 𝓝 o o d ≡ end
  same_map o true u e = rw e (nothing_removed o o u (λ k v found. found))
  same_map o false u e = e

  -- All entries of `s` stand in `m` unchanged.
  nothing_changed :
      (s m : Map Number) (d : Bool) → IsUniqueMap s → Within s m → diff_entries 𝓝 m s d end ≡ end
  unfolding diff_entries
  nothing_changed end m d u h = refl
  nothing_changed (entry k (object o) s) m d u h = rw (Within-head k (object o) s m h) (
      rw (same_map o d u.1 (nothing_changed o o d u.1 (λ j w found. found)))
        (nothing_changed s m d u.2 (Within-tail k (object o) s m u.0 h)))
  nothing_changed (entry k v s) m d u h =
      rw (Within-head k v s m h, eq_refl v u.1)
        (nothing_changed s m d u.2 (Within-tail k v s m u.0 h))

  -- The diff of an object with itself is empty, whether removals count or not, if no key occurs
  -- twice in it at any depth and every number reads as a finite float.
  pub generate_diff_self :
      (m : Map Number) (d : Bool)
      → IsUniqueMap m
      → generate_diff 𝓝 (object m) (object m) d ≡ object end
  unfolding generate_diff
  generate_diff_self m d u =
      ap object (same_map m d u (nothing_changed m m d u (λ k v found. found)))

  -- Python's equality holds between a value and itself, if no key occurs twice in it at any depth.
  pub python_json_eq_refl : (v : Value Number) → IsUnique v → python_json_eq 𝓝 v v ≡ true
  python_json_eq_refl v u = eq_refl v u
