-- ===== src/Diff.antt =====
-- doover/src/utils/diff.rs: the diff and merge engine.
-- A recursion of the source on a nested object is a recursion on the entries of the diff (of the
-- new value, in `generate_diff`), since a diff that is no object replaces the data.
pub mod Pointwise
pub mod Generated
pub mod RoundTrip
pub mod Equality
pub mod Keys
use doover_rs.Base.{
  ℕ, suc, String, Bool, true, false, not, ◌&&◌, Option, none, some, str_eq, ◌==◌, is_some,
  unwrap_or, if◌then◌else◌,
}
use doover_rs.Base.Int.{ℤ, pos, int_eq}
use doover_rs.Json.{
  Value, Values, Map, null, bool, number, string, array, object, nil, cons, end, entry, get, insert,
  remove, is_empty,
}

module _ {N : Type 0} where
  -- A nested diff is merged into an object, and replaces anything else.
  abbrev pub merge_into : (Map N → Map N) → Map N → Value N → Value N
  merge_into f fs (object m) = object (f m)
  merge_into f fs _ = object fs

  -- The loop over the entries of the diff.
  unfoldable pub apply_entries : Map N → Map N → Bool → Map N
  apply_entries m end do_delete = m
  apply_entries m (entry k (object gs) fs) do_delete =
      apply_entries
        (insert k
          (merge_into (λ c. apply_entries c gs do_delete) gs (unwrap_or (get k m) (object end))) m)
        fs do_delete
  apply_entries m (entry k null fs) do_delete =
      apply_entries (if do_delete then remove k m else insert k null m) fs do_delete
  apply_entries m (entry k v fs) do_delete = apply_entries (insert k v m) fs do_delete

  -- `apply_diff`, and `apply_diff_in_place` with the new value of `data` as its result.
  unfoldable pub apply_diff : Value N → Value N → Bool → Value N
  apply_diff old (object fs) do_delete = merge_into (λ c. apply_entries c fs do_delete) fs old
  apply_diff old diff do_delete = diff

-- The numbers of JSON and the floats of the machine: `serde_json::Number` by its accessors, `f64`
-- by the operations that the program uses.
pub record Numbers : Type 1 where
  pub Number : Type 0
  pub F64 : Type 0
  pub as_i64 : Number → Option ℤ
  pub as_u64 : Number → Option ℕ
  pub as_f64 : Number → Option F64
  pub f64_eq : F64 → F64 → Bool
  pub of_int : ℤ → F64

-- A number viewed the way Python would.
pub data PyNum (F : Type 0) : Type 0 where
  int : ℤ → PyNum F
  float : F → PyNum F

module _ (𝓝 : Numbers) where
  open 𝓝 use {Number, F64, as_i64, as_u64, as_f64, f64_eq, of_int}

  unfoldable pub numeric_value : Value Number → Option (PyNum F64)
  numeric_value (bool b) = some (int (pos (if b then 1 else 0)))
  numeric_value (number n) = elim (as_i64 n) [
    | some i ↦ some (int i)
    | none ↦ elim (as_u64 n) [
      | some u ↦ some (int (pos u))
      | none ↦ elim (as_f64 n) [ some f ↦ some (float f) | none ↦ none ]
    ]
  ]
  numeric_value _ = none

  unfoldable pub numbers_eq : PyNum F64 → PyNum F64 → Bool
  numbers_eq (int x) (int y) = int_eq x y
  numbers_eq (float x) (float y) = f64_eq x y
  numbers_eq (int x) (float y) = f64_eq (of_int x) y
  numbers_eq (float y) (int x) = f64_eq (of_int x) y

  abbrev both_numeric : Option (PyNum F64) → Option (PyNum F64) → Bool
  both_numeric (some x) (some y) = numbers_eq x y
  both_numeric _ _ = false

  abbrev len : Values Number → ℕ
  len nil = 0
  len (cons x xs) = suc (len xs)

  abbrev size : Map Number → ℕ
  size end = 0
  size (entry k v m) = suc (size m)

  unfoldable mutual
    unfolding numeric_value numbers_eq

    -- JSON value equality with Python semantics.
    pub python_json_eq : Value Number → Value Number → Bool
    python_json_eq null null = true
    python_json_eq (string x) (string y) = str_eq x y
    python_json_eq (array x) (array y) = (len x == len y) && zip_eq x y
    python_json_eq (object x) (object y) = (size x == size y) && entries_eq x y
    python_json_eq a b = both_numeric (numeric_value a) (numeric_value b)

    -- `x.iter().zip(y).all(…)`
    pub zip_eq : Values Number → Values Number → Bool
    zip_eq nil ys = true
    zip_eq (cons x xs) nil = true
    zip_eq (cons x xs) (cons y ys) = python_json_eq x y && zip_eq xs ys

    -- `x.iter().all(…)`
    pub entries_eq : Map Number → Map Number → Bool
    entries_eq end y = true
    entries_eq (entry k v m) y =
        elim (get k y) [ none ↦ false | some w ↦ python_json_eq v w ] && entries_eq m y

  -- `old_map.get(k).is_none_or(|ov| !python_json_eq(ov, v))`
  abbrev pub is_changed : Option (Value Number) → Value Number → Bool
  is_changed none v = true
  is_changed (some ov) v = not (python_json_eq ov v)

  -- A diff between objects, or the new object where the old value is none.
  abbrev pub diff_from : (Map Number → Map Number) → Map Number → Value Number → Map Number
  diff_from f new (object old) = f old
  diff_from f new _ = new

  -- The loop over the removed keys.
  unfoldable pub mark_removed : Map Number → Map Number → Map Number → Map Number
  mark_removed end new diff = diff
  mark_removed (entry k v old) new diff =
      mark_removed old new (if is_some (get k new) then diff else insert k null diff)

  abbrev pub with_removed : Bool → Map Number → Map Number → Map Number → Map Number
  with_removed do_delete old new diff = if do_delete then mark_removed old new diff else diff

  -- The loop over the entries of the new object.
  unfoldable pub diff_entries : Map Number → Map Number → Bool → Map Number → Map Number
  diff_entries old end do_delete diff = diff
  diff_entries old (entry k (object m) rest) do_delete diff =
      let d =
        diff_from (λ o. with_removed do_delete o m (diff_entries o m do_delete end)) m
          (unwrap_or (get k old) (object end)) in
      diff_entries old rest do_delete (if is_empty d then diff else insert k (object d) diff)
  diff_entries old (entry k v rest) do_delete diff =
      diff_entries old rest do_delete (if is_changed (get k old) v then insert k v diff else diff)

  unfoldable pub generate_diff : Value Number → Value Number → Bool → Value Number
  generate_diff old (object m) do_delete =
      object (diff_from (λ o. with_removed do_delete o m (diff_entries o m do_delete end)) m old)
  generate_diff old new do_delete = new
