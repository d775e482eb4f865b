-- ===== src/Diff/Keys.antt =====
-- doover/src/utils/diff.rs: no operation repeats a key of an object.
use doover_rs.Base.{String, Bool, true, false, unwrap_or, if◌then◌else◌, Option-cases, inl, inr}
use doover_rs.Json.{Value, Map, null, object, end, entry, get, insert, remove}
use doover_rs.Json.Keys.{
  IsUnique, IsUniqueMap, get-IsUnique, insert-IsUniqueMap, remove-IsUniqueMap,
}
use doover_rs.Diff.{apply_entries, apply_diff, merge_into}

module _ {N : Type 0} where
  current-IsUnique :
      (k : String) (m : Map N) → IsUniqueMap m → IsUnique (unwrap_or (get k m) (object end))
  current-IsUnique k m u = elim (Option-cases (get k m)) [
    | inl gone ↦ rw gone tt
    | inr (v, found) ↦ rw found (get-IsUnique k m u found)
  ]

  merged-IsUnique :
      (f : Map N → Map N) (gs : Map N) (v : Value N)
      → ((m : Map N) → IsUniqueMap m → IsUniqueMap (f m))
      → IsUniqueMap gs
      → IsUnique v
      → IsUnique (merge_into f gs v)
  merged-IsUnique f gs (object m) keep ug u = keep m u
  merged-IsUnique f gs null keep ug u = ug
  merged-IsUnique f gs _ keep ug u = ug

  removed_or_null :
      (d : Bool) (k : String) (m : Map N)
      → IsUniqueMap m
      → IsUniqueMap (if d then remove k m else insert k null m)
  removed_or_null true k m u = remove-IsUniqueMap k m u
  removed_or_null false k m u = insert-IsUniqueMap k null m tt u

  pub apply_entries-IsUniqueMap :
      (fs : Map N) (d : Bool) (m : Map N)
      → IsUniqueMap m
      → IsUniqueMap fs
      → IsUniqueMap (apply_entries m fs d)
  unfolding apply_entries
  apply_entries-IsUniqueMap end d m u uf = u
  apply_entries-IsUniqueMap (entry k (object gs) fs) d m u uf =
      apply_entries-IsUniqueMap fs d
        (insert k (merge_into (λ c. apply_entries c gs d) gs (unwrap_or (get k m) (object end))) m)
        (insert-IsUniqueMap k _ m
          (merged-IsUnique (λ c. apply_entries c gs d) gs (unwrap_or (get k m) (object end))
            (λ c uc. apply_entries-IsUniqueMap gs d c uc uf.1) uf.1 (current-IsUnique k m u))
          u)
        uf.2
  apply_entries-IsUniqueMap (entry k null fs) d m u uf =
      apply_entries-IsUniqueMap fs d (if d then remove k m else insert k null m)
        (removed_or_null d k m u) uf.2
  apply_entries-IsUniqueMap (entry k v fs) d m u uf =
      apply_entries-IsUniqueMap fs d (insert k v m) (insert-IsUniqueMap k v m uf.1 u) uf.2

  -- Merging keeps that no key occurs twice, at any depth.
  pub apply_diff-IsUnique :
      (old diff : Value N) (d : Bool)
      → IsUnique old
      → IsUnique diff
      → IsUnique (apply_diff old diff d)
  unfolding apply_diff
  apply_diff-IsUnique old (object fs) d u uf =
      merged-IsUnique (λ c. apply_entries c fs d) fs old
        (λ c uc. apply_entries-IsUniqueMap fs d c uc uf) uf u
  apply_diff-IsUnique old diff d u uf = uf
