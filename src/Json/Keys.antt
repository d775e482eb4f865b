-- ===== src/Json/Keys.antt =====
-- Facts on the entries of a map: keys that occur once, predicates on every value.
use doover_rs.Base.{◌≡◌, refl, String, inl, inr, none, some, arith, str_eq, eq_iff, Bool-cases}
use doover_rs.Json.{
  Value, Values, Map, array, object, nil, cons, end, entry, get, insert, remove, get-insert,
  get-remove,
}

module _ {N : Type 0} where
  -- Every key of the map occurs once.
  abbrev pub UniqueKeys : Map N → Type 0
  UniqueKeys end = Unit
  UniqueKeys (entry k v m) = (get k m ≡ none) × UniqueKeys m

  abbrev pub AllValues : (Value N → Type 0) → Map N → Type 0
  AllValues P end = Unit
  AllValues P (entry k v m) = P v × AllValues P m

  pub get-AllValues :
      (P : Value N → Type 0) (k : String) (m : Map N) {v : Value N}
      → AllValues P m
      → get k m ≡ some v
      → P v
  unfolding get
  get-AllValues P k end h e = cc
  get-AllValues P k (entry j w m) {v} h e = elim (Bool-cases (str_eq j k)) [
    | inl same ↦ rw (← (let p : w ≡ v = ground (arith, same) in p)) h.0
    | inr other ↦ get-AllValues P k m h.1 (let p : get k m ≡ some v = ground (arith, other) in p)
  ]

  pub insert-UniqueKeys :
      (k : String) (v : Value N) (m : Map N) → UniqueKeys m → UniqueKeys (insert k v m)
  unfolding insert get
  insert-UniqueKeys k v end u = (refl, tt)
  insert-UniqueKeys k v (entry j w m) u = elim (Bool-cases (str_eq j k)) [
    | inl same ↦ rw same u
    | inr other ↦ rw other (
      ground (arith, u.0, other, get-insert k j v m, eq_iff k j, eq_iff j k),
      insert-UniqueKeys k v m u.1,
    )
  ]

  abbrev mutual
    -- No key occurs twice in an object, at any depth.
    pub IsUnique : Value N → Type 0
    IsUnique (array xs) = AllUnique xs
    IsUnique (object m) = IsUniqueMap m
    IsUnique _ = Unit

    pub AllUnique : Values N → Type 0
    AllUnique nil = Unit
    AllUnique (cons x xs) = IsUnique x × AllUnique xs

    pub IsUniqueMap : Map N → Type 0
    IsUniqueMap end = Unit
    IsUniqueMap (entry k v m) = (get k m ≡ none) × IsUnique v × IsUniqueMap m

  pub IsUniqueMap-UniqueKeys : (m : Map N) → IsUniqueMap m → UniqueKeys m
  IsUniqueMap-UniqueKeys end u = tt
  IsUniqueMap-UniqueKeys (entry k v m) u = (u.0, IsUniqueMap-UniqueKeys m u.2)

  pub get-IsUnique :
      (k : String) (m : Map N) {v : Value N} → IsUniqueMap m → get k m ≡ some v → IsUnique v
  unfolding get
  get-IsUnique k end u e = cc
  get-IsUnique k (entry j w m) {v} u e = elim (Bool-cases (str_eq j k)) [
    | inl same ↦ rw (← (let p : w ≡ v = ground (arith, same) in p)) u.1
    | inr other ↦ get-IsUnique k m u.2 (let p : get k m ≡ some v = ground (arith, other) in p)
  ]

  pub insert-IsUniqueMap :
      (k : String) (v : Value N) (m : Map N)
      → IsUnique v
      → IsUniqueMap m
      → IsUniqueMap (insert k v m)
  unfolding insert get
  insert-IsUniqueMap k v end uv u = (refl, uv, tt)
  insert-IsUniqueMap k v (entry j w m) uv u = elim (Bool-cases (str_eq j k)) [
    | inl same ↦ rw same (u.0, uv, u.2)
    | inr other ↦ rw other (
      ground (arith, u.0, other, get-insert k j v m, eq_iff k j, eq_iff j k),
      u.1,
      insert-IsUniqueMap k v m uv u.2,
    )
  ]

  pub remove-IsUniqueMap : (k : String) (m : Map N) → IsUniqueMap m → IsUniqueMap (remove k m)
  unfolding remove get
  remove-IsUniqueMap k end u = tt
  remove-IsUniqueMap k (entry j w m) u = elim (Bool-cases (str_eq j k)) [
    | inl same ↦ rw same (remove-IsUniqueMap k m u.2)
    | inr other ↦ rw other (
      ground (arith, u.0, other, get-remove k j m, eq_iff k j, eq_iff j k),
      u.1,
      remove-IsUniqueMap k m u.2,
    )
  ]
