-- ===== src/Json.antt =====
-- JSON values as `serde_json::Value` and `serde_json::Map` present them to the program.
-- The number type `N` is a parameter: `serde_json::Number` is read only through `as_i64`, `as_u64`
-- and `as_f64`. A map is an association list; the order of its entries is never observed below.
pub mod Keys
use doover_rs.Base.{
  ◌≡◌, refl, String, Bool, true, false, Option, none, some, arith, str_eq, eq_iff, if◌then◌else◌,
}

mutual
  pub data Value (N : Type 0) : Type 0 where
    null : Value N
    bool : Bool → Value N
    number : N → Value N
    string : String → Value N
    array : Values N → Value N
    object : Map N → Value N

  pub data Values (N : Type 0) : Type 0 where
    nil : Values N
    cons : Value N → Values N → Values N

  pub data Map (N : Type 0) : Type 0 where
    end : Map N
    entry : String → Value N → Map N → Map N

module _ {N : Type 0} where
  -- `Map::get`.
  unfoldable pub get : String → Map N → Option (Value N)
  get k end = none
  get k (entry j v m) = if str_eq j k then some v else get k m

  -- `Map::insert`: replaces the value of a present key, and appends a new one.
  unfoldable pub insert : String → Value N → Map N → Map N
  insert k v end = entry k v end
  insert k v (entry j w m) = if str_eq j k then entry j v m else entry j w (insert k v m)

  -- `Map::remove`.
  unfoldable pub remove : String → Map N → Map N
  remove k end = end
  remove k (entry j w m) = let rest = remove k m in if str_eq j k then rest else entry j w rest

  -- `Value::get` with a key: `None` on a value that is no object.
  abbrev pub at : Value N → String → Option (Value N)
  at (object m) k = get k m
  at _ k = none

  abbrev pub is_object : Value N → Bool
  is_object (object m) = true
  is_object _ = false

  abbrev pub is_empty : Map N → Bool
  is_empty end = true
  is_empty (entry k v m) = false

  pub get-insert :
      (k j : String) (v : Value N) (m : Map N)
      → get j (insert k v m) ≡ (if str_eq k j then some v else get j m)
  unfolding get insert
  get-insert k j v end = refl
  get-insert k j v (entry i w m) =
      ground (arith, eq_iff k j, eq_iff i k, eq_iff i j, get-insert k j v m)

  pub get-remove :
      (k j : String) (m : Map N) → get j (remove k m) ≡ (if str_eq k j then none else get j m)
  unfolding get remove
  get-remove k j end = ground arith
  get-remove k j (entry i w m) =
      ground (arith, eq_iff k j, eq_iff i k, eq_iff i j, get-remove k j m)
