-- ===== src/Tags.antt =====
-- doover/src/tags/mod.rs: key paths into the `tag_values` aggregate, and the removal of paths.
pub mod Paths
pub mod Setup
pub mod Strip
pub mod Triggers
pub mod Observation
pub mod Runtime
pub mod Commit
use Prim.Native.String.{◌++◌ as append}
use doover_rs.Base.{
  String, Bool, Option, none, some, List, [], ◌∷◌, str_eq, is_some, and_then, if◌then◌else◌,
}
use doover_rs.Json.{Value, Map, object, end, entry, get, insert, remove, is_empty, at}

-- A `KeyPath` is its segments.
pub record KeyPath : Type 0 where
  pub path : List String

-- `KeyPath::scoped`: an empty app key gives a global path.
unfoldable pub scoped : String → List String → KeyPath
scoped app_key parts = record { path = if str_eq app_key "" then parts else app_key ∷ parts }

join : List String → String
join [] = ""
join (s ∷ []) = s
join (s ∷ r) = append s (append "." (join r))

unfoldable pub qualified_name : KeyPath → String
unfolding join
qualified_name kp = join kp.path

module _ {N : Type 0} where
  -- The loop of `KeyPath::construct`, from the last segment to the first.
  unfoldable pub wrap : List String → Value N → Value N
  wrap [] v = v
  wrap (k ∷ p) v = object (entry k (wrap p v) end)

  unfoldable pub construct : KeyPath → Value N → Value N
  construct kp v = wrap kp.path v

  -- The loop of `KeyPath::lookup`.
  unfoldable pub resolve : List String → Value N → Option (Value N)
  resolve [] root = some root
  resolve (k ∷ p) root = and_then (at root k) (resolve p)

  unfoldable pub lookup : KeyPath → Value N → Option (Value N)
  lookup kp root = resolve kp.path root

  unfoldable pub in_value : KeyPath → Value N → Bool
  unfolding lookup
  in_value kp root = is_some (lookup kp root)

  -- A nested object is stripped, and dropped when nothing is left of it.
  abbrev pub strip_nested : (Map N → Map N) → String → Option (Value N) → Map N → Map N
  strip_nested f k none m = m
  strip_nested f k (some (object c)) m =
      if is_empty (f c) then remove k m else insert k (object (f c)) m
  strip_nested f k (some _) m = remove k m

  abbrev pub strip_leaf : String → Option (Value N) → Map N → Map N
  strip_leaf k none m = m
  strip_leaf k (some _) m = remove k m

  -- The loop of `strip_paths` over the entries of `paths`.
  unfoldable pub strip_entries : Map N → Map N → Map N
  strip_entries m end = m
  strip_entries m (entry k (object ps) rest) =
      strip_entries (strip_nested (λ c. strip_entries c ps) k (get k m) m) rest
  strip_entries m (entry k v rest) = strip_entries (strip_leaf k (get k m) m) rest

  unfoldable pub strip_paths : Value N → Value N → Value N
  strip_paths (object m) (object ps) = object (strip_entries m ps)
  strip_paths target paths = target
