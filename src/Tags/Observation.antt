-- ===== src/Tags/Observation.antt =====
-- doover/src/tags/runtime.rs, the observation of `dv-ui-sub`: who has what open. The time of a claim
-- and the clock are floats of unix milliseconds.
use doover_rs.Base.{
  unwrap_or, ℕ, String, Bool, true, false, ◌||◌, Option, none, some, List, [], ◌∷◌, ◌++◌, str_eq,
  and_then, if◌then◌else◌,
}
use Prim.Native.String.{◌++◌ as append}
use doover_rs.Json.{Value, Values, Map, string, array, object, nil, cons, end, entry, at}
use doover_rs.Tags.Triggers.{Floats, value_as_f64}

module _ (𝓕 : Floats) where
  open 𝓕 use {Number, F64, sub, lt}

  -- The time stamp of a claim.
  abbrev pub claim_time : Value Number → Option F64
  claim_time (object m) = and_then (at (object m) "ts") (value_as_f64 𝓕)
  claim_time other = value_as_f64 𝓕 other

  abbrev pub is_fresh : F64 → F64 → Value Number → Bool
  is_fresh fresh_ms now claim = elim (claim_time claim) [
    | none ↦ false
    | some ts ↦ lt (sub now ts) fresh_ms
  ]

  fresh_values : F64 → F64 → Map Number → List (Value Number)
  fresh_values fresh_ms now end = []
  fresh_values fresh_ms now (entry k v m) =
      let rest = fresh_values fresh_ms now m in if is_fresh fresh_ms now v then v ∷ rest else rest

  abbrev entries_of : Option (Value Number) → Option (Map Number)
  entries_of (some (object m)) = some m
  entries_of _ = none

  unfoldable pub fresh_entries : F64 → F64 → Value Number → String → List (Value Number)
  unfolding fresh_values
  fresh_entries fresh_ms now ui_sub bucket = elim (entries_of (at ui_sub bucket)) [
    | none ↦ []
    | some m ↦ fresh_values fresh_ms now m
  ]

  abbrev pub has_any : List (Value Number) → Bool
  has_any [] = false
  has_any (_ ∷ _) = true

  unfoldable pub is_being_observed : F64 → F64 → Value Number → Bool
  is_being_observed fresh_ms now ui_sub =
      has_any (fresh_entries fresh_ms now ui_sub "agent_open")
      || has_any (fresh_entries fresh_ms now ui_sub "group_open")
      || has_any (fresh_entries fresh_ms now ui_sub "app_open")
      || has_any (fresh_entries fresh_ms now ui_sub "live_tag_open")

  unfoldable pub is_agent_open : F64 → F64 → Value Number → Bool
  is_agent_open fresh_ms now ui_sub = has_any (fresh_entries fresh_ms now ui_sub "agent_open")

  unfoldable pub is_group_open : F64 → F64 → Value Number → Bool
  is_group_open fresh_ms now ui_sub = has_any (fresh_entries fresh_ms now ui_sub "group_open")

  -- The strings of an array.
  abbrev pub strings : Values Number → List String
  strings nil = []
  strings (cons (string s) vs) = s ∷ strings vs
  strings (cons _ vs) = strings vs

  abbrev pub contains : List String → String → Bool
  contains [] s = false
  contains (x ∷ xs) s = str_eq x s || contains xs s

  abbrev pub array_strings : Option (Value Number) → List String
  array_strings (some (array vs)) = strings vs
  array_strings _ = []

  abbrev pub strings_at : Value Number → String → List String
  strings_at v k = array_strings (at v k)

  any_lists : List (Value Number) → String → Bool
  any_lists [] app_key = false
  any_lists (e ∷ es) app_key = contains (strings_at e "apps") app_key || any_lists es app_key

  unfoldable pub is_app_open : F64 → F64 → String → Value Number → Bool
  unfolding any_lists
  is_app_open fresh_ms now app_key ui_sub =
      if str_eq app_key ""
      then false
      else any_lists (fresh_entries fresh_ms now ui_sub "app_open") app_key

  all_tags : List (Value Number) → List String
  all_tags [] = []
  all_tags (e ∷ es) = strings_at e "tags" ++ all_tags es

  unfoldable pub live_tags_opened : F64 → F64 → Value Number → List String
  unfolding all_tags
  live_tags_opened fresh_ms now ui_sub =
      all_tags (fresh_entries fresh_ms now ui_sub "live_tag_open")

  -- The qualified name is the tag alone for an empty app key.
  unfoldable pub is_live_tag_open :
      F64 → F64 → String → String → Option String → Value Number → Bool
  is_live_tag_open fresh_ms now own_key tag_name app_key ui_sub =
      let key = unwrap_or app_key own_key in
      contains (live_tags_opened fresh_ms now ui_sub)
        (if str_eq key "" then tag_name else append key (append "." tag_name))

  unfoldable pub max_age_secs : F64 → F64 → String → Value Number → ℕ
  max_age_secs fresh_ms now app_key ui_sub =
      if is_app_open fresh_ms now app_key ui_sub then 3 else 900
