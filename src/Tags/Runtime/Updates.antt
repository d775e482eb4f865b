-- ===== src/Tags/Runtime/Updates.antt =====
-- doover/src/tags/runtime.rs, `on_tag_update`: who is told of an update.
use doover_rs.Base.{◌≡◌, false, some, []}
use doover_rs.Json.{Map, object}
use doover_rs.Json.Keys.{IsUniqueMap}
use doover_rs.Diff.Equality.{FiniteNumbers, generate_diff_self}
use doover_rs.Tags.Triggers.{Floats}
use doover_rs.Tags.Runtime.{TagsState, on_tag_update}

module _ (𝓕 : Floats) where
  open 𝓕 use {numbers, Number}

  -- An update that repeats the cached object tells nobody and changes nothing, if no key occurs twice
  -- in it at any depth and every number reads as a finite float.
  pub on_tag_update_same :
      (st : TagsState 𝓕) (m : Map Number)
      → FiniteNumbers numbers
      → IsUniqueMap m
      → st.tag_values ≡ object m
      → on_tag_update 𝓕 (some (object m)) st ≡ (st, [])
  unfolding on_tag_update
  on_tag_update_same st m finite u e = rw (e, generate_diff_self numbers finite m false u)
