-- ===== src/Tags/Runtime/Flush.antt =====
-- doover/src/tags/runtime.rs, `flush_tags`: what is published, and what a failure leaves.
use doover_rs.Base.{◌≡◌, refl, true, false, List, [], ◌∷◌, ◌++◌, Bool-cases, inl, inr}
use doover_rs.Diff.{apply_diff}
use doover_rs.Tags.Triggers.{Floats}
use doover_rs.Tags.Runtime.{
  Request, update_aggregate, TagsState, World, Io, empty_object, flush_tags, max_age,
}

module _ (𝓕 : Floats) (𝓦 : World 𝓕) where
  open 𝓦 use {meanwhile}

  -- No other task touches the state while a request is awaited.
  abbrev pub IsQuiet : Type 0
  IsQuiet = (sent : List (Request 𝓕.Number)) (st : TagsState 𝓕) → meanwhile sent st ≡ st

  abbrev pub taken : TagsState 𝓕 → TagsState 𝓕
  taken st = record st { dirty = false; pending_aggregate = empty_object }

  -- The request of a flush.
  abbrev pub request : Io 𝓕 → Request 𝓕.Number
  request io =
      update_aggregate io.state.pending_aggregate
        (max_age 𝓕 𝓦 (record io { state = taken io.state }))

  -- With nobody else at work, a flush that fails has dropped the pending writes: nothing is pending,
  -- the cache is as it was, and the next flush sends nothing.
  pub flush_tags_failure :
      (io : Io 𝓕)
      → IsQuiet
      → (flush_tags 𝓕 𝓦 io).0 ≡ false
      → ((flush_tags 𝓕 𝓦 io).1.state ≡ taken io.state)
        × (flush_tags 𝓕 𝓦 (flush_tags 𝓕 𝓦 io).1 ≡ (true, (flush_tags 𝓕 𝓦 io).1))
  unfolding flush_tags
  flush_tags_failure io quiet h = elim (Bool-cases io.state.dirty) [
    | inl d ↦ elim (Bool-cases (𝓦.answer io.sent (request io))) [
      | inl fine ↦ let x : true ≡ false = rw (d, fine) at h in cc
      | inr failed ↦ rw (d, failed, quiet) (refl, refl)
    ]
    | inr clean ↦ let x : true ≡ false = rw (clean) at h in cc
  ]

  -- A dirty flush that succeeds, with nobody else at work, has sent exactly the pending writes as one
  -- aggregate update, has merged them into the cache with nulls deleting, and leaves nothing pending.
  pub flush_tags_success :
      (io : Io 𝓕)
      → IsQuiet
      → io.state.dirty ≡ true
      → (flush_tags 𝓕 𝓦 io).0 ≡ true
      → ((flush_tags 𝓕 𝓦 io).1 ≡ record {
        state = record (taken io.state) {
          tag_values = apply_diff io.state.tag_values io.state.pending_aggregate true;
        };
        sent = io.sent ++ request io ∷ [];
      })
  unfolding flush_tags
  flush_tags_success io quiet d h = elim (Bool-cases (𝓦.answer io.sent (request io))) [
    | inl fine ↦ rw (d, fine, quiet) refl
    | inr failed ↦ let x : false ≡ true = rw (d, failed) at h in cc
  ]
