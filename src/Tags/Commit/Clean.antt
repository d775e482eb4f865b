-- ===== src/Tags/Commit/Clean.antt =====
-- doover/src/tags/runtime.rs, `commit_tags`: what a commit that succeeds leaves to do.
use doover_rs.Base.{
  ◌≡◌, refl, ◌∙◌, ap, Bool, true, false, List, Bool-cases, inl, inr, if◌then◌else◌,
}
use doover_rs.Tags.Triggers.{Floats}
use doover_rs.Tags.Runtime.{
  Request, TagsState, World, Io, is_empty_object, and_ok, flush_tags, current, empty_object,
}
use doover_rs.Tags.Observation.{live_tags_opened}
use doover_rs.Tags.Runtime.Flush.{IsQuiet, request}
use doover_rs.Tags.Commit.{
  commit_tags, flush_live_tags, flush_immediate_logs, flush_logs, periodic_due, no_keys,
  live_payload,
}

module _ (𝓕 : Floats) (𝓦 : World 𝓕) where
  open 𝓕 use {Number}

  -- Every request is answered, and no other task touches the state.
  pub record IsFine : Type 0 where
    pub quiet : IsQuiet 𝓕 𝓦
    pub fine : (sent : List (Request Number)) (r : Request Number) → 𝓦.answer sent r ≡ true

  module _ (good : IsFine) where
    open good use {quiet, fine}

    flush_tags_clean :
        (io : Io 𝓕) → ((flush_tags 𝓕 𝓦 io).0 ≡ true) × ((flush_tags 𝓕 𝓦 io).1.state.dirty ≡ false)
    unfolding flush_tags
    flush_tags_clean io = elim (Bool-cases io.state.dirty) [
      | inl d ↦ rw (d, fine io.sent (request 𝓕 𝓦 io), quiet) (refl, refl)
      | inr d ↦ rw (d) (refl, refl)
    ]

    flush_live_tags_state : (io : Io 𝓕) → (flush_live_tags 𝓕 𝓦 io).state ≡ io.state
    unfolding flush_live_tags
    flush_live_tags_state io =
        let opened = live_tags_opened 𝓕 𝓦.fresh_ms (𝓦.now_unix_ms io.sent) io.state.ui_sub in
        let payload =
          live_payload 𝓕 opened (current 𝓕 io.state) io.state.live_tag_keys empty_object in
        elim (Bool-cases (no_keys 𝓕 io.state.live_tag_keys)) [
          | inl no_tags ↦ rw (no_tags) refl
          | inr tags ↦ elim (Bool-cases (no_keys 𝓕 opened)) [
            | inl closed ↦ rw (tags, closed) refl
            | inr seen ↦ elim (Bool-cases (is_empty_object payload)) [
              | inl e ↦ rw (tags, seen, e) refl
              | inr e ↦ rw (tags, seen, e, quiet) refl
            ]
          ]
        ]

    flush_immediate_logs_clean :
        (io : Io 𝓕)
        → ((flush_immediate_logs 𝓕 𝓦 io).0 ≡ true)
          × ((flush_immediate_logs 𝓕 𝓦 io).1.state.dirty ≡ io.state.dirty)
          × (is_empty_object (flush_immediate_logs 𝓕 𝓦 io).1.state.pending_immediate_log ≡ true)
    unfolding flush_immediate_logs
    flush_immediate_logs_clean io =
        elim (Bool-cases (is_empty_object io.state.pending_immediate_log)) [
          | inl e ↦ rw (e) (refl, refl, e)
          | inr e ↦ rw (e, fine, quiet) (refl, refl, refl)
        ]

    flush_logs_clean :
        (io : Io 𝓕)
        → ((flush_logs 𝓕 𝓦 io).0 ≡ true)
          × ((flush_logs 𝓕 𝓦 io).1.state.dirty ≡ io.state.dirty)
          × ((flush_logs 𝓕 𝓦 io).1.state.pending_immediate_log ≡ io.state.pending_immediate_log)
    unfolding flush_logs
    flush_logs_clean io = elim (Bool-cases (is_empty_object io.state.pending_log)) [
      | inl e ↦ rw (e) (refl, refl, refl)
      | inr e ↦ rw (e, fine, quiet) (refl, refl, refl)
    ]

    -- The result is `Ok`, nothing is dirty and no immediate log is pending.
    abbrev Committed : Bool × Io 𝓕 → Type 0
    Committed p =
        (p.0 ≡ true)
        × (p.1.state.dirty ≡ false)
        × (is_empty_object p.1.state.pending_immediate_log ≡ true)

    and_ok-Committed :
        (p : Bool × Io 𝓕) (k : Io 𝓕 → Bool × Io 𝓕)
        → p.0 ≡ true
        → Committed (k p.1)
        → Committed (and_ok 𝓕 𝓦 p k)
    and_ok-Committed (true, io) k h c = c
    and_ok-Committed (false, io) k h c = cc

    periodic-Committed :
        (b : Bool) (io : Io 𝓕)
        → io.state.dirty ≡ false
        → is_empty_object io.state.pending_immediate_log ≡ true
        → Committed (if b then flush_logs 𝓕 𝓦 io else (true, io))
    periodic-Committed true io d e =
        let c = flush_logs_clean io in (c.0, c.1 ∙ d, ap is_empty_object c.2 ∙ e)
    periodic-Committed false io d e = (refl, d, e)

    -- While every request succeeds and nobody else is at work, a commit is `Ok`, and after it nothing
    -- is dirty and no immediate log is pending.
    pub commit_tags_lem :
        (io : Io 𝓕)
        → ((commit_tags 𝓕 𝓦 io).0 ≡ true)
          × ((commit_tags 𝓕 𝓦 io).1.state.dirty ≡ false)
          × (is_empty_object (commit_tags 𝓕 𝓦 io).1.state.pending_immediate_log ≡ true)
    unfolding commit_tags
    commit_tags_lem io =
        let flushed = flush_tags_clean io in
        let live = flush_live_tags 𝓕 𝓦 (flush_tags 𝓕 𝓦 io).1 in
        let logged = flush_immediate_logs_clean live in
        let still : live.state ≡ (flush_tags 𝓕 𝓦 io).1.state =
          flush_live_tags_state (flush_tags 𝓕 𝓦 io).1 in
        and_ok-Committed (flush_tags 𝓕 𝓦 io) _ flushed.0 (
          and_ok-Committed (flush_immediate_logs 𝓕 𝓦 live) _ logged.0 (
            periodic-Committed (periodic_due 𝓕 𝓦 (flush_immediate_logs 𝓕 𝓦 live).1)
              (flush_immediate_logs 𝓕 𝓦 live).1
              (logged.1 ∙ ap (λ (st : TagsState 𝓕). st.dirty) still ∙ flushed.1) logged.2))
