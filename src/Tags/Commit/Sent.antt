-- ===== src/Tags/Commit/Sent.antt =====
-- doover/src/tags/runtime.rs, `commit_tags`: what it has sent of the writes that waited.
use mathlib.Core.List.{append_assoc, append-nil}
use doover_rs.Base.{
  ◌≡◌, refl, ◌∙◌, ap, sym, Bool, true, false, List, [], ◌∷◌, ◌++◌, if◌then◌else◌, if_elim,
}
use doover_rs.Tags.Triggers.{Floats}
use doover_rs.Tags.Runtime.{
  Request, TagsState, World, Io, is_empty_object, and_ok, send, flush_tags, current, empty_object,
}
use doover_rs.Tags.Observation.{live_tags_opened}
use doover_rs.Tags.Runtime.Flush.{IsQuiet, request, flush_tags_success}
use doover_rs.Tags.Commit.{
  commit_tags, flush_live_tags, flush_immediate_logs, flush_logs, periodic_due, no_keys,
  live_payload,
}
use doover_rs.Tags.Commit.Clean.{IsFine}

module _ (𝓕 : Floats) (𝓦 : World 𝓕) where
  open 𝓕 use {Number}

  -- The requests of the second follow those of the first, and the same writes are pending.
  abbrev IsAfter : Io 𝓕 → Io 𝓕 → Type 0
  IsAfter io io' =
      (rest : List (Request Number)) × (io'.sent ≡ io.sent ++ rest)
      × (io'.state.pending_aggregate ≡ io.state.pending_aggregate)

  IsAfter-refl : (io : Io 𝓕) → IsAfter io io
  IsAfter-refl io = ([], sym (append-nil io.sent), refl)

  IsAfter-trans : (a b c : Io 𝓕) → IsAfter a b → IsAfter b c → IsAfter a c
  IsAfter-trans a b c (r, s, p) (r', s', p') =
      (r ++ r', s' ∙ ap (λ x. x ++ r') s ∙ append_assoc a.sent r r', p' ∙ p)

  and_ok-IsAfter :
      (io : Io 𝓕) (p : Bool × Io 𝓕) (k : Io 𝓕 → Bool × Io 𝓕)
      → IsAfter io p.1
      → ((io' : Io 𝓕) → IsAfter io' (k io').1)
      → IsAfter io (and_ok 𝓕 𝓦 p k).1
  and_ok-IsAfter io (true, io') k h n = IsAfter-trans io io' (k io').1 h (n io')
  and_ok-IsAfter io (false, io') k h n = h

  module _ (quiet : IsQuiet 𝓕 𝓦) where
    send-IsAfter : (r : Request Number) (io : Io 𝓕) → IsAfter io (send 𝓕 𝓦 r io).1
    send-IsAfter r io = (
      r ∷ [],
      refl,
      ap (λ (st : TagsState 𝓕). st.pending_aggregate) (quiet (io.sent ++ r ∷ []) io.state),
    )

    live-IsAfter : (io : Io 𝓕) → IsAfter io (flush_live_tags 𝓕 𝓦 io)
    unfolding flush_live_tags
    live-IsAfter io =
        let opened = live_tags_opened 𝓕 𝓦.fresh_ms (𝓦.now_unix_ms io.sent) io.state.ui_sub in
        let payload =
          live_payload 𝓕 opened (current 𝓕 io.state) io.state.live_tag_keys empty_object in
        if_elim (IsAfter io) (no_keys 𝓕 io.state.live_tag_keys) (λ _. IsAfter-refl io)
          (λ _.
            if_elim (IsAfter io) (no_keys 𝓕 opened) (λ _. IsAfter-refl io)
              (λ _.
                if_elim (IsAfter io) (is_empty_object payload) (λ _. IsAfter-refl io)
                  (λ _. send-IsAfter _ io)))

    immediate-IsAfter : (io : Io 𝓕) → IsAfter io (flush_immediate_logs 𝓕 𝓦 io).1
    unfolding flush_immediate_logs
    immediate-IsAfter io =
        if_elim (λ (p : Bool × Io 𝓕). IsAfter io p.1)
          (is_empty_object io.state.pending_immediate_log) (λ _. IsAfter-refl io)
          (λ _. send-IsAfter _ _)

    logs-IsAfter : (io : Io 𝓕) → IsAfter io (flush_logs 𝓕 𝓦 io).1
    unfolding flush_logs
    logs-IsAfter io =
        if_elim (λ (p : Bool × Io 𝓕). IsAfter io p.1) (is_empty_object io.state.pending_log)
          (λ _. IsAfter-refl io) (λ _. send-IsAfter _ _)

    periodic-IsAfter :
        (io : Io 𝓕) → IsAfter io (if periodic_due 𝓕 𝓦 io then flush_logs 𝓕 𝓦 io else (true, io)).1
    periodic-IsAfter io =
        if_elim (λ (p : Bool × Io 𝓕). IsAfter io p.1) (periodic_due 𝓕 𝓦 io) (λ _. logs-IsAfter io)
          (λ _. IsAfter-refl io)

  -- The requests of a commit of writes that waited: the update with them is the first.
  pub commit_tags_sent :
      (good : IsFine 𝓕 𝓦) (io : Io 𝓕)
      → io.state.dirty ≡ true
      → (rest : List (Request Number)) × ((commit_tags 𝓕 𝓦 io).1.sent
          ≡ io.sent ++ request 𝓕 𝓦 io ∷ rest)
        × ((commit_tags 𝓕 𝓦 io).1.state.pending_aggregate ≡ empty_object)
  unfolding commit_tags
  commit_tags_sent good io d =
      let fine : (flush_tags 𝓕 𝓦 io).0 ≡ true =
        unfold flush_tags in rw (d, good.fine io.sent (request 𝓕 𝓦 io)) refl in
      let flushed = flush_tags_success 𝓕 𝓦 io good.quiet d fine in
      let io₁ = (flush_tags 𝓕 𝓦 io).1 in
      let (rest, sent, pending) : IsAfter io₁ (commit_tags 𝓕 𝓦 io).1 =
        and_ok-IsAfter io₁ (flush_tags 𝓕 𝓦 io)
          (λ io'.
            and_ok 𝓕 𝓦 (flush_immediate_logs 𝓕 𝓦 (flush_live_tags 𝓕 𝓦 io'))
              (λ io₂. if periodic_due 𝓕 𝓦 io₂ then flush_logs 𝓕 𝓦 io₂ else (true, io₂)))
          (IsAfter-refl io₁)
          (λ io'.
            and_ok-IsAfter io' (flush_immediate_logs 𝓕 𝓦 (flush_live_tags 𝓕 𝓦 io'))
              (λ io₂. if periodic_due 𝓕 𝓦 io₂ then flush_logs 𝓕 𝓦 io₂ else (true, io₂))
              (IsAfter-trans io' (flush_live_tags 𝓕 𝓦 io')
                (flush_immediate_logs 𝓕 𝓦 (flush_live_tags 𝓕 𝓦 io')).1 (live-IsAfter good.quiet io')
                (immediate-IsAfter good.quiet (flush_live_tags 𝓕 𝓦 io')))
              (periodic-IsAfter good.quiet)) in
      let first : io₁.sent ≡ io.sent ++ request 𝓕 𝓦 io ∷ [] = ap (λ (x : Io 𝓕). x.sent) flushed in
      (
        rest,
        sent ∙ ap (λ x. x ++ rest) first ∙ append_assoc io.sent (request 𝓕 𝓦 io ∷ []) rest,
        pending ∙ ap (λ (x : Io 𝓕). x.state.pending_aggregate) flushed,
      )
