-- ===== src/Tags/Commit.antt =====
-- doover/src/tags/runtime.rs: the end-of-loop commit and the log messages.
pub mod Clean
pub mod Sent
pub mod History
use doover_rs.Base.{
  ℕ, suc, ◌-◌, ◌+◌, String, Bool, true, false, not, ◌&&◌, Option, none, some, List, [], ◌∷◌, str_eq,
  leb, if◌then◌else◌,
}
use doover_rs.Json.{Value, object, end, entry}
use doover_rs.Diff.{apply_diff}
use doover_rs.Tags.{KeyPath, construct, lookup, qualified_name}
use doover_rs.Tags.Triggers.{Floats}
use doover_rs.Tags.Observation.{live_tags_opened, contains}
use doover_rs.Tags.Runtime.{
  Request, one_shot, create_message, create_message_at, TagsState, World, Io, empty_object,
  is_empty_object, current, send, and_ok, flush_tags,
}

module _ (𝓕 : Floats) where
  open 𝓕 use {Number, F64}

  -- The loop over the live tags: what one of them adds to the payload.
  abbrev add_live : KeyPath → Option (Value Number) → Value Number → Value Number
  add_live kp none payload = payload
  add_live kp (some v) payload = apply_diff payload (construct kp v) false

  unfoldable pub live_payload :
      List String → Value Number → List KeyPath → Value Number → Value Number
  live_payload opened now [] payload = payload
  live_payload opened now (kp ∷ kps) payload = live_payload opened now kps (
      if contains 𝓕 opened (qualified_name kp)
      then add_live kp (lookup kp now) payload
      else payload)

  abbrev no_keys : {A : Type 0} → List A → Bool
  no_keys [] = true
  no_keys (_ ∷ _) = false

  abbrev pub scoped_payload : String → Value Number → Value Number
  scoped_payload app_key tags = if str_eq app_key "" then tags else object (entry app_key tags end)

  module _ (𝓦 : World 𝓕) where
    open 𝓦 use {now_unix_ms, now_instant, fresh_ms, log_interval}

    -- A failed one-shot is only traced.
    unfoldable pub flush_live_tags : Io 𝓕 → Io 𝓕
    unfolding live_payload
    flush_live_tags io =
        let opened = live_tags_opened 𝓕 fresh_ms (now_unix_ms io.sent) io.state.ui_sub in
        let payload =
          live_payload opened (current 𝓕 io.state) io.state.live_tag_keys empty_object in
        if no_keys io.state.live_tag_keys
        then io
        else if no_keys opened
        then io
        else if is_empty_object payload
        then io
        else (send 𝓕 𝓦 (one_shot payload) io).1

    unfoldable pub flush_immediate_logs : Io 𝓕 → Bool × Io 𝓕
    flush_immediate_logs io =
        if is_empty_object io.state.pending_immediate_log
        then (true, io)
        else send 𝓕 𝓦 (create_message io.state.pending_immediate_log)
            (record io { state = record io.state { pending_immediate_log = empty_object } })

    unfoldable pub flush_logs : Io 𝓕 → Bool × Io 𝓕
    flush_logs io =
        if is_empty_object io.state.pending_log
        then (true, io)
        else send 𝓕 𝓦 (create_message io.state.pending_log) (record io {
          state = record io.state {
            last_log_flush = some (now_instant io.sent);
            pending_log = empty_object;
          };
        })

    -- Whether the interval since the last periodic flush has passed.
    abbrev pub interval_passed : Option ℕ → ℕ → Bool
    interval_passed none now = true
    interval_passed (some at) now = leb log_interval (now - at)

    abbrev pub periodic_due : Io 𝓕 → Bool
    periodic_due io =
        not (is_empty_object io.state.pending_log)
        && interval_passed io.state.last_log_flush (now_instant io.sent)

    unfoldable pub commit_tags : Io 𝓕 → Bool × Io 𝓕
    unfolding flush_immediate_logs flush_logs flush_live_tags
    commit_tags io = and_ok 𝓕 𝓦 (flush_tags 𝓕 𝓦 io) λ io₁.
        and_ok 𝓕 𝓦 (flush_immediate_logs (flush_live_tags io₁))
          λ io₂. if periodic_due io₂ then flush_logs io₂ else (true, io₂)

    -- The number of messages that were written, and `none` for an error.
    abbrev counted : ℕ → Bool × Io 𝓕 → (ℕ → Io 𝓕 → Option ℕ × Io 𝓕) → Option ℕ × Io 𝓕
    counted n (true, io) k = k (suc n) io
    counted n (false, io) k = (none, io)

    unfoldable pub log_history_from : String → List (ℕ × Value Number) → ℕ → Io 𝓕 → Option ℕ × Io 𝓕
    log_history_from app_key [] count io = (some count, io)
    log_history_from app_key ((timestamp, tags) ∷ points) count io =
        if is_empty_object tags
        then log_history_from app_key points count io
        else counted count (send 𝓕 𝓦 (create_message_at (scoped_payload app_key tags) timestamp) io)
            (log_history_from app_key points)

    unfoldable pub log_history : String → List (ℕ × Value Number) → Io 𝓕 → Option ℕ × Io 𝓕
    unfolding log_history_from
    log_history app_key points io = log_history_from app_key points 0 io
