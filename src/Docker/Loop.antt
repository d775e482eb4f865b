-- ===== src/Docker/Loop.antt =====
-- doover/src/docker/application.rs: what the main loop promises of the flag of the healthcheck and of the tags.
use doover_rs.Base.{
  ◌≡◌, ℕ, ◌++◌, refl, ap, ◌∙◌, String, Bool, true, false, ◌||◌, Option, none, some, List, [], ◌∷◌,
}
use mathlib.Core.Path.{subst}
use doover_rs.Errors.{DooverError, Result, ok, err}
use doover_rs.Json.{Value}
use doover_rs.Events.{aggregate_data}
use doover_rs.Tags.Triggers.{Floats}
use doover_rs.Tags.Runtime as Tags
use doover_rs.Tags.Commit.{commit_tags}
use doover_rs.Tags.Runtime.{Request, update_aggregate, empty_object}
use doover_rs.Tags.Commit.Sent.{commit_tags_sent}
use doover_rs.Tags.Commit.Clean.{IsFine, commit_tags_lem}
use doover_rs.Docker.{
  RunnerEvent, app_event, config_update, ui_command, Selected, stop, received, tick, Ended, running,
  stopped, crashed, Shared, Application, Runner, Outside, run_loop, run_tick, continue_if,
  handle_runner_event, update_config, on_config, apply_deployment_config, apply_part, app_part,
  write_config_cache, apply_app_config, after_tick, commit_after, publish_ui, publish_resolved,
}

-- Whether a tick comes before the loop stops.
abbrev pub ticks : {N : Type 0} → List (Selected N) → Bool
ticks [] = false
ticks (stop ∷ xs) = false
ticks (received e ∷ xs) = ticks xs
ticks (tick ∷ xs) = true

module _ {𝓕 : Floats} {A C : Type 0} (𝓞 : Outside 𝓕) (𝓐 : Application 𝓕 A C) where
  open 𝓕 use {Number}

  write-healthy :
      (k : Option (Option String → Value Number → Option String)) (v : Value Number)
      (r : Runner 𝓕 A)
      → (write_config_cache k v r).healthy ≡ r.healthy
  write-healthy none v r = refl
  write-healthy (some w) v r = refl

  part-healthy :
      (p : Option (Value Number)) (r : Runner 𝓕 A) → (apply_part 𝓞 p r).healthy ≡ r.healthy
  unfolding apply_app_config
  part-healthy none r = refl
  part-healthy (some v) r = write-healthy 𝓞.keep v r

  config-healthy :
      (c : Result DooverError C) (r : Runner 𝓕 A) → (on_config 𝓞 𝓐 c r).healthy ≡ r.healthy
  config-healthy (ok c) r = refl
  config-healthy (err e) r = refl

  update-healthy :
      (agg : Option (Value Number)) (r : Runner 𝓕 A) → (update_config 𝓞 𝓐 agg r).healthy ≡ r.healthy
  unfolding apply_deployment_config
  update-healthy none r = refl
  update-healthy (some agg) r =
      config-healthy (𝓐.from_value (apply_deployment_config 𝓞 agg r).config)
        (apply_deployment_config 𝓞 agg r)
      ∙ part-healthy (app_part 𝓞.app_key agg) r

  event-healthy :
      (e : RunnerEvent Number) (r : Runner 𝓕 A) → (handle_runner_event 𝓞 𝓐 e r).healthy ≡ r.healthy
  unfolding handle_runner_event
  event-healthy (app_event e) r = refl
  event-healthy (config_update e) r = update-healthy (aggregate_data e) r
  event-healthy (ui_command cmd) r = refl

  -- What the flag is after a loop that began with it, given whether a tick came.
  abbrev pub IsHealth : Bool → Bool → Runner 𝓕 A × Ended → Type 0
  IsHealth before ticked (r, running) = r.healthy ≡ (ticked || before)
  IsHealth before ticked (r, stopped) = r.healthy ≡ (ticked || before)
  IsHealth before ticked (r, crashed) = r.healthy ≡ false

  tick-IsHealth :
      (before : Bool) (t : Bool × Shared 𝓕 A) (r : Runner 𝓕 A)
      → IsHealth before true (after_tick 𝓞 𝓐 t r)
  tick-IsHealth before (true, s) r = refl
  tick-IsHealth before (false, s) r = refl

  weaken :
      (before : Bool) (ticked : Bool) (r : Runner 𝓕 A × Ended)
      → IsHealth true ticked r
      → IsHealth before true r
  weaken before true (r, running) h = h
  weaken before true (r, stopped) h = h
  weaken before true (r, crashed) h = h
  weaken before false (r, running) h = h
  weaken before false (r, stopped) h = h
  weaken before false (r, crashed) h = h

  next-IsHealth :
      (before : Bool) (xs : List (Selected Number)) (t : Runner 𝓕 A × Ended)
      → ((r : Runner 𝓕 A) → r.healthy ≡ true → IsHealth true (ticks xs) (run_loop 𝓞 𝓐 xs r))
      → IsHealth before true t
      → IsHealth before true (continue_if 𝓞 𝓐 t (λ r. run_loop 𝓞 𝓐 xs r))
  next-IsHealth before xs (r, running) next h =
      weaken before (ticks xs) (run_loop 𝓞 𝓐 xs r) (next r h)
  next-IsHealth before xs (r, stopped) next h = h
  next-IsHealth before xs (r, crashed) next h = h

  -- The healthcheck's flag is down after a tick that crashed the loop, and otherwise up as soon as one tick was
  -- run; events and the stop signal leave it as it is.
  pub run_loop-IsHealth :
      (xs : List (Selected Number)) (r : Runner 𝓕 A)
      → IsHealth r.healthy (ticks xs) (run_loop 𝓞 𝓐 xs r)
  unfolding run_loop run_tick
  run_loop-IsHealth [] r = refl
  run_loop-IsHealth (stop ∷ xs) r = refl
  run_loop-IsHealth (received e ∷ xs) r =
      subst (λ b. IsHealth b (ticks xs) (run_loop 𝓞 𝓐 xs (handle_runner_event 𝓞 𝓐 e r)))
        (event-healthy e r) (run_loop-IsHealth xs (handle_runner_event 𝓞 𝓐 e r))
  run_loop-IsHealth (tick ∷ xs) r =
      next-IsHealth r.healthy xs (run_tick 𝓞 𝓐 r)
        (λ next healthy.
          subst (λ b. IsHealth b (ticks xs) (run_loop 𝓞 𝓐 xs next)) healthy
            (run_loop-IsHealth xs next))
        (tick-IsHealth r.healthy (commit_after 𝓞 𝓐 (𝓐.main_loop r.shared)) r)

  resolved-tags :
      (config : Value Number) (p : A × Option (Value Number)) (s : Shared 𝓕 A)
      → (publish_resolved 𝓞 𝓐 config p s).tags ≡ s.tags
  resolved-tags config (app, none) s = refl
  resolved-tags config (app, some schema) s = refl

  settled :
      (s : Shared 𝓕 A) (p : Bool × Tags.Io 𝓕) (r : Runner 𝓕 A)
      → p.0 ≡ true
      → ((after_tick 𝓞 𝓐 (p.0, record s { tags = p.1 }) r).0.shared.tags ≡ p.1)
        × ((after_tick 𝓞 𝓐 (p.0, record s { tags = p.1 }) r).0.healthy ≡ true)
        × ((after_tick 𝓞 𝓐 (p.0, record s { tags = p.1 }) r).1 ≡ running)
  unfolding publish_ui
  settled s (true, io) r fine =
      let after = record s { tags = io } in
      (resolved-tags r.config (𝓐.ui_schema after.app) after, refl, refl)
  settled s (false, io) r fine = cc

  -- While every request of the tags succeeds and nobody else is at work on them, a tick whose main loop is `Ok` and
  -- leaves the tags dirty sends, as the first request after the loop, one update of the aggregate with all the writes
  -- that were pending; after the tick nothing is pending or dirty, the healthcheck's flag is up, and the loop goes on.
  pub run_tick-settled :
      (good : IsFine 𝓕 𝓞.world) (r : Runner 𝓕 A) (s : Shared 𝓕 A)
      → 𝓐.main_loop r.shared ≡ (s, ok tt)
      → s.tags.state.dirty ≡ true
      → ((age : ℕ) × (rest : List (Request Number)) × ((run_tick 𝓞 𝓐 r).0.shared.tags.sent
            ≡ s.tags.sent ++ update_aggregate s.tags.state.pending_aggregate age ∷ rest))
        × ((run_tick 𝓞 𝓐 r).0.shared.tags.state.pending_aggregate ≡ empty_object)
        × ((run_tick 𝓞 𝓐 r).0.shared.tags.state.dirty ≡ false)
        × ((run_tick 𝓞 𝓐 r).0.healthy ≡ true)
        × ((run_tick 𝓞 𝓐 r).1 ≡ running)
  unfolding run_tick
  run_tick-settled good r s looped dirty =
      let clean = commit_tags_lem 𝓕 𝓞.world good s.tags in
      let (rest, sent, pending) = commit_tags_sent 𝓕 𝓞.world good s.tags dirty in
      let (kept, healthy, ended) = settled s (commit_tags 𝓕 𝓞.world s.tags) r clean.0 in
      rw (looped) (
        (_, rest, ap (λ (t : Tags.Io 𝓕). t.sent) kept ∙ sent),
        ap (λ (t : Tags.Io 𝓕). t.state.pending_aggregate) kept ∙ pending,
        ap (λ (t : Tags.Io 𝓕). t.state.dirty) kept ∙ clean.1,
        healthy,
        ended,
      )
