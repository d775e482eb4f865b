-- ===== src/Docker/Boot.antt =====
-- doover/src/docker/application.rs: the configuration that an app starts with, the addresses of the sidecars and
-- the pauses before the device agent answers.
use doover_rs.Base.{
  ℕ, ◌*◌, ◌^◌, ◌≡◌, ◌≢◌, ◌⊎◌, refl, if_elim, String, Bool, true, false, Option, none, some, is_some,
  str_eq, and_then, ltb, if◌then◌else◌, inl, inr,
}
use doover_rs.Base.Text.{append}
use doover_rs.Errors.{DooverError, other, Result, ok, err, ◌>>=◌}
use doover_rs.Json.{Value}
use doover_rs.Ui.Refs.{contains}
use doover_rs.Tags.Triggers.{Floats}
use doover_rs.Docker.{
  app_part, Application, Outside, Runner, apply_deployment_config, apply_app_config,
}

unfoldable pub normalize_uri : String → String
unfolding contains
normalize_uri uri = if contains "://" uri then uri else append "http://" uri

-- `2u64.pow(attempt.min(5))` times 200 milliseconds, and five seconds at most.
abbrev pub at_most : ℕ → ℕ → ℕ
at_most a b = if ltb b a then b else a

unfoldable pub connect_backoff : ℕ → ℕ
connect_backoff attempt = at_most (200 * 2 ^ at_most attempt 5) 5000

-- What a start makes of the configuration.
pub data Booted (N : Type 0) : Type 0 where
  -- The agent's configuration is applied, or the cached copy.
  live : Value N → Booted N
  from_cache : Value N → Booted N
  -- No configuration is applied.
  unconfigured : Booted N
  -- The start fails.
  fatal : DooverError → Booted N

module _ {N : Type 0} (print : DooverError → String) where
  abbrev pub has_app_config : String → Result DooverError (Option (Value N)) → Bool
  has_app_config app_key (ok (some agg)) = is_some (app_part app_key agg)
  has_app_config app_key _ = false

  abbrev pub reason_of : Result DooverError (Option (Value N)) → String
  reason_of (err e) = print e
  reason_of (ok _) = "the DDA has no deployment config for this device"

  abbrev pub without_config : Bool → Result DooverError (Option (Value N)) → Booted N
  without_config true fetched =
      fatal (other (append "failed to load initial deployment config: " (reason_of fetched)))
  without_config false fetched = unconfigured

  -- The match on what was fetched and what is cached; `declared` says that the app declares a schema.
  abbrev pub choose : Bool → Result DooverError (Option (Value N)) → Option (Value N) → Booted N
  choose declared fetched (some cached) = from_cache cached
  choose declared (ok (some agg)) none = live agg
  choose declared fetched none = without_config declared fetched

  -- `cached` is what the cache file holds, if there is one that can be read; it counts only without a
  -- configuration for the app.
  unfoldable pub boot_config :
      Bool → String → Result DooverError (Option (Value N)) → Option (Value N) → Booted N
  boot_config declared app_key fetched cached =
      choose declared fetched (if has_app_config app_key fetched then none else cached)

  -- What a choice means.
  abbrev pub IsChosen :
      Bool → String → Result DooverError (Option (Value N)) → Option (Value N) → Booted N → Type 0
  IsChosen declared app_key fetched cached (live agg) =
      (fetched ≡ ok (some agg)) × ((has_app_config app_key fetched ≡ true) ⊎ (cached ≡ none))
  IsChosen declared app_key fetched cached (from_cache c) =
      (cached ≡ some c) × (has_app_config app_key fetched ≡ false)
  IsChosen declared app_key fetched cached unconfigured =
      (declared ≡ false) × (cached ≡ none) × ((agg : Value N) → fetched ≢ ok (some agg))
  IsChosen declared app_key fetched cached (fatal e) =
      (declared ≡ true) × (cached ≡ none) × ((agg : Value N) → fetched ≢ ok (some agg))

  -- The four ways to start: on the agent's configuration if it has one for the app or nothing is cached; on the
  -- cached copy if the agent has none for the app; not at all, for an app that declares a schema, if the agent
  -- gave no aggregate and nothing is cached; and without one, if it declares none.
  pub boot_config-IsChosen :
      (declared : Bool) (app_key : String) (fetched : Result DooverError (Option (Value N)))
      (cached : Option (Value N))
      → IsChosen declared app_key fetched cached (boot_config declared app_key fetched cached)
  unfolding boot_config
  boot_config-IsChosen declared app_key (ok (some agg)) none =
      if_elim
        (λ c. IsChosen declared app_key (ok (some agg)) none (choose declared (ok (some agg)) c))
        (has_app_config app_key (ok (some agg))) (λ h. (refl, inl h)) (λ h. (refl, inr refl))
  boot_config-IsChosen declared app_key (ok (some agg)) (some c) =
      if_elim
        (λ k.
          IsChosen declared app_key (ok (some agg)) (some c) (choose declared (ok (some agg)) k))
        (has_app_config app_key (ok (some agg))) (λ h. (refl, inl h)) (λ h. (refl, h))
  boot_config-IsChosen declared app_key (ok none) (some c) = (refl, refl)
  boot_config-IsChosen declared app_key (err e) (some c) = (refl, refl)
  boot_config-IsChosen true app_key (ok none) none = (refl, refl, λ agg h. cc)
  boot_config-IsChosen false app_key (ok none) none = (refl, refl, λ agg h. cc)
  boot_config-IsChosen true app_key (err e) none = (refl, refl, λ agg h. cc)
  boot_config-IsChosen false app_key (err e) none = (refl, refl, λ agg h. cc)

-- The file of the cached configuration: how a value prints, which can fail, how a text reads, and what the file
-- holds after a replacement, which can fail too.
pub record CacheFile (N : Type 0) : Type 0 where
  pub to_string_pretty : Value N → Option String
  pub from_str : String → Option (Value N)
  pub replace : Option String → String → Option String

module _ {N : Type 0} (file : CacheFile N) where
  abbrev pub holds : Option String → String → Bool
  holds none text = false
  holds (some old) text = str_eq old text

  abbrev pub replaced : Option String → Option String → Option String
  replaced old none = old
  replaced old (some text) = if holds old text then old else file.replace old text

  -- What the file holds after a configuration was saved; a copy that is the same already is left.
  abbrev pub saved_copy : Option String → Value N → Option String
  saved_copy old app_config = replaced old (file.to_string_pretty app_config)

  abbrev pub read_config_cache : Option String → Option (Value N)
  read_config_cache content = and_then content file.from_str

module _ {𝓕 : Floats} {A C : Type 0} (𝓞 : Outside 𝓕) (𝓐 : Application 𝓕 A C) where
  open 𝓕 use {Number}

  abbrev pub apply_booted : Booted Number → Runner 𝓕 A → Result DooverError (Runner 𝓕 A)
  apply_booted (live agg) r = ok (apply_deployment_config 𝓞 agg r)
  apply_booted (from_cache c) r = ok (apply_app_config c r)
  apply_booted unconfigured r = ok r
  apply_booted (fatal e) r = err e

  abbrev pub with_typed : Runner 𝓕 A → Result DooverError C → Result DooverError (C × Runner 𝓕 A)
  with_typed r (ok typed) = ok (typed, r)
  with_typed r (err e) = err e

  -- The configuration that is applied has to load as the app's own, else the start fails.
  abbrev pub load_typed : Runner 𝓕 A → Result DooverError (C × Runner 𝓕 A)
  load_typed r = with_typed r (𝓐.from_value r.config)

  unfoldable pub boot :
      (DooverError → String)
      → Bool
      → Result DooverError (Option (Value Number))
      → Option (Value Number)
      → Runner 𝓕 A
      → Result DooverError (C × Runner 𝓕 A)
  unfolding boot_config apply_deployment_config apply_app_config
  boot print declared fetched cached r =
      apply_booted (boot_config print declared 𝓞.app_key fetched cached) r >>= load_typed
