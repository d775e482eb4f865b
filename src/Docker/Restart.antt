-- ===== src/Docker/Restart.antt =====
-- doover/src/docker/application.rs: a start on the configuration that an earlier start kept.
use doover_rs.Base.{
  ◌≡◌, refl, ◌∙◌, ap, sym, if_elim, String, Bool, false, Option, none, some, eq_iff, str_eq,
}
use doover_rs.Errors.{DooverError, Result, ok, err}
use doover_rs.Json.{Value}
use doover_rs.Tags.Triggers.{Floats}
use doover_rs.Docker.{
  app_part, Application, Outside, Runner, apply_deployment_config, apply_app_config,
  write_config_cache,
}
use doover_rs.Docker.Boot.{
  has_app_config, boot_config, CacheFile, saved_copy, read_config_cache, load_typed, with_typed,
  boot,
}

module _ {N : Type 0} (file : CacheFile N) where
  -- The file holds the text after the configuration was saved, whether or not it did before.
  saved_copy-text :
      (old : Option String) (v : Value N) (text : String)
      → file.to_string_pretty v ≡ some text
      → file.replace old text ≡ some text
      → saved_copy file old v ≡ some text
  saved_copy-text none v text p w = rw (p) w
  saved_copy-text (some old) v text p w = rw (p) (
      if_elim (λ (o : Option String). o ≡ some text) (str_eq old text)
        (λ same. ap some ((eq_iff old text).0 same)) (λ _. w))

module _ {𝓕 : Floats} {A C : Type 0} (𝓞 : Outside 𝓕) (𝓐 : Application 𝓕 A C)
    (file : CacheFile 𝓕.Number) (print : DooverError → String) (declared : Bool) where
  with_typed-ok :
      (r first : Runner 𝓕 A) (c : Result DooverError C) (typed : C)
      → with_typed 𝓞 𝓐 r c ≡ ok (typed, first)
      → (c ≡ ok typed) × (r ≡ first)
  with_typed-ok r first (ok t) typed h = (cc, cc)
  with_typed-ok r first (err e) typed h = cc

  boot-live :
      (agg v : Value 𝓕.Number) (cached : Option (Value 𝓕.Number)) (r : Runner 𝓕 A)
      → app_part 𝓞.app_key agg ≡ some v
      → boot 𝓞 𝓐 print declared (ok (some agg)) cached r
        ≡ load_typed 𝓞 𝓐 (apply_app_config v (write_config_cache 𝓞.keep v r))
  unfolding boot boot_config apply_deployment_config
  boot-live agg v cached r h = rw (h, h) refl

  boot-cached :
      (fetched : Result DooverError (Option (Value 𝓕.Number))) (v : Value 𝓕.Number) (r : Runner 𝓕 A)
      → has_app_config print 𝓞.app_key fetched ≡ false
      → boot 𝓞 𝓐 print declared fetched (some v) r ≡ load_typed 𝓞 𝓐 (apply_app_config v r)
  unfolding boot boot_config
  boot-cached fetched v r h = rw (h) refl

  -- An app that started on the configuration that the agent gave for it, and that keeps a copy, starts again with the
  -- same typed configuration, configuration, agent and name when the agent then has none for it, be it after an error
  -- or an aggregate without a part for the app, whether the file held that copy already or not. The file takes what
  -- is written, and the configuration prints as a text that reads back.
  pub boot_again :
      (agg v : Value 𝓕.Number) (text : String) (cached : Option (Value 𝓕.Number))
      (r first again : Runner 𝓕 A) (typed : C)
      (fetched : Result DooverError (Option (Value 𝓕.Number)))
      → 𝓞.keep ≡ some (saved_copy file)
      → file.to_string_pretty v ≡ some text
      → file.from_str text ≡ some v
      → file.replace r.config_cache text ≡ some text
      → app_part 𝓞.app_key agg ≡ some v
      → boot 𝓞 𝓐 print declared (ok (some agg)) cached r ≡ ok (typed, first)
      → has_app_config print 𝓞.app_key fetched ≡ false
      → (second : Runner 𝓕 A) × (boot 𝓞 𝓐 print declared fetched
            (read_config_cache file first.config_cache)
            again
          ≡ ok (typed, second))
        × (second.config ≡ first.config)
        × (second.agent_id ≡ first.agent_id)
        × (second.app_display_name ≡ first.app_display_name)
  unfolding apply_app_config
  boot_again agg v text cached r first again typed fetched keeps prints reads writes part started
        gone =
      let applied = apply_app_config v (write_config_cache 𝓞.keep v r) in
      let (loads, same) =
        with_typed-ok applied first (𝓐.from_value v) typed
          (sym (boot-live agg v cached r part) ∙ started) in
      let held : applied.config_cache ≡ some text =
        rw (keeps) (saved_copy-text file r.config_cache v text prints writes) in
      let read : read_config_cache file first.config_cache ≡ some v =
        ap (λ (x : Runner 𝓕 A). read_config_cache file x.config_cache) (sym same)
        ∙ ap (read_config_cache file) held
        ∙ reads in
      (
        apply_app_config v again,
        ap (λ c. boot 𝓞 𝓐 print declared fetched c again) read
            ∙ boot-cached fetched v again gone
            ∙ ap (with_typed 𝓞 𝓐 (apply_app_config v again)) loads,
        ap (λ (x : Runner 𝓕 A). x.config) same,
        ap (λ (x : Runner 𝓕 A). x.agent_id) same,
        ap (λ (x : Runner 𝓕 A). x.app_display_name) same,
      )
