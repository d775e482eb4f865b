-- ===== src/Processor/Context/Pings.antt =====
-- doover/src/processor/application.rs, `ping_connection`: what a ping makes of the connection's configuration.
use doover_rs.Base.{
  ℕ, ◌-◌, ◌/◌, ◌≡◌, refl, ap, ◌∙◌, true, false, Option, none, some, ◌==◌, unwrap_or, Bool-cases,
  inl, inr, arith,
}
use doover_rs.Errors.{DooverError, Result, ok, err}
use doover_rs.Json.{
  Value, Map, null, bool, string, array, number, object, get, is_empty, get-insert,
}
use doover_rs.Processor.Payloads.{Readings}
use doover_rs.Processor.Invocation.{Context, Live}
use doover_rs.Processor.Setup.{Cloudlet}
use doover_rs.Processor.Context.{
  PingOptions, determination_of, is_stored, stored_after, offline_after, updated_config, if_given,
  and_then_call, save_config, ping, ping_connection,
}

is_stored-some : (o : Option ℕ) (secs : ℕ) → is_stored o secs ≡ true → o ≡ some secs
is_stored-some none secs h = cc
is_stored-some (some n) secs h = let same : n ≡ secs = ground (arith, h) in ap some same

module _ {N : Type 0} where
  -- What a later ping reads of a configuration that a ping has kept.
  updated-stored :
      (𝓝 : Readings N) (secs : ℕ) (m : Map N)
      → ((n : ℕ) → 𝓝.number_u64 (𝓝.of_u64 n) ≡ some n)
      → is_empty m ≡ false
      → stored_after 𝓝 (unwrap_or (updated_config 𝓝 secs (object m)) (object m)) ≡ some secs
  unfolding get
  updated-stored 𝓝 secs m reads some_entry =
      elim (Bool-cases (is_stored (stored_after 𝓝 (object m)) secs)) [
        | inl e ↦ rw (some_entry, e) (is_stored-some (stored_after 𝓝 (object m)) secs e)
        | inr e ↦
            rw
              (some_entry, e, get-insert "offline_after" "offline_after" (number (𝓝.of_u64 secs)) m)
              (reads secs)
      ]

  stored-unwritten :
      (𝓝 : Readings N) (secs : ℕ) (config : Value N)
      → stored_after 𝓝 config ≡ some secs
      → updated_config 𝓝 secs config ≡ none
  stored-unwritten 𝓝 secs (object m) h =
      let same : (secs == secs) ≡ true = ground arith in
      elim (Bool-cases (is_empty m)) [ inl e ↦ rw (e) refl | inr e ↦ rw (e, h, same) refl ]
  stored-unwritten 𝓝 secs (array vs) h = refl
  stored-unwritten 𝓝 secs (string s) h = refl
  stored-unwritten 𝓝 secs (number n) h = refl
  stored-unwritten 𝓝 secs (bool b) h = refl
  stored-unwritten 𝓝 secs null h = refl

  and_then_call-config :
      {A B : Type 0} (r : Live N × Result DooverError A)
      (f : Live N → Live N × Result DooverError B)
      → ((live : Live N) → (f live).0.connection_config ≡ live.connection_config)
      → (and_then_call r f).0.connection_config ≡ r.0.connection_config
  and_then_call-config (live, ok a) f h = h live
  and_then_call-config (live, err e) f h = refl

  module _ (𝓒 : Cloudlet N) (ctx : Context N) where
    open 𝓒 use {readings}

    save_config-config :
        (config : Option (Value N)) (live : Live N)
        → (save_config 𝓒 ctx config live).0.connection_config
          ≡ unwrap_or config live.connection_config
    save_config-config none live = refl
    save_config-config (some config) live = refl

    ping_connection-config :
        (now later : ℕ) (opts : PingOptions) (live : Live N)
        → (ping_connection 𝓒 ctx now later opts live).0.connection_config
          ≡ unwrap_or
              (if_given opts.offline_at_ms (
                updated_config readings
                  (offline_after readings
                    (unwrap_or opts.online_at_ms now)
                    opts.offline_at_ms
                    live.connection_config)
                  live.connection_config))
              live.connection_config
    unfolding ping_connection
    ping_connection-config now later opts live =
        let online_at = unwrap_or opts.online_at_ms now in
        let secs = offline_after readings online_at opts.offline_at_ms live.connection_config in
        let config =
          if_given opts.offline_at_ms (updated_config readings secs live.connection_config) in
        and_then_call-config (save_config 𝓒 ctx config live)
          (ping 𝓒 ctx later online_at opts (determination_of now online_at secs)) (λ l. refl)
        ∙ save_config-config config live

    -- After a ping with a deadline, on a connection whose configuration is an object with an entry, the configuration
    -- of the run says the time from the contact to the deadline, in seconds, whatever the server answered; so a later
    -- ping with the same time does not write it again, even if the write failed. A number prints and reads back.
    pub ping_connection-stored :
        (now later : ℕ) (opts : PingOptions) (live : Live N) (offline_at : ℕ) (m : Map N)
        → ((n : ℕ) → readings.number_u64 (readings.of_u64 n) ≡ some n)
        → opts.offline_at_ms ≡ some offline_at
        → live.connection_config ≡ object m
        → is_empty m ≡ false
        → (stored_after readings (ping_connection 𝓒 ctx now later opts live).0.connection_config
            ≡ some ((offline_at - unwrap_or opts.online_at_ms now) / 1000))
          × (updated_config readings
                ((offline_at - unwrap_or opts.online_at_ms now) / 1000)
                (ping_connection 𝓒 ctx now later opts live).0.connection_config
              ≡ none)
    ping_connection-stored now later opts live offline_at m reads given_at config some_entry =
        let secs = (offline_at - unwrap_or opts.online_at_ms now) / 1000 in
        let stored : stored_after readings
              (ping_connection 𝓒 ctx now later opts live).0.connection_config
            ≡ some secs =
          rw (ping_connection-config now later opts live, given_at, config)
            (updated-stored readings secs m reads some_entry) in
        (stored, stored-unwritten readings secs _ stored)
