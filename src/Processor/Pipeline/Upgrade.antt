-- ===== src/Processor/Pipeline/Upgrade.antt =====
-- doover/src/processor/runner.rs, `setup_context`: the identity that a token upgrade leaves behind.
use doover_rs.Base.{ℕ, ◌≡◌, refl, ap, ◌∙◌, String, false, Option, none, some, or_else}
use doover_rs.Base.Int.{ℤ}
use doover_rs.Errors.{DooverError, Result, ok, err}
use doover_rs.Json.{Value}
use doover_rs.Cloud.{DataClient, set_token}
use doover_rs.Cloud.Calls.{fetch_schedule_info, fetch_subscription_info}
use doover_rs.Processor.Tags.{new}
use doover_rs.Processor.Payloads.{SubscriptionInfo, subscription_info_from}
use doover_rs.Processor.Invocation.{
  Machine, Context, InvocationState, DispatchEnd, next_phase, on_client, lift,
}
use doover_rs.Processor.Setup.{
  Cloudlet, setup_context, info_from_source, resolve_info, present_at, apply_upgrade,
  upgrade_client,
}

organisation-kept :
    {N : Type 0} (info : SubscriptionInfo N) (org : Option ℕ) (c : DataClient)
    → ((upgrade_client info org c).agent_id ≡ some info.agent_id)
      × ((upgrade_client info org c).app_key ≡ some info.app_key)
      × ((upgrade_client info org c).invoking_channel ≡ c.invoking_channel)
organisation-kept info none c = (refl, refl, refl)
organisation-kept info (some org) c = (refl, refl, refl)

module _ {N P : Type 0} where
  -- What holds after an upgrade that ends well, and after one that fails.
  abbrev pub IsUpgraded :
      Machine N P → String → Machine N P × Result DispatchEnd (Context N) → Type 0
  IsUpgraded m token (m', ok ctx) =
      (m'.live.client.agent_id ≡ some ctx.agent_id)
      × (m'.live.client.app_key ≡ some ctx.app_key)
      × (m'.state.agent_id ≡ some ctx.agent_id)
      × (m'.state.app_key ≡ some ctx.app_key)
      × (m'.state.app_id ≡ ctx.app_id)
      × (m'.state.proc_config ≡ ctx.proc_config)
      × (m'.live.client.invoking_channel ≡ m.live.client.invoking_channel)
      × (m'.live.tags.update_tags ≡ false)
      × (m'.processor ≡ m.processor)
  IsUpgraded m token (m', err e) =
      (m'.state ≡ m.state)
      × (m'.live.tags ≡ m.live.tags)
      × (m'.live.client ≡ set_token token m.live.client)
      × (m'.processor ≡ m.processor)

  -- What the search for the upgrade leaves: all but the requests sent.
  abbrev IsFound : Machine N P → Machine N P → Type 0
  IsFound m m' =
      (m'.state ≡ m.state)
      × (m'.live.tags ≡ m.live.tags)
      × (m'.live.client ≡ m.live.client)
      × (m'.processor ≡ m.processor)

  lift-IsFound :
      {A : Type 0} (m m' : Machine N P) (print : ℤ → String) (r : Result DooverError A)
      → IsFound m m'
      → IsFound m (lift print r m').0
  lift-IsFound m m' print (ok a) h = h
  lift-IsFound m m' print (err e) h = h

  module _ (𝓒 : Cloudlet N) where
    source-IsFound :
        (subscription_id schedule_id : Option String) (m : Machine N P)
        → IsFound m (info_from_source 𝓒 subscription_id schedule_id m).0
    source-IsFound none none m = (refl, refl, refl, refl)
    source-IsFound none (some schedule_id) m =
        lift-IsFound m _ 𝓒.print_int
          (fetch_schedule_info 𝓒.server 𝓒.readings m.live.client schedule_id).result
          (refl, refl, refl, refl)
    source-IsFound (some subscription_id) schedule_id m =
        lift-IsFound m _ 𝓒.print_int
          (fetch_subscription_info 𝓒.server 𝓒.readings m.live.client subscription_id).result
          (refl, refl, refl, refl)

    resolve_info-IsFound :
        (upgrade : Option (Value N)) (st : InvocationState N) (m : Machine N P)
        → IsFound m (resolve_info 𝓒 upgrade st m).0
    resolve_info-IsFound none st m = source-IsFound st.subscription_id st.schedule_id m
    resolve_info-IsFound (some upgrade) st m =
        lift-IsFound m m 𝓒.print_int (subscription_info_from 𝓒.readings upgrade)
          (refl, refl, refl, refl)

    next-IsUpgraded :
        (m m₀ : Machine N P) (token : String) (org : Option ℕ)
        (r : Machine N P × Result DispatchEnd (SubscriptionInfo N))
        → m₀ ≡ on_client (set_token token) m
        → IsFound m₀ r.0
        → IsUpgraded m token (next_phase r (λ info. apply_upgrade 𝓒 info org))
    unfolding new
    next-IsUpgraded m m₀ token org (m', ok info) e h =
        let k = organisation-kept info (or_else info.organisation_id org) m'.live.client in
        (
          k.0,
          k.1,
          refl,
          refl,
          refl,
          refl,
          k.2 ∙ ap (λ c. c.invoking_channel) h.2 ∙ ap (λ x. x.live.client.invoking_channel) e,
          refl,
          h.3 ∙ ap (λ x. x.processor) e,
        )
    next-IsUpgraded m m₀ token org (m', err d) e h = (
      h.0 ∙ ap (λ x. x.state) e,
      h.1 ∙ ap (λ x. x.live.tags) e,
      h.2 ∙ ap (λ x. x.live.client) e,
      h.3 ∙ ap (λ x. x.processor) e,
    )

    -- However an upgrade ends: when it succeeds, the client, the bookkeeping and the context agree on the
    -- agent, the app's key and its configuration, no tag waits to be written, and the channel that triggered
    -- the run is guarded as before; when it fails, the bookkeeping and the tags are as they were, and the
    -- client has got only the initial token.
    pub setup_context-IsUpgraded :
        (d : Value N) (token : String) (org : Option ℕ) (m : Machine N P)
        → IsUpgraded m token (setup_context 𝓒 d token org m)
    unfolding setup_context
    setup_context-IsUpgraded d token org m =
        let m₀ = on_client (set_token token) m in
        next-IsUpgraded m m₀ token org (resolve_info 𝓒 (present_at d "upgrade") m.state m₀) refl
          (resolve_info-IsFound (present_at d "upgrade") m.state m₀)
