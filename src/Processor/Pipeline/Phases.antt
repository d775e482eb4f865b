-- ===== src/Processor/Pipeline/Phases.antt =====
-- doover/src/processor/runner.rs: the methods that each single phase of an invocation calls.
use doover_rs.Base.{refl, String, Option, none, some, List, [], ◌∷◌}
use doover_rs.Json.{Value}
use doover_rs.Cloud.{set_token}
use doover_rs.Processor.Payloads.{
  EventPayload, message_create, aggregate_update, alarm_trigger, deployment, schedule,
  ingestion_endpoint, manual_invoke, subscription_info_from,
}
use doover_rs.Processor.Invocation.{
  Hooks, Context, InvocationState, pre_hook_rejected, post_setup_rejected, on_client, lift,
}
use doover_rs.Processor.Setup.{
  Cloudlet, setup_context, info_from_source, resolve_info, present_at, apply_upgrade,
}
use doover_rs.Processor.Runner.{
  with_payload, commit_phase, user_setup, post_setup, handle, user_close, pre_hook, decode,
  result_of,
}
use doover_rs.Cloud.Calls.{fetch_schedule_info, fetch_subscription_info}
use doover_rs.Processor.Pipeline.{
  Call, pre_hook_call, setup_call, post_setup_call, handler_call, close_call, traced, calls_of,
  Calls, IsQuiet, rejected-Called, payload-IsQuiet, lift-IsQuiet, next-quiet,
}

module _ {N P : Type 0} where
  module _ (hooks : Hooks N P) (𝓒 : Cloudlet N) where
    source-IsQuiet :
        (subscription_id schedule_id : Option String)
        → IsQuiet (info_from_source {P = P × List Call} 𝓒 subscription_id schedule_id)
    source-IsQuiet none none m = refl
    source-IsQuiet none (some schedule_id) m =
        lift-IsQuiet 𝓒.print_int
          (fetch_schedule_info 𝓒.server 𝓒.readings m.live.client schedule_id).result _
    source-IsQuiet (some subscription_id) schedule_id m =
        lift-IsQuiet 𝓒.print_int
          (fetch_subscription_info 𝓒.server 𝓒.readings m.live.client subscription_id).result _

    resolve_info-IsQuiet :
        (upgrade : Option (Value N)) (st : InvocationState N)
        → IsQuiet (resolve_info {P = P × List Call} 𝓒 upgrade st)
    resolve_info-IsQuiet none st = source-IsQuiet st.subscription_id st.schedule_id
    resolve_info-IsQuiet (some upgrade) st =
        lift-IsQuiet 𝓒.print_int (subscription_info_from 𝓒.readings upgrade)

    pub setup_context-IsQuiet :
        (d : Value N) (token : String) (org : Option _)
        → IsQuiet (setup_context {P = P × List Call} 𝓒 d token org)
    unfolding setup_context
    setup_context-IsQuiet d token org m =
        next-quiet (calls_of m)
          (resolve_info 𝓒 (present_at d "upgrade") m.state (on_client (set_token token) m))
          (λ info. apply_upgrade 𝓒 info org)
          (resolve_info-IsQuiet (present_at d "upgrade") m.state (on_client (set_token token) m))
          (λ info m'. refl)

    pub commit_phase-IsQuiet :
        (app_key : String) → IsQuiet (commit_phase {P = P × List Call} 𝓒 app_key)
    unfolding commit_phase
    commit_phase-IsQuiet app_key m = lift-IsQuiet 𝓒.print_int (result_of 𝓒 m.live.client _) _

    pub decode-IsQuiet : (event : Value N) → IsQuiet (decode (traced hooks) 𝓒 event)
    decode-IsQuiet event m =
        next-quiet (calls_of m) (lift 𝓒.print_int _ m) with_payload (lift-IsQuiet 𝓒.print_int _ m)
          payload-IsQuiet

    pub handle-Calls :
        (ctx : Context N) (payload : EventPayload N)
        → Calls (handler_call ∷ []) (handler_call ∷ []) (handle (traced hooks) ctx payload)
    handle-Calls ctx (message_create e) m = refl
    handle-Calls ctx (aggregate_update e) m = refl
    handle-Calls ctx (alarm_trigger e) m = refl
    handle-Calls ctx (deployment e) m = refl
    handle-Calls ctx (schedule e) m = refl
    handle-Calls ctx (ingestion_endpoint e) m = refl
    handle-Calls ctx (manual_invoke e) m = refl

    pub pre_hook-Calls :
        (payload : EventPayload N)
        → Calls (pre_hook_call ∷ []) (pre_hook_call ∷ []) (pre_hook (traced hooks) payload)
    pre_hook-Calls payload m =
        rejected-Called (calls_of m) (pre_hook_call ∷ []) pre_hook_rejected
          (hooks.pre_hook_filter payload m.processor.0).1 _ refl

    pub post_setup-Calls :
        (ctx : Context N) (payload : EventPayload N)
        → Calls
            (post_setup_call ∷ [])
            (post_setup_call ∷ [])
            (post_setup (traced hooks) ctx payload)
    post_setup-Calls ctx payload m =
        rejected-Called (calls_of m) (post_setup_call ∷ []) post_setup_rejected
          (hooks.post_setup_filter ctx payload (m.processor.0, m.live)).1 _ refl

    pub user_setup-Calls :
        (ctx : Context N)
        → Calls (setup_call ∷ []) (setup_call ∷ []) (user_setup (traced hooks) ctx)
    user_setup-Calls ctx m = refl

    pub user_close-Calls :
        (ctx : Context N) → Calls [] (close_call ∷ []) (user_close (traced hooks) ctx)
    user_close-Calls ctx m = refl
