-- ===== src/Processor/Pipeline/Order.antt =====
-- doover/src/processor/runner.rs, `dispatch_invocation`: the order in which the methods of a processor run.
use doover_rs.Base.{refl, sym, String, List, [], ◌∷◌, ◌++◌, not}
use mathlib.Core.List.{append-nil}
use doover_rs.Json.{Value}
use doover_rs.Cloud.{set_invoking_channel}
use doover_rs.Processor.Payloads.{EventPayload, invoking_channel, id_at, text_at}
use doover_rs.Processor.Invocation.{
  Hooks, Machine, Phase, Context, tag_values_self_loop, on_client, on_state, modify, ◌>>=◌, ◌>>◌,
}
use doover_rs.Processor.Setup.{Cloudlet, setup_context}
use doover_rs.Processor.Runner.{
  dispatch_invocation, process, unless_rejected, unless_unhandled, take_token, commit_phase,
  user_setup, post_setup, handle, user_close, pre_hook, decode, is_deployment,
  is_tag_values_self_loop, run_payload, run_token, event_data, set_ids,
}
use doover_rs.Processor.Pipeline.{
  Call, pre_hook_call, setup_call, post_setup_call, handler_call, close_call, until_close, traced,
  calls_of, Called, Calls, >>=-Calls, >>-Calls, quiet-Calls, rejected-Called, unhandled-IsQuiet,
  token-IsQuiet,
}
use doover_rs.Processor.Pipeline.Phases.{
  setup_context-IsQuiet, commit_phase-IsQuiet, decode-IsQuiet, handle-Calls, pre_hook-Calls,
  post_setup-Calls, user_setup-Calls, user_close-Calls,
}

module _ {N P : Type 0} where
  module _ (hooks : Hooks N P) (𝓒 : Cloudlet N) where
    loop-Calls :
        (ctx : Context N) (payload : EventPayload N)
        → Calls [] [] (
            unless_rejected {N = N} {P = P × List Call} tag_values_self_loop
              (not (is_tag_values_self_loop payload ctx.app_key)))
    loop-Calls ctx payload m =
        rejected-Called (calls_of m) [] tag_values_self_loop
          (not (is_tag_values_self_loop payload ctx.app_key)) m (sym (append-nil (calls_of m)))

    handled-Calls :
        (ctx : Context N) (payload : EventPayload N)
        → Calls
            (handler_call ∷ [])
            (handler_call ∷ [])
            (handle (traced hooks) ctx payload >>= unless_unhandled (is_deployment payload))
    handled-Calls ctx payload =
        >>=-Calls (handler_call ∷ []) [] [] (handle (traced hooks) ctx payload)
          (unless_unhandled (is_deployment payload)) (handle-Calls hooks 𝓒 ctx payload)
          (λ h.
            quiet-Calls (unless_unhandled (is_deployment payload) h)
              (unhandled-IsQuiet (is_deployment payload) h))

    -- The phases of a context up to the commit.
    process-Calls :
        (ctx : Context N) (payload : EventPayload N)
        → Calls
            (setup_call ∷ post_setup_call ∷ handler_call ∷ [])
            (setup_call ∷ post_setup_call ∷ handler_call ∷ close_call ∷ [])
            (process (traced hooks) 𝓒 ctx payload)
    unfolding process
    process-Calls ctx payload =
        let looped : Phase N (P × List Call) _ =
          unless_rejected tag_values_self_loop
            (not (is_tag_values_self_loop payload ctx.app_key)) in
        let set_up = looped >> user_setup (traced hooks) ctx in
        let filtered = set_up >> post_setup (traced hooks) ctx payload in
        let handled =
          filtered
          >> (handle (traced hooks) ctx payload >>= unless_unhandled (is_deployment payload)) in
        let committed = handled >> commit_phase 𝓒 ctx.app_key in
        >>-Calls (setup_call ∷ post_setup_call ∷ handler_call ∷ []) [] (close_call ∷ []) committed
          (user_close (traced hooks) ctx)
          (>>-Calls (setup_call ∷ post_setup_call ∷ handler_call ∷ []) [] [] handled
            (commit_phase 𝓒 ctx.app_key)
            (>>-Calls (setup_call ∷ post_setup_call ∷ []) (handler_call ∷ []) (handler_call ∷ [])
              filtered
              (handle (traced hooks) ctx payload >>= unless_unhandled (is_deployment payload))
              (>>-Calls (setup_call ∷ []) (post_setup_call ∷ []) (post_setup_call ∷ []) set_up
                (post_setup (traced hooks) ctx payload)
                (>>-Calls [] (setup_call ∷ []) (setup_call ∷ []) looped
                  (user_setup (traced hooks) ctx) (loop-Calls ctx payload)
                  (user_setup-Calls hooks 𝓒 ctx))
                (post_setup-Calls hooks 𝓒 ctx payload))
              (handled-Calls ctx payload))
            (quiet-Calls (commit_phase 𝓒 ctx.app_key) (commit_phase-IsQuiet hooks 𝓒 ctx.app_key)))
          (user_close-Calls hooks 𝓒 ctx)

    payload-Calls :
        (event : Value N) (token : String) (payload : EventPayload N)
        → Calls until_close
            (until_close ++ close_call ∷ [])
            (run_payload (traced hooks) 𝓒 event token payload)
    payload-Calls event token payload =
        let armed : Phase N (P × List Call) (Unit {0}) =
          modify (on_client (set_invoking_channel (invoking_channel payload))) in
        let setup =
          setup_context {P = P × List Call} 𝓒 (event_data event) token
            (id_at 𝓒.readings (event_data event) "organisation_id") in
        >>-Calls (pre_hook_call ∷ []) (setup_call ∷ post_setup_call ∷ handler_call ∷ [])
          (setup_call ∷ post_setup_call ∷ handler_call ∷ close_call ∷ [])
          (armed >> pre_hook (traced hooks) payload)
          (setup >>= λ ctx. process (traced hooks) 𝓒 ctx payload)
          (>>-Calls [] (pre_hook_call ∷ []) (pre_hook_call ∷ []) armed
            (pre_hook (traced hooks) payload) (quiet-Calls armed (λ m. refl))
            (pre_hook-Calls hooks 𝓒 payload))
          (>>=-Calls [] (setup_call ∷ post_setup_call ∷ handler_call ∷ [])
            (setup_call ∷ post_setup_call ∷ handler_call ∷ close_call ∷ []) setup
            (λ ctx. process (traced hooks) 𝓒 ctx payload)
            (quiet-Calls setup (
              setup_context-IsQuiet hooks 𝓒 (event_data event) token
                (id_at 𝓒.readings (event_data event) "organisation_id")))
            (λ ctx. process-Calls ctx payload))

    token-Calls :
        (event : Value N) (token : String)
        → Calls until_close
            (until_close ++ close_call ∷ [])
            (run_token (traced hooks) 𝓒 event token)
    token-Calls event token =
        let named : Phase N (P × List Call) (Unit {0}) =
          modify (on_state (λ st. record st { agent_id = id_at 𝓒.readings event "agent_id" })) in
        >>-Calls [] until_close (until_close ++ close_call ∷ []) named
          (decode (traced hooks) 𝓒 event >>= run_payload (traced hooks) 𝓒 event token)
          (quiet-Calls named (λ m. refl))
          (>>=-Calls [] until_close (until_close ++ close_call ∷ []) (decode (traced hooks) 𝓒 event)
            (run_payload (traced hooks) 𝓒 event token)
            (quiet-Calls (decode (traced hooks) 𝓒 event) (decode-IsQuiet hooks 𝓒 event))
            (payload-Calls event token))

    -- The methods of a processor run in the order pre-hook filter, setup, post-setup filter, event handler,
    -- close, each at most once. All of them run when the dispatch ends well; when it is skipped or fails,
    -- the first few of those before `close` do, and `close` does not.
    pub dispatch_invocation-Called :
        (event : Value N) (m : Machine N (P × List Call))
        → Called
            (calls_of m)
            until_close
            (until_close ++ close_call ∷ [])
            (dispatch_invocation (traced hooks) 𝓒 event m)
    unfolding dispatch_invocation
    dispatch_invocation-Called event =
        let found : Phase N (P × List Call) (Unit {0}) =
          modify (on_state (set_ids 𝓒.readings (event_data event))) in
        >>-Calls [] until_close (until_close ++ close_call ∷ []) found
          (take_token (text_at event "token") >>= run_token (traced hooks) 𝓒 event)
          (quiet-Calls found (λ m. refl))
          (>>=-Calls [] until_close (until_close ++ close_call ∷ [])
            (take_token (text_at event "token")) (run_token (traced hooks) 𝓒 event)
            (quiet-Calls (take_token (text_at event "token"))
              (token-IsQuiet (text_at event "token")))
            (token-Calls event))
