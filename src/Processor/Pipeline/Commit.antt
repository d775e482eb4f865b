-- ===== src/Processor/Pipeline/Commit.antt =====
-- doover/src/processor/runner.rs and processor/tags.rs: the flush of the tags at the end of an invocation, and
-- how it meets the guard of the cloud client.
use doover_rs.Base.{◌≡◌, refl, ap, ◌∙◌, String, Bool, false, List, if_elim}
use doover_rs.Base.Int.{ℤ}
use doover_rs.Errors.{DooverError, Result, ok, err}
use doover_rs.Json.{Value}
use doover_rs.Cloud.{set_invoking_channel}
use doover_rs.Processor.Tags.{TagState, Request, commit_tags_with}
use doover_rs.Processor.Payloads.{EventPayload, invoking_channel, id_at, text_at}
use doover_rs.Processor.Invocation.{
  Hooks, Machine, Phase, Context, Live, DispatchEnd, next_phase, on_client, on_state, lift, ◌>>=◌,
  ◌>>◌,
}
use doover_rs.Processor.Setup.{Cloudlet, setup_context}
use doover_rs.Processor.Runner.{
  dispatch_invocation, process, commit_phase, user_close, backend_call, result_of, run_payload,
  run_token, is_ok, before_commit, pre_hook, event_data, set_ids, take_token, decode,
}

module _ {N : Type 0} where
  commit_tags_with-clean :
      (answer : Request N → Bool) (own_key : String) (record_log : Bool) (st : TagState N)
      → (commit_tags_with answer own_key record_log st).0.update_tags ≡ false
  unfolding commit_tags_with
  commit_tags_with-clean answer own_key record_log st =
      if_elim (λ (r : TagState N × List (Request N) × Bool). r.0.update_tags ≡ false) st.update_tags
        (λ _. refl) (λ e. e)

module _ {N P : Type 0} where
  -- No tag waits to be written.
  abbrev pub IsCommitted : {A : Type 0} → Machine N P × Result DispatchEnd A → Type 0
  IsCommitted (m, ok a) = m.live.tags.update_tags ≡ false
  IsCommitted (m, err e) = Unit

  next-IsCommitted :
      {A B : Type 0} (r : Machine N P × Result DispatchEnd A) (f : A → Phase N P B)
      → ((a : A) (m : Machine N P) → IsCommitted (f a m))
      → IsCommitted (next_phase r f)
  next-IsCommitted (m, ok a) f h = h a m
  next-IsCommitted (m, err e) f h = tt

  lift-IsCommitted :
      {A : Type 0} (print : ℤ → String) (r : Result DooverError A) (m : Machine N P)
      → m.live.tags.update_tags ≡ false
      → IsCommitted (lift print r m)
  lift-IsCommitted print (ok a) m h = h
  lift-IsCommitted print (err e) m h = tt

  module _ (hooks : Hooks N P) (𝓒 : Cloudlet N) where
    commit_phase-IsCommitted :
        (app_key : String) (m : Machine N P) → IsCommitted (commit_phase 𝓒 app_key m)
    unfolding commit_phase
    commit_phase-IsCommitted app_key m =
        let answer = λ (r : Request N). is_ok (backend_call 𝓒 m.live.client r).result in
        lift-IsCommitted 𝓒.print_int
          (result_of 𝓒 m.live.client (commit_tags_with answer app_key false m.live.tags).1) _
          (commit_tags_with-clean answer app_key false m.live.tags)

    module _
        (keeps : (ctx : Context N) (s : P × Live N) → (hooks.close ctx s).0.1.tags ≡ s.1.tags) where
      close-IsCommitted :
          (ctx : Context N) (r : Machine N P × Result DispatchEnd (Unit {0}))
          → IsCommitted r
          → IsCommitted (next_phase r (λ _. user_close hooks ctx))
      close-IsCommitted ctx (m, ok a) h =
          ap (λ t. t.update_tags) (keeps ctx (m.processor, m.live)) ∙ h
      close-IsCommitted ctx (m, err e) h = tt

      process-IsCommitted :
          (ctx : Context N) (payload : EventPayload N) (m : Machine N P)
          → IsCommitted (process hooks 𝓒 ctx payload m)
      unfolding process
      process-IsCommitted ctx payload m =
          close-IsCommitted ctx ((before_commit hooks ctx payload >> commit_phase 𝓒 ctx.app_key) m)
            (next-IsCommitted (before_commit hooks ctx payload m) (λ _. commit_phase 𝓒 ctx.app_key)
              (λ _ m'. commit_phase-IsCommitted ctx.app_key m'))

      run_payload-IsCommitted :
          (event : Value N) (token : String) (payload : EventPayload N) (m : Machine N P)
          → IsCommitted (run_payload hooks 𝓒 event token payload m)
      run_payload-IsCommitted event token payload m =
          let org = id_at 𝓒.readings (event_data event) "organisation_id" in
          let armed = on_client (set_invoking_channel (invoking_channel payload)) m in
          next-IsCommitted (pre_hook hooks payload armed)
            (λ _.
              setup_context 𝓒 (event_data event) token org >>= λ ctx. process hooks 𝓒 ctx payload)
            (λ _ m'.
              next-IsCommitted (setup_context 𝓒 (event_data event) token org m')
                (λ ctx. process hooks 𝓒 ctx payload) (λ ctx. process-IsCommitted ctx payload))

      -- When a dispatch ends well and the processor's `close` leaves the tags alone, no tag that was written
      -- waits to be sent.
      pub dispatch_invocation-IsCommitted :
          (event : Value N) (m : Machine N P) → IsCommitted (dispatch_invocation hooks 𝓒 event m)
      unfolding dispatch_invocation
      dispatch_invocation-IsCommitted event m =
          let found = on_state (set_ids 𝓒.readings (event_data event)) m in
          next-IsCommitted (take_token (text_at event "token") found) (run_token hooks 𝓒 event)
            (λ token m'.
              let named =
                on_state (λ st. record st { agent_id = id_at 𝓒.readings event "agent_id" }) m' in
              next-IsCommitted (decode hooks 𝓒 event named) (run_payload hooks 𝓒 event token)
                (run_payload-IsCommitted event token))
