-- ===== src/Processor/Pipeline.antt =====
-- doover/src/processor/runner.rs: a processor that notes the calls of its methods, and the rules for the calls of
-- phases one after another.
pub mod Phases
pub mod Order
pub mod Upgrade
pub mod Commit
pub mod Foreign
use doover_rs.Base.{
  ◌≡◌, refl, ap, ◌∙◌, sym, String, Bool, true, false, Option, none, some, List, [], ◌∷◌, ◌++◌, not,
}
use mathlib.Core.List.{append_assoc, append-nil}
use doover_rs.Base.Int.{ℤ}
use doover_rs.Errors.{DooverError, Result, ok, err}
use doover_rs.Json.{Value}
use doover_rs.Cloud.{set_token, set_invoking_channel}
use doover_rs.Processor.Payloads.{
  EventPayload, message_create, aggregate_update, alarm_trigger, deployment, schedule,
  ingestion_endpoint, manual_invoke, invoking_channel, id_at, text_at, SubscriptionInfo,
  subscription_info_from,
}
use doover_rs.Processor.Invocation.{
  Hooks, Handler, Machine, Phase, Context, InvocationState, Live, Handled, done, not_implemented,
  SkipReason, DispatchEnd, pre_hook_rejected, post_setup_rejected, tag_values_self_loop, on_client,
  modify, give, end_with, lift, call, ◌>>=◌, ◌>>◌, next_phase,
}
use doover_rs.Processor.Setup.{
  Cloudlet, setup_context, info_from_source, resolve_info, present_at, apply_upgrade,
}
use doover_rs.Processor.Runner.{
  dispatch_invocation, process, unless_rejected, unless_unhandled, with_payload, take_token,
  commit_phase, user_setup, post_setup, handle, user_close, pre_hook, decode, dispatch_handler,
  is_deployment, is_tag_values_self_loop, result_of,
}
use doover_rs.Cloud.Calls.{fetch_schedule_info, fetch_subscription_info}

-- The methods that a run calls.
pub data Call : Type 0 where
  pre_hook_call setup_call post_setup_call handler_call close_call : Call

-- The calls of a run in their order, without the last one.
abbrev pub until_close : List Call
until_close = pre_hook_call ∷ setup_call ∷ post_setup_call ∷ handler_call ∷ []

module _ {N P : Type 0} where
  -- A method that also notes its call.
  abbrev pub noted :
      {R : Type 0}
      → Call
      → (P × Live N → (P × Live N) × R)
      → (P × List Call) × Live N
      → ((P × List Call) × Live N) × R
  noted c f ((p, calls), live) =
      let ((p', live'), r) = f (p, live) in (((p', calls ++ c ∷ []), live'), r)

  -- A processor that notes the calls of its methods.
  abbrev pub traced : Hooks N P → Hooks N (P × List Call)
  traced hooks = record {
    pre_hook_filter = λ payload s.
        let (p, fine) = hooks.pre_hook_filter payload s.0 in ((p, s.1 ++ pre_hook_call ∷ []), fine);
    setup = λ ctx s. noted setup_call (hooks.setup ctx) s;
    post_setup_filter =
        λ ctx payload s. noted post_setup_call (hooks.post_setup_filter ctx payload) s;
    close = λ ctx s. noted close_call (hooks.close ctx) s;
    on_message_create = λ ctx e s. noted handler_call (hooks.on_message_create ctx e) s;
    on_aggregate_update = λ ctx e s. noted handler_call (hooks.on_aggregate_update ctx e) s;
    on_alarm_trigger = λ ctx e s. noted handler_call (hooks.on_alarm_trigger ctx e) s;
    on_deployment = λ ctx e s. noted handler_call (hooks.on_deployment ctx e) s;
    on_schedule = λ ctx e s. noted handler_call (hooks.on_schedule ctx e) s;
    on_ingestion_endpoint = λ ctx e s. noted handler_call (hooks.on_ingestion_endpoint ctx e) s;
    on_manual_invoke = λ ctx e s. noted handler_call (hooks.on_manual_invoke ctx e) s;
    parse_ingestion_payload = λ s. hooks.parse_ingestion_payload s.0;
  }

  abbrev pub calls_of : Machine N (P × List Call) → List Call
  calls_of m = m.processor.1

  -- The calls of a phase that began after some: all of `ds` when it goes on, the first of `cs` when it ends
  -- the run.
  abbrev pub Called :
      {A : Type 0}
      → List Call
      → List Call
      → List Call
      → Machine N (P × List Call) × Result DispatchEnd A
      → Type 0
  Called before cs ds (m, ok a) = calls_of m ≡ before ++ ds
  Called before cs ds (m, err e) =
      (xs : List Call) × (ys : List Call) × (xs ++ ys ≡ cs) × (calls_of m ≡ before ++ xs)

  abbrev pub Calls : {A : Type 0} → List Call → List Call → Phase N (P × List Call) A → Type 0
  Calls cs ds q = (m : Machine N (P × List Call)) → Called (calls_of m) cs ds (q m)

  Called-shift :
      {A : Type 0} (before b cs ds es : List Call)
      (r : Machine N (P × List Call) × Result DispatchEnd A)
      → b ≡ before ++ cs
      → Called b ds es r
      → Called before (cs ++ ds) (cs ++ es) r
  Called-shift before b cs ds es (m, ok a) e h = h ∙ ap (λ l. l ++ es) e ∙ append_assoc before cs es
  Called-shift before b cs ds es (m, err d) e h = (
    cs ++ h.0,
    h.1,
    append_assoc cs h.0 h.1 ∙ ap (λ l. cs ++ l) h.2,
    h.3 ∙ ap (λ l. l ++ h.0) e ∙ append_assoc before cs h.0,
  )

  pub Called-next :
      {A B : Type 0} (before cs ds es : List Call)
      (r : Machine N (P × List Call) × Result DispatchEnd A) (f : A → Phase N (P × List Call) B)
      → Called before cs cs r
      → ((a : A) → Calls ds es (f a))
      → Called before (cs ++ ds) (cs ++ es) (next_phase r f)
  Called-next before cs ds es (m, err e) f h k =
      (h.0, h.1 ++ ds, sym (append_assoc h.0 h.1 ds) ∙ ap (λ l. l ++ ds) h.2, h.3)
  Called-next before cs ds es (m, ok a) f h k =
      Called-shift before (calls_of m) cs ds es (f a m) h (k a m)

  -- A phase and then others.
  pub >>=-Calls :
      {A B : Type 0} (cs ds es : List Call) (q : Phase N (P × List Call) A)
      (f : A → Phase N (P × List Call) B)
      → Calls cs cs q
      → ((a : A) → Calls ds es (f a))
      → Calls (cs ++ ds) (cs ++ es) (q >>= f)
  >>=-Calls cs ds es q f h k m = Called-next (calls_of m) cs ds es (q m) f (h m) k

  pub >>-Calls :
      {B : Type 0} (cs ds es : List Call) (q : Phase N (P × List Call) (Unit {0}))
      (q' : Phase N (P × List Call) B)
      → Calls cs cs q
      → Calls ds es q'
      → Calls (cs ++ ds) (cs ++ es) (q >> q')
  >>-Calls cs ds es q q' h k = >>=-Calls cs ds es q (λ _. q') h (λ _. k)

  -- A phase that calls no method.
  abbrev pub IsQuiet : {A : Type 0} → Phase N (P × List Call) A → Type 0
  IsQuiet q = (m : Machine N (P × List Call)) → calls_of (q m).0 ≡ calls_of m

  quiet-Called :
      {A : Type 0} (before : List Call) (r : Machine N (P × List Call) × Result DispatchEnd A)
      → calls_of r.0 ≡ before
      → Called before [] [] r
  quiet-Called before (m, ok a) h = h ∙ sym (append-nil before)
  quiet-Called before (m, err e) h = ([], [], refl, h ∙ sym (append-nil before))

  pub quiet-Calls : {A : Type 0} (q : Phase N (P × List Call) A) → IsQuiet q → Calls [] [] q
  quiet-Calls q h m = quiet-Called (calls_of m) (q m) (h m)

  pub rejected-Called :
      (before cs : List Call) (reason : SkipReason) (fine : Bool) (m : Machine N (P × List Call))
      → calls_of m ≡ before ++ cs
      → Called before cs cs (unless_rejected reason fine m)
  rejected-Called before cs reason true m h = h
  rejected-Called before cs reason false m h = (cs, [], append-nil cs, h)

  pub unhandled-IsQuiet :
      (goes_on : Bool) (h : Handled)
      → IsQuiet (unless_unhandled {N = N} {P = P × List Call} goes_on h)
  unhandled-IsQuiet true h m = refl
  unhandled-IsQuiet false done m = refl
  unhandled-IsQuiet false not_implemented m = refl

  pub payload-IsQuiet :
      (payload : Option (EventPayload N)) → IsQuiet (with_payload {P = P × List Call} payload)
  payload-IsQuiet none m = refl
  payload-IsQuiet (some payload) m = refl

  pub token-IsQuiet :
      (token : Option String) → IsQuiet (take_token {N = N} {P = P × List Call} token)
  token-IsQuiet none m = refl
  token-IsQuiet (some token) m = refl

  pub lift-IsQuiet :
      {A : Type 0} (print : ℤ → String) (r : Result DooverError A)
      → IsQuiet (lift {N = N} {P = P × List Call} print r)
  lift-IsQuiet print (ok a) m = refl
  lift-IsQuiet print (err e) m = refl

  pub next-quiet :
      {A B : Type 0} (before : List Call) (r : Machine N (P × List Call) × Result DispatchEnd A)
      (f : A → Phase N (P × List Call) B)
      → calls_of r.0 ≡ before
      → ((a : A) → IsQuiet (f a))
      → calls_of (next_phase r f).0 ≡ before
  next-quiet before (m, ok a) f h k = k a m ∙ h
  next-quiet before (m, err e) f h k = h
