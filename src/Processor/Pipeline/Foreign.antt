-- ===== src/Processor/Pipeline/Foreign.antt =====
-- doover/src/processor/runner.rs and processor/tags.rs: the flush of the tags of an invocation, where it meets
-- the guard of the cloud client.
use doover_rs.Base.{
  ◌≡◌, refl, ap, ◌∙◌, String, Bool, true, false, some, List, [], ◌∷◌, ◌++◌, str_eq, eq_iff,
  Bool-cases, inl, inr, arith,
}
use doover_rs.Errors.{DooverError, other, Result, err}
use doover_rs.Json.{Value, Map, object, end, entry, get, is_empty}
use doover_rs.Cloud.{refused, DataClient}
use doover_rs.Cloud.Calls.{
  has_other_key, check_invoking_channel, is_channel, update_channel_aggregate_http,
}
use doover_rs.Cloud.Backend.{update_channel_aggregate}
use doover_rs.Processor.Tags.{
  TagState, Request, update_aggregate, commit_tags_with, reset, aggregate_of,
}
use doover_rs.Processor.Invocation.{Machine, DispatchEnd, end_of, lift, with_sent}
use doover_rs.Processor.Setup.{Cloudlet}
use doover_rs.Processor.Runner.{commit_phase, requests_of, backend_call, result_of, is_ok}

-- The error of the guard.
abbrev pub foreign_write : DooverError
foreign_write =
    other "Cannot publish to tag_values outside the scope of this app without explicit enable."

module _ {N : Type 0} where
  get-has_other_key :
      (app_key : String) (root : Map N) (j : String) (w : Value N)
      → get j root ≡ some w
      → str_eq j app_key ≡ false
      → has_other_key (some app_key) root ≡ true
  unfolding get has_other_key
  get-has_other_key app_key end j w h d = cc
  get-has_other_key app_key (entry i v m) j w h d = elim (Bool-cases (str_eq i app_key)) [
    | inr e ↦ rw (e) refl
    | inl e ↦
        let apart : str_eq i j ≡ false =
          ground (arith, e, d, eq_iff i j, eq_iff i app_key, eq_iff j app_key) in
        rw (e) (get-has_other_key app_key m j w (rw (apart) at h) d)
  ]

  filled : (root : Map N) (j : String) (w : Value N) → get j root ≡ some w → is_empty root ≡ false
  unfolding get
  filled end j w h = cc
  filled (entry i v m) j w h = refl

  -- The guard turns down a value with another app's key.
  guard_refuses :
      (c : DataClient) (app_key : String) (root : Map N) (j : String) (w : Value N)
      → is_channel c.invoking_channel "tag_values" ≡ true
      → c.app_key ≡ some app_key
      → get j root ≡ some w
      → str_eq j app_key ≡ false
      → check_invoking_channel c "tag_values" (object root) ≡ err foreign_write
  unfolding check_invoking_channel
  guard_refuses c app_key root j w i a h d = rw (i, a, get-has_other_key app_key root j w h d) refl

  backend_refuses :
      (𝓒 : Cloudlet N) (c : DataClient) (v : Value N)
      → check_invoking_channel c "tag_values" v ≡ err foreign_write
      → backend_call 𝓒 c (update_aggregate v) ≡ refused foreign_write
  unfolding update_channel_aggregate update_channel_aggregate_http
  backend_refuses 𝓒 c v h = rw (h) refl

  whole_payload :
      (app_key : String) (st : TagState N) (root : Map N) (j : String) (w : Value N)
      → st.update_external_tags ≡ true
      → is_empty st.dirty ≡ false
      → st.tag_values ≡ object root
      → get j root ≡ some w
      → aggregate_of app_key st ≡ some (object root)
  whole_payload app_key st root j w x d t h = rw (d, x, t, filled root j w h) refl

  -- A refused aggregate write is the only request of a commit.
  refused_commit :
      (answer : Request N → Bool) (app_key : String) (st : TagState N) (v : Value N)
      → st.update_tags ≡ true
      → aggregate_of app_key st ≡ some v
      → answer (update_aggregate v) ≡ false
      → commit_tags_with answer app_key false st ≡ (reset st, update_aggregate v ∷ [], false)
  unfolding commit_tags_with
  refused_commit answer app_key st v u a n = rw (u, a, n) refl

module _ {N P : Type 0} (𝓒 : Cloudlet N) where
  -- What the phase makes of a commit.
  abbrev ended :
      Machine N P
      → TagState N × List (Request N) × Bool
      → Machine N P × Result DispatchEnd (Unit {0})
  ended m (tags, requests, fine) = lift 𝓒.print_int (result_of 𝓒 m.live.client requests) (
      with_sent (requests_of 𝓒 m.live.client requests)
        (record m { live = record m.live { tags = tags } }))

  -- In a run that an event of `tag_values` triggered, on a client that has the app's key, when tags wait to
  -- be written, other apps' tags count among them, and the tag values are an object with another app's
  -- key, the commit sends nothing, drops every tag that was written, and ends the run with an error.
  pub commit_phase-foreign :
      (app_key : String) (m : Machine N P) (root : Map N) (j : String) (w : Value N)
      → is_channel m.live.client.invoking_channel "tag_values" ≡ true
      → m.live.client.app_key ≡ some app_key
      → m.live.tags.update_tags ≡ true
      → m.live.tags.update_external_tags ≡ true
      → is_empty m.live.tags.dirty ≡ false
      → m.live.tags.tag_values ≡ object root
      → get j root ≡ some w
      → str_eq j app_key ≡ false
      → commit_phase {P = P} 𝓒 app_key m ≡ (
        record m { live = record m.live { tags = reset m.live.tags; sent = m.live.sent ++ [] } },
        err (end_of 𝓒.print_int foreign_write),
      )
  unfolding commit_phase
  commit_phase-foreign app_key m root j w i a u x d t h e =
      let c = m.live.client in
      let refusal = backend_refuses 𝓒 c (object root) (guard_refuses c app_key root j w i a h e) in
      let committed =
        refused_commit (λ r. is_ok (backend_call 𝓒 c r).result) app_key m.live.tags (object root) u
          (whole_payload app_key m.live.tags root j w x d t h) (ap (λ s. is_ok s.result) refusal) in
      ap (ended m) committed
      ∙ ap
          (λ s.
            lift 𝓒.print_int s.result (
              with_sent s.requests
                (record m { live = record m.live { tags = reset m.live.tags } })))
          refusal
