-- ===== src/Rpc/Replies.antt =====
-- doover/src/rpc.rs: what the caller of a command makes of what its handler wrote.
use doover_rs.Base.{ℕ, ◌≡◌, refl, String, Option, none, some, inl, inr, ap, ◌⊎◌, ◌==◌}
use doover_rs.Base.Int.{ℤ}
use doover_rs.Base.Table.{find}
use doover_rs.Json.{Value, Map, object, at, get}
use doover_rs.Events.{Event, message_data}
use doover_rs.Rpc.{
  Readers, Outcome, ok, err, RpcContext, Update, Report, written, silent, refused, progress,
  status_is_cancelled, with_text, progress_fields, status_payload, report_with, progress_payload,
}
use doover_rs.Rpc.Manager.{RpcState, end_call}
use doover_rs.Rpc.Serve.{id_of, result_payload}
use doover_rs.Rpc.Resolve.{handle_response}

none≢some : {A : Type 0} {a : A} {B : Type 0} → none ≡ some a → B
none≢some h = cc

module _ (𝓡 : Readers) (own_key : Option String) (now : ℤ) where
  open 𝓡 use {Number}

  -- The update of a call's message: its status and its response are those of a written payload.
  pub record Carries (e : Event Number) (id : ℕ) (payload : Value Number) : Type 0 where
    pub body : Value Number
    pub has_body : message_data e ≡ some body
    pub has_id : id_of 𝓡 own_key now e ≡ some id
    pub same_status : at body "status" ≡ at payload "status"
    pub same_response : at body "response" ≡ at payload "response"

  -- The caller of a command gets exactly what the handler returned: when a call waits for a message,
  -- the update that carries the result written for an outcome ends the wait with that outcome.
  pub handle_response-result_payload :
      (e : Event Number) (id sender : ℕ) (outcome : Outcome Number) (st : RpcState Number)
      → Carries e id (result_payload 𝓡 own_key now outcome)
      → find (λ a b. a == b) id st.pending ≡ some sender
      → handle_response 𝓡 own_key now e st ≡ (end_call id st, some (sender, outcome))
  unfolding handle_response status_is_cancelled get
  handle_response-result_payload e id sender (ok response) st c waits =
      rw (c.has_body, c.same_status, c.has_id, c.same_response, waits) refl
  handle_response-result_payload e id sender (err error) st c waits =
      rw (c.has_body, c.same_status, c.has_id, waits) refl

  -- A status that a running handler can write.
  abbrev pub IsInterim : Value Number → Type 0
  IsInterim payload =
      (message : Value Number) × ((payload ≡ status_payload "pending" message)
        ⊎ ((payload ≡ status_payload "acknowledged" message)
            ⊎ (payload ≡ status_payload "deferred" message)))

  interim_quiet :
      (e : Event Number) (id : ℕ) (payload : Value Number) (st : RpcState Number)
      → IsInterim payload
      → Carries e id payload
      → handle_response 𝓡 own_key now e st ≡ (st, none)
  unfolding handle_response status_is_cancelled get
  interim_quiet e id payload st (m, inl p) c = rw (c.has_body, c.same_status, p, c.has_id) refl
  interim_quiet e id payload st (m, inr (inl p)) c =
      rw (c.has_body, c.same_status, p, c.has_id) refl
  interim_quiet e id payload st (m, inr (inr p)) c =
      rw (c.has_body, c.same_status, p, c.has_id) refl

  abbrev payload_of : Option (Value Number) → Report 𝓡 → Option (Value Number)
  payload_of p (written u) = some u.payload
  payload_of p silent = p
  payload_of p refused = p

  progress-IsInterim :
      (text : Option String) (m : Option (Map Number)) (payload : Value Number)
      → progress_payload 𝓡 text m ≡ some payload
      → IsInterim payload
  progress-IsInterim text none payload h = none≢some h
  progress-IsInterim text (some m) payload h = (object (with_text 𝓡 text m), inl cc)

  written_payload :
      (channel : String) (mid : Option ℕ) (cancelled : Option (Value Number))
      (p : Option (Value Number)) (u : Update Number)
      → report_with 𝓡 channel mid cancelled p ≡ written u
      → p ≡ some u.payload
  written_payload channel none cancelled p u h = cc
  written_payload channel (some id) (some body) p u h = cc
  written_payload channel (some id) none none u h = cc
  written_payload channel (some id) none (some v) u h = ap (payload_of (some v)) h

  -- A report of progress of a running handler leaves the caller waiting: the update that carries
  -- what it wrote changes nothing in the caller's state.
  pub handle_response-progress :
      (e : Event Number) (id : ℕ) (u : Update Number) (st : RpcState Number)
      (ctx : RpcContext Number) (cancelled : Option (Value Number)) (text : Option String)
      (fields : Value Number)
      → progress 𝓡 ctx cancelled text fields ≡ written u
      → Carries e id u.payload
      → handle_response 𝓡 own_key now e st ≡ (st, none)
  unfolding progress
  handle_response-progress e id u st ctx cancelled text fields w c =
      interim_quiet e id u.payload st
        (progress-IsInterim text (progress_fields 𝓡 fields) u.payload
          (written_payload ctx.channel ctx.message_id cancelled _ u w))
        c
