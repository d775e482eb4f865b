-- ===== src/Rpc/Dispatched.antt =====
-- doover/src/rpc.rs: which requests reach a handler, and what is left of them afterwards.
use doover_rs.Base.{
  ◌⊎◌, ℕ, ◌≡◌, refl, String, Bool, true, false, Option, none, some, Bool-cases, inl, inr, str_eq,
  ◌==◌, and_then, or_else, unwrap_or, if◌then◌else◌, eq_iff,
}
use doover_rs.Base.Int.{ℤ}
use doover_rs.Base.Table.{find, find-drop}
use doover_rs.Json.{Value, Map, string, object, entry, end, at, get, get-insert}
use doover_rs.Events.{Event, message_data}
use doover_rs.Rpc.{Readers, Outcome, RpcContext, command_is_cancelled, as_str, status_is_cancelled}
use doover_rs.Rpc.Manager.{RpcState, option_str_eq}
use doover_rs.Rpc.Calls.{CallOptions, request_fields, request_payload, insert_some, string_of}
use doover_rs.Rpc.Serve.{
  id_of, accepted, unless_stale, begin_request, finish_request, expired, meant_for_us,
}

or_else-none : {A : Type 0} (o : Option A) → or_else o none ≡ o
or_else-none none = refl
or_else-none (some a) = refl

module _ {N : Type 0} where
  get-insert_some :
      (k j : String) (o : Option (Value N)) (m : Map N)
      → get j (insert_some k o m) ≡ (if str_eq k j then or_else o (get j m) else get j m)
  get-insert_some k j none m = elim (Bool-cases (str_eq k j)) [
    | inl e ↦ rw (e) refl
    | inr e ↦ rw (e) refl
  ]
  get-insert_some k j (some v) m = elim (Bool-cases (str_eq k j)) [
    | inl e ↦ rw (get-insert k j v m, e) refl
    | inr e ↦ rw (get-insert k j v m, e) refl
  ]

  request_type :
      (of_i64 : ℤ → N) (o : CallOptions N) (method : String) (params : Option (Value N))
      → get "type" (request_fields of_i64 o method params) ≡ some (string "rpc")
  unfolding request_fields
  request_type of_i64 o method params = simp (get-insert_some, get-insert)

  request_fields_lem :
      (of_i64 : ℤ → N) (o : CallOptions N) (method : String) (params : Option (Value N))
      → (get "method" (request_fields of_i64 o method params) ≡ some (string method))
        × (get "request" (request_fields of_i64 o method params)
            ≡ some (unwrap_or params (object end)))
        × (get "status" (request_fields of_i64 o method params)
            ≡ some (object (entry "code" (string "sent") end)))
        × (get "app_key" (request_fields of_i64 o method params) ≡ string_of o.app_key)
  unfolding request_fields get
  request_fields_lem of_i64 o method params = (
    simp (get-insert_some, get-insert),
    simp (get-insert_some, get-insert),
    simp (get-insert_some, get-insert),
    simp (get-insert_some, get-insert, or_else-none),
  )

option_refl : (o : Option String) → option_str_eq o o ≡ true
option_refl none = refl
option_refl (some s) = (eq_iff s s).1 refl

module _ (𝓡 : Readers) (own_key : Option String) (now : ℤ) where
  open 𝓡 use {Number, of_i64}

  -- A command is dropped, with the state unchanged, if it is for another app, if it has expired or
  -- if it was cancelled before it came.
  pub begin_request_dropped :
      (e : Event Number) (v : Value Number) (st : RpcState Number)
      → message_data e ≡ some v
      → ((meant_for_us 𝓡 own_key now v ≡ false)
          ⊎ ((expired 𝓡 own_key now (id_of 𝓡 own_key now e) v ≡ true)
              ⊎ (command_is_cancelled 𝓡 v ≡ true)))
      → begin_request 𝓡 own_key now e st ≡ (st, none)
  unfolding begin_request accepted
  begin_request_dropped e v st d why = rw (d, refused) refl
    where
      unwanted : {A : Type 0} (b : Bool) (x : Option A) → b ≡ true → (if b then none else x) ≡ none
      unwanted true x h = refl
      unwanted false x h = cc

      none_then :
          {A B : Type 0} (o : Option A) (f : A → Option B)
          → ((a : A) → f a ≡ none)
          → and_then o f ≡ none
      none_then none f h = refl
      none_then (some a) f h = h a

      otherwise : {A : Type 0} (b : Bool) (x : Option A) → x ≡ none → (if b then none else x) ≡ none
      otherwise true x h = refl
      otherwise false x h = h

      body_refused :
          ((expired 𝓡 own_key now (id_of 𝓡 own_key now e) v ≡ true)
            ⊎ (command_is_cancelled 𝓡 v ≡ true))
          → (payload : Value Number) → (method : String)
          → unless_stale 𝓡 own_key now e v method payload ≡ none
      body_refused (inl x) payload method = unwanted _ _ x
      body_refused (inr c) payload method = otherwise _ _ (unwanted _ _ c)

      refused : accepted 𝓡 own_key now e v ≡ none
      refused = otherwise _ _ (
          none_then (and_then (at v "method") as_str) _ λ method. elim why [
            | inl foreign ↦ rw (foreign) refl
            | inr stale ↦
                otherwise _ _
                  (none_then (at v "request") _ λ payload. body_refused stale payload method)
          ])

  own_request :
      (o : Option String)
      → ((o ≡ none) ⊎ (o ≡ own_key))
      → (v : Option (Value Number)) → v ≡ string_of o
      → option_str_eq own_key own_key ≡ true
      → elim (and_then v as_str) [ none ↦ true | some target ↦ option_str_eq own_key (some target) ]
        ≡ true
  own_request none w v p r = rw (p) refl
  own_request (some k) (inl w) v p r = cc
  own_request (some k) (inr w) v p r =
      let r' : option_str_eq own_key (some k) ≡ true = rw (w) r in rw (p) r'

  -- A request that the caller's side builds, sent to no app or to this one, is accepted with its
  -- method and its parameters (an empty object stands for none) unless it has expired.
  pub accepted-request_payload :
      (e : Event Number) (opts : CallOptions Number) (method : String)
      (params : Option (Value Number))
      → ((opts.app_key ≡ none) ⊎ (opts.app_key ≡ own_key))
      → expired 𝓡 own_key now (id_of 𝓡 own_key now e) (request_payload of_i64 opts method params)
        ≡ false
      → accepted 𝓡 own_key now e (request_payload of_i64 opts method params)
        ≡ some (method, unwrap_or params (object end))
  unfolding accepted status_is_cancelled get
  accepted-request_payload e opts method params target fresh =
      let (m, r, s, k) = request_fields_lem of_i64 opts method params in
      rw
        (
          request_type of_i64 opts method params,
          m,
          own_request opts.app_key target _ k own_key_refl,
          r,
          fresh,
          s,
        )
        refl
    where
      own_key_refl : option_str_eq own_key own_key ≡ true
      own_key_refl = option_refl own_key

  -- However the handler ends, its command is no longer among those that run.
  pub finish_request-inflight :
      (ctx : RpcContext Number) (result : Outcome Number) (st : RpcState Number) (id : ℕ)
      → ctx.request_message_id ≡ some id
      → find (λ a b. a == b) id (finish_request 𝓡 own_key now ctx result st).0.inflight ≡ none
  unfolding finish_request
  finish_request-inflight ctx result st id h = rw (h) (find-drop (λ a b. a == b) id st.inflight)
