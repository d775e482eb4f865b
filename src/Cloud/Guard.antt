-- ===== src/Cloud/Guard.antt =====
-- doover/src/api/data.rs, `_check_invoking_channel`: what a processor may write to the channel that
-- triggered it.
use doover_rs.Base.{
  ℕ, ◌≡◌, ◌≢◌, refl, String, true, false, Option, none, some, [], Bool-cases, ◌⊎◌, inl, inr, arith,
  str_eq, eq_iff,
}
use doover_rs.Errors.{DooverError, Result, ok, err}
use doover_rs.Json.{Value, Map, object, end, entry, get}
use doover_rs.Processor.Payloads.{Readings}
use doover_rs.Cloud.{Server, DataClient, Sent, AggregateOptions, given}
use doover_rs.Cloud.Calls.{
  check_invoking_channel, has_other_key, outside_scope, is_channel, create_message_http,
  update_channel_aggregate_http,
}

module _ {N : Type 0} where
  -- No key but the app's.
  get-has_other_key :
      (app_key : String) (m : Map N) (k : String)
      → has_other_key (some app_key) m ≡ false
      → str_eq k app_key ≡ false
      → get k m ≡ none
  unfolding has_other_key get
  get-has_other_key app_key end k h d = refl
  get-has_other_key app_key (entry j v m) k h d = elim (Bool-cases (str_eq j app_key)) [
    | inl e ↦
        let rest : has_other_key (some app_key) m ≡ false = rw (e) at h in
        ground (
          arith,
          e,
          d,
          eq_iff j k,
          eq_iff j app_key,
          eq_iff k app_key,
          get-has_other_key app_key m k rest d,
        )
    | inr e ↦ absurd (let wrong : true ≡ false = rw (e) at h in cc)
  ]

  -- A value that a write of the app may put on the channel that triggered it.
  abbrev pub IsOwn : String → Value N → Type 0
  IsOwn app_key v =
      (m : Map N) (k : String) → v ≡ object m → str_eq k app_key ≡ false → get k m ≡ none

  outside_scope-IsOwn :
      (app_key : String) (v : Value N) → outside_scope (some app_key) v ≡ false → IsOwn app_key v
  outside_scope-IsOwn app_key v h m k e d =
      get-has_other_key app_key m k (let h' = rw (e) at h in h') d

  check-IsOwn :
      (c : DataClient) (channel app_key : String) (v : Value N)
      → is_channel c.invoking_channel channel ≡ true
      → c.app_key ≡ some app_key
      → check_invoking_channel c channel v ≡ ok tt
      → (str_eq channel "tag_values" ≡ true) × IsOwn app_key v
  unfolding check_invoking_channel
  check-IsOwn c channel app_key v i a h = elim (Bool-cases (str_eq channel "tag_values")) [
    | inl t ↦ elim (Bool-cases (outside_scope c.app_key v)) [
      | inl o ↦ absurd (let wrong = rw (i, t, o) at h in cc)
      | inr o ↦ (t, outside_scope-IsOwn app_key v (rw (a) at o))
    ]
    | inr t ↦ absurd (let wrong = rw (i, t) at h in cc)
  ]

  -- What needs a value first and has sent something has had the value.
  given-ok :
      {A B : Type 0} (r : Result DooverError A) (f : A → Sent N B)
      → (given r f).requests ≢ []
      → (a : A) × (r ≡ ok a)
  given-ok (ok a) f h = (a, refl)
  given-ok (err e) f h = absurd (h refl)

  -- On a client that has the app's key and handles an event of a channel, a write to that channel, as a message or of
  -- the aggregate, sends a request only if the channel is `tag_values` and the value, if it is an object,
  -- has no key but the app's.
  pub guarded_write :
      (server : Server N) (𝓝 : Readings N) (c : DataClient) (channel app_key : String) (v : Value N)
      (timestamp agent : Option ℕ) (opts : AggregateOptions)
      → is_channel c.invoking_channel channel ≡ true
      → c.app_key ≡ some app_key
      → ((create_message_http server 𝓝 c channel v timestamp agent).requests ≢ [])
        ⊎ ((update_channel_aggregate_http server c channel v opts agent).requests ≢ [])
      → (str_eq channel "tag_values" ≡ true) × IsOwn app_key v
  unfolding create_message_http update_channel_aggregate_http
  guarded_write server 𝓝 c channel app_key v timestamp agent opts i a (inl h) =
      check-IsOwn c channel app_key v i a (given-ok (check_invoking_channel c channel v) _ h).1
  guarded_write server 𝓝 c channel app_key v timestamp agent opts i a (inr h) =
      check-IsOwn c channel app_key v i a (given-ok (check_invoking_channel c channel v) _ h).1
