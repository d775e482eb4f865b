-- ===== src/Ui/Commands.antt =====
-- doover/src/ui/runtime.rs, `handle_event`: which messages are commands.
use doover_rs.Base.{
  ℕ, ◌≡◌, refl, ap, sym, ◌∙◌, ◌||◌, String, true, Option, none, some, Bool-cases, inl, inr,
  and_then,
}
use doover_rs.Events.{
  Event, is_aggregate_update, is_channel_sync, is_message_create, is_one_shot, message_data,
}
use doover_rs.Json.{Value, at}
use doover_rs.Rpc.{as_str}
use doover_rs.Ui.{
  UiState, UiCommand, is_member, is_for, is_rpc, handle_event, command_in, for_method,
}

module _ {N : Type 0} (number_u64 : N → Option ℕ) (parse_u64 : String → Option ℕ)
    (app_key : String) where
  -- What holds of the command that a message is.
  abbrev pub IsCommand : UiState N → Value N → UiCommand N → Type 0
  IsCommand st d cmd =
      (is_rpc (and_then (at d "type") as_str) ≡ true)
      × (and_then (at d "method") as_str ≡ some cmd.name)
      × (is_for app_key (and_then (at d "app_key") as_str) ≡ true)
      × (is_member st.interactions cmd.name ≡ true)
      × (at d "request" ≡ some cmd.value)

  request-given :
      (method : String) (id : Option ℕ) (cmd : UiCommand N) (v : Option (Value N))
      → and_then v (λ v'. some (record { name = method; value = v'; message_id = id })) ≡ some cmd
      → (method ≡ cmd.name) × (v ≡ some cmd.value)
  request-given method id cmd none h = cc
  request-given method id cmd (some v) h =
      let same : record { name = method; value = v; message_id = id } ≡ cmd = cc in
      (ap (λ c. c.name) same, ap (λ c. some c.value) same)

  method-IsCommand :
      (st : UiState N) (e : Event N) (d : Value N) (cmd : UiCommand N) (m : Option String)
      → is_rpc (and_then (at d "type") as_str) ≡ true
      → and_then (at d "method") as_str ≡ m
      → for_method number_u64 parse_u64 app_key st e d m ≡ some cmd
      → IsCommand st d cmd
  method-IsCommand st e d cmd none t k h = cc
  method-IsCommand st e d cmd (some method) t k h =
      elim (Bool-cases (is_for app_key (and_then (at d "app_key") as_str))) [
        | inr other ↦ absurd (let wrong = rw (other) at h in cc)
        | inl own ↦ elim (Bool-cases (is_member st.interactions method)) [
          | inr unknown ↦ absurd (let wrong = rw (own, unknown) at h in cc)
          | inl known ↦
              let given =
                request-given method _ cmd (at d "request") (let h' = rw (own, known) at h in h') in
              (
                t,
                k ∙ ap (λ n. some n) given.0,
                own,
                ap (is_member st.interactions) (sym given.0) ∙ known,
                given.1,
              )
        ]
      ]

  command_in-IsCommand :
      (st : UiState N) (e : Event N) (d : Value N) (cmd : UiCommand N)
      → command_in number_u64 parse_u64 app_key st e d ≡ some cmd
      → IsCommand st d cmd
  command_in-IsCommand st e d cmd h = elim (Bool-cases (is_rpc (and_then (at d "type") as_str))) [
    | inl t ↦
        method-IsCommand st e d cmd (and_then (at d "method") as_str) t refl
          (let h' = rw (t) at h in h')
    | inr t ↦ absurd (let wrong = rw (t) at h in cc)
  ]

  data-IsCommand :
      (st : UiState N) (e : Event N) (cmd : UiCommand N) (v : Option (Value N))
      → message_data e ≡ v
      → and_then v (command_in number_u64 parse_u64 app_key st e) ≡ some cmd
      → (d : Value N) × (message_data e ≡ some d) × IsCommand st d cmd
  data-IsCommand st e cmd none k h = cc
  data-IsCommand st e cmd (some d) k h = (d, k, command_in-IsCommand st e d cmd h)

  -- An event is a command only if it is a created or a one-shot message with an `rpc` payload for this app or
  -- for none, whose method is one of the app's interactions; the command has the method's name and the value
  -- of the request, and the state stays as it was.
  pub handle_event-IsCommand :
      (e : Event N) (st : UiState N) (cmd : UiCommand N)
      → (handle_event number_u64 parse_u64 app_key e st).1 ≡ some cmd
      → ((is_message_create e || is_one_shot e) ≡ true)
        × ((handle_event number_u64 parse_u64 app_key e st).0 ≡ st)
        × (d : Value N) × (message_data e ≡ some d)
        × IsCommand st d cmd
  unfolding handle_event
  handle_event-IsCommand e st cmd h =
      elim (Bool-cases (is_aggregate_update e || is_channel_sync e)) [
        | inl update ↦ absurd (let wrong = rw (update) at h in cc)
        | inr rest ↦ elim (Bool-cases (is_message_create e || is_one_shot e)) [
          | inr neither ↦ absurd (let wrong = rw (rest, neither) at h in cc)
          | inl message ↦
              let found =
                data-IsCommand st e cmd (message_data e) refl
                  (let h' = rw (rest, message) at h in h') in
              (message, rw (rest, message) refl, found.0, found.1, found.2)
        ]
      ]
