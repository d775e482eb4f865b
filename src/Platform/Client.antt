-- ===== src/Platform/Client.antt =====
-- doover/src/docker/platform.rs: the reading and writing of pins by `PlatformClient`.
use doover_rs.Base.{ℕ, String, Bool, true, false, Option, none, some, List, [], ◌∷◌}
use doover_rs.Base.Int.{ℤ}
use doover_rs.Base.Text.{append}
use doover_rs.Errors.{DooverError, other, Result, ok, err, ◌>>=◌}
use doover_rs.Grpc.{SharedChannel, unary}
use doover_rs.Platform.{broadcast_values}
use doover_rs.Platform.Service.{PlatformService, DiReading, DiReply}

-- A method of the client, from the channel that its calls share to the channel after it and its result.
abbrev pub Method : Type 0 → Type 0
Method A = SharedChannel → SharedChannel × Result DooverError A

abbrev pub first_or : {A : Type 0} → A → List A → A
first_or d [] = d
first_or d (x ∷ xs) = x

abbrev pub readings_or : {A : Type 0} → List A → List A → List A
readings_or d [] = d
readings_or d (x ∷ xs) = x ∷ xs

-- What a method makes of its result.
abbrev pub then_map : {A B : Type 0} → (A → B) → Method A → Method B
then_map f m sh = ((m sh).0, (m sh).1 >>= λ a. ok (f a))

-- Values that do not fit the pins are an error, and nothing is sent.
abbrev pub broadcast_error : String → DooverError
broadcast_error kind = other (append kind " and value lists are not the same length")

abbrev pub with_values : {A B : Type 0} → String → Option (List A) → (List A → Method B) → Method B
with_values kind none f sh = (sh, err (broadcast_error kind))
with_values kind (some values) f sh = f values sh

module _ (𝓟 : PlatformService) where
  open 𝓟 use {F, Entry, Config, zero, of_u32}

  abbrev pub test_comms : String → Method String
  test_comms message = unary (𝓟.test_comms message)

  abbrev pub fetch_dis : List ℤ → Method (List Bool)
  fetch_dis pins = then_map (λ r. r.di) (unary (𝓟.get_di pins none))

  abbrev pub fetch_di : ℤ → Method Bool
  fetch_di pin = then_map (first_or false) (fetch_dis (pin ∷ []))

  -- The levels without counters, pin by pin.
  unfoldable pub levels : List ℤ → List Bool → List (DiReading F)
  levels [] values = []
  levels (pin ∷ pins) [] = []
  levels (pin ∷ pins) (value ∷ values) =
      record { pin = pin; value = value; pulse_count = none; pulse_rate_hz = none }
      ∷ levels pins values

  abbrev pub readings_of : List ℤ → DiReply F → List (DiReading F)
  readings_of pins r = readings_or (levels pins r.di) r.readings

  unfoldable pub fetch_di_readings : List ℤ → Method (List (DiReading F))
  unfolding levels
  fetch_di_readings pins = then_map (readings_of pins) (unary (𝓟.get_di pins (some true)))

  abbrev pub fetch_ais : List ℤ → Method (List F)
  fetch_ais pins = unary (𝓟.get_ai pins)

  abbrev pub fetch_ai : ℤ → Method F
  fetch_ai pin = then_map (first_or zero) (fetch_ais (pin ∷ []))

  abbrev pub fetch_dos : List ℤ → Method (List Bool)
  fetch_dos pins = unary (𝓟.get_do pins)

  abbrev pub fetch_do : ℤ → Method Bool
  fetch_do pin = then_map (first_or false) (fetch_dos (pin ∷ []))

  abbrev pub fetch_do_currents : List ℤ → Method (List F)
  fetch_do_currents pins = unary (𝓟.get_do_current pins)

  abbrev pub fetch_do_current : ℤ → Method F
  fetch_do_current pin = then_map (first_or zero) (fetch_do_currents (pin ∷ []))

  unfoldable pub set_dos : List ℤ → List Bool → Method (List Bool)
  unfolding broadcast_values
  set_dos pins values =
      with_values "digital output" (broadcast_values pins values)
        (λ given. unary (𝓟.set_do pins given))

  abbrev pub set_do : ℤ → Bool → Method Bool
  set_do pin value = then_map (first_or false) (set_dos (pin ∷ []) (value ∷ []))

  unfoldable pub schedule_dos : List ℤ → List Bool → ℕ → Method (List Bool)
  unfolding broadcast_values
  schedule_dos pins values in_secs =
      with_values "digital output" (broadcast_values pins values)
        (λ given. unary (𝓟.schedule_do pins given (of_u32 in_secs)))

  abbrev pub schedule_do : ℤ → Bool → ℕ → Method (Unit {0})
  schedule_do pin value in_secs = then_map (λ _. tt) (schedule_dos (pin ∷ []) (value ∷ []) in_secs)

  abbrev pub fetch_aos : List ℤ → Method (List F)
  fetch_aos pins = unary (𝓟.get_ao pins)

  abbrev pub fetch_ao : ℤ → Method F
  fetch_ao pin = then_map (first_or zero) (fetch_aos (pin ∷ []))

  unfoldable pub set_aos : List ℤ → List F → Method (List F)
  unfolding broadcast_values
  set_aos pins values =
      with_values "analogue output" (broadcast_values pins values)
        (λ given. unary (𝓟.set_ao pins given))

  abbrev pub set_ao : ℤ → F → Method F
  set_ao pin value = then_map (first_or zero) (set_aos (pin ∷ []) (value ∷ []))

  unfoldable pub schedule_aos : List ℤ → List F → ℕ → Method (List F)
  unfolding broadcast_values
  schedule_aos pins values in_secs =
      with_values "analogue output" (broadcast_values pins values)
        (λ given. unary (𝓟.schedule_ao pins given (of_u32 in_secs)))

  abbrev pub schedule_ao : ℤ → F → ℕ → Method (Unit {0})
  schedule_ao pin value in_secs = then_map (λ _. tt) (schedule_aos (pin ∷ []) (value ∷ []) in_secs)
