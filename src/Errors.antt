-- ===== src/Errors.antt =====
-- doover/src/error.rs: `DooverError`, and the results that carry it. The errors of the libraries are
-- held by their texts.
use doover_rs.Base.{String}
use doover_rs.Base.Int.{ℤ}
use doover_rs.Base.Text.{append}

pub data DooverError : Type 0 where
  transport status not_found request json invalid_payload other : String → DooverError
  http : ℤ → String → DooverError

abbrev pub type_name : DooverError → String
type_name (transport _) = "TransportError"
type_name (status _) = "StatusError"
type_name (not_found _) = "NotFoundError"
type_name (http _ _) = "HTTPError"
type_name (request _) = "RequestError"
type_name (json _) = "JSONError"
type_name (invalid_payload _) = "InvalidPayload"
type_name (other _) = "RuntimeError"

-- `to_string`; `print` prints the number.
abbrev pub error_text : (ℤ → String) → DooverError → String
error_text print (transport e) = append "gRPC transport error: " e
error_text print (status e) = append "gRPC status: " e
error_text print (not_found e) = append "not found: " e
error_text print (http code message) =
    append "agent error " (append (print code) (append ": " message))
error_text print (request e) = append "HTTP request error: " e
error_text print (json e) = append "JSON error: " e
error_text print (invalid_payload e) = append "invalid payload: " e
error_text print (other e) = e

pub data Result {ℓ κ} (E : Type ℓ) (A : Type κ) : Type (ℓ ⊔ κ) where
  ok : A → Result E A
  err : E → Result E A

infixl 5 ◌>>=◌
abbrev pub ◌>>=◌ {ℓ κ λ₁} :
    {E : Type ℓ} {A : Type κ} {B : Type λ₁} → Result E A → (A → Result E B) → Result E B
ok a >>= f = f a
err e >>= f = err e
