-- ===== src/Grpc.antt =====
-- doover/src/docker/grpc.rs: `SharedChannel`, the channel that the calls of a sidecar share. A channel is known
-- by a number, and the answer to an attempt, which may differ from one attempt to the next, is a parameter.
pub mod Retry
pub mod Fresh
pub mod Answers
use doover_rs.Base.{ℕ, suc, String, Bool, true, false, Option, none, some, unwrap_or, if◌then◌else◌}
use doover_rs.Base.Int.{ℤ, pos, int_eq}
use doover_rs.Base.Text.{append}
use doover_rs.Errors.{DooverError, status, not_found, http, Result, ok, err, ◌>>=◌}

-- The codes of a status that the program looks at.
pub data Code : Type 0 where
  unavailable deadline_exceeded unimplemented : Code
  other_code : ℕ → Code

pub record Status : Type 0 where
  pub code : Code
  pub message : String

-- The answer to an attempt: a response, a status, or none within the timeout.
pub data Outcome (R : Type 0) : Type 0 where
  replied : R → Outcome R
  refused : Status → Outcome R
  elapsed : Outcome R

-- The shared channel if there is one, how many were built so far, and how many attempts were made; the
-- timeout is held as it prints.
pub record SharedChannel : Type 0 where
  pub service_name : String
  pub timeout : String
  pub shared : Option ℕ
  pub built : ℕ
  pub attempts : ℕ

-- What a request answers on a channel, at an attempt.
abbrev pub Attempt : Type 0 → Type 0
Attempt R = ℕ → ℕ → Outcome R

abbrev pub new_shared : String → SharedChannel
new_shared service_name = record {
  service_name = service_name;
  timeout = "7s";
  shared = none;
  built = 0;
  attempts = 0;
}

abbrev pub with_timeout : String → SharedChannel → SharedChannel
with_timeout timeout sh = record sh { timeout = timeout }

abbrev pub is_unavailable : Code → Bool
is_unavailable unavailable = true
is_unavailable _ = false

abbrev pub is_deadline : Code → Bool
is_deadline deadline_exceeded = true
is_deadline _ = false

abbrev pub is_unimplemented : Code → Bool
is_unimplemented unimplemented = true
is_unimplemented _ = false

-- `get_or_insert_with` on the channel.
abbrev pub channel_or : Option ℕ → SharedChannel → SharedChannel × ℕ
channel_or (some ch) sh = (sh, ch)
channel_or none sh = (record sh { shared = some sh.built; built = suc sh.built }, sh.built)

abbrev pub channel : SharedChannel → SharedChannel × ℕ
channel sh = channel_or sh.shared sh

abbrev pub discard : SharedChannel → SharedChannel
discard sh = record sh { shared = none }

abbrev pub late : SharedChannel → Status
late sh = record {
  code = deadline_exceeded;
  message =
      append "request to " (append sh.service_name (append " did not complete within " sh.timeout));
}

module _ {R : Type 0} where
  -- The state and the result after an answer; a deadline drops the channel.
  abbrev pub after_outcome : Outcome R → SharedChannel → SharedChannel × Result Status R
  after_outcome (replied r) sh = (sh, ok r)
  after_outcome (refused s) sh = (if is_deadline s.code then discard sh else sh, err s)
  after_outcome elapsed sh = (discard sh, err (late sh))

  unfoldable pub call_once : Attempt R → SharedChannel → SharedChannel × Result Status R
  call_once f sh =
      let (sh', ch) = channel sh in
      after_outcome (f ch sh'.attempts) (record sh' { attempts = suc sh'.attempts })

  -- A call whose channel is unavailable is made once more, on a channel of its own.
  abbrev pub or_retry :
      Attempt R → SharedChannel × Result Status R → SharedChannel × Result Status R
  or_retry f (sh, ok r) = (sh, ok r)
  or_retry f (sh, err s) =
      let again = call_once f (discard sh) in if is_unavailable s.code then again else (sh, err s)

  unfoldable pub call : Attempt R → SharedChannel → SharedChannel × Result Status R
  unfolding call_once
  call f sh = or_retry f (call_once f sh)

-- The header of a response. A response without one passes.
pub record Header : Type 0 where
  pub success : Bool
  pub response_code : Option ℤ
  pub message : Option String

pub record Headed (R : Type 0) : Type 0 where
  pub header : Option Header
  pub body : R

abbrev pub failure_of : ℤ → String → DooverError
failure_of code message = if int_eq code (pos 404) then not_found message else http code message

abbrev pub check_response_header : Bool → Option ℤ → Option String → Result DooverError (Unit {0})
check_response_header true code message = ok tt
check_response_header false code message =
    err (failure_of (unwrap_or code (pos 500)) (unwrap_or message "Unknown error"))

abbrev pub check : Option Header → Result DooverError (Unit {0})
check none = ok tt
check (some h) = check_response_header h.success h.response_code h.message

module _ {R : Type 0} where
  abbrev pub checked : Result Status (Headed R) → Result DooverError R
  checked (ok r) = check r.header >>= λ _. ok r.body
  checked (err s) = err (status s.message)

  -- A call whose response is checked, as the unary methods of `PlatformClient` make it.
  unfoldable pub unary : Attempt (Headed R) → SharedChannel → SharedChannel × Result DooverError R
  unfolding call
  unary f sh = ((call f sh).0, checked (call f sh).1)
