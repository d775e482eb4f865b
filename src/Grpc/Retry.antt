-- ===== src/Grpc/Retry.antt =====
-- doover/src/docker/grpc.rs: how often a call is tried, and on which channels.
use doover_rs.Base.{ℕ, suc, ◌+◌, ◌≤◌, ◌<◌, ◌≡◌, refl, ap, ◌∙◌, Option, none, some, arith, if_elim}
use doover_rs.Errors.{Result, ok, err}
use doover_rs.Grpc.{
  Status, Outcome, replied, refused, elapsed, SharedChannel, Attempt, channel, channel_or, discard,
  after_outcome, call_once, or_retry, call, is_deadline, is_unavailable,
}

-- The shared channel was built.
abbrev pub IsBuilt : SharedChannel → Type 0
IsBuilt sh = (ch : ℕ) → sh.shared ≡ some ch → ch < sh.built

-- What taking the channel leaves.
abbrev pub IsTaken : SharedChannel → SharedChannel × ℕ → Type 0
IsTaken sh (sh', ch) = IsBuilt sh' × (ch < sh'.built) × (sh'.attempts ≡ sh.attempts)

pub channel_or-IsTaken :
    (shared : Option ℕ) (sh : SharedChannel)
    → sh.shared ≡ shared
    → IsBuilt sh
    → IsTaken sh (channel_or shared sh)
channel_or-IsTaken (some ch) sh e h = (h, h ch e, refl)
channel_or-IsTaken none sh e h =
    (λ ch k. let same : sh.built ≡ ch = cc in omega (arith, same), omega arith, refl)

-- What one attempt leaves.
abbrev pub IsTried : {R : Type 0} → ℕ → SharedChannel × Result Status R → Type 0
IsTried n (sh, r) = IsBuilt sh × (sh.attempts ≡ n)

discard-IsBuilt : (sh : SharedChannel) → IsBuilt (discard sh)
discard-IsBuilt sh ch k = cc

module _ {R : Type 0} where
  after_outcome-IsTried :
      (o : Outcome R) (sh : SharedChannel) → IsBuilt sh → IsTried sh.attempts (after_outcome o sh)
  after_outcome-IsTried (replied r) sh h = (h, refl)
  after_outcome-IsTried (refused s) sh h =
      if_elim (λ (x : SharedChannel). IsBuilt x × (x.attempts ≡ sh.attempts)) (is_deadline s.code)
        (λ _. (discard-IsBuilt sh, refl)) (λ _. (h, refl))
  after_outcome-IsTried elapsed sh h = (discard-IsBuilt sh, refl)

  pub call_once-IsTried :
      (f : Attempt R) (sh : SharedChannel) → IsBuilt sh → IsTried (suc sh.attempts) (call_once f sh)
  unfolding call_once
  call_once-IsTried f sh h =
      let taken = channel_or-IsTaken sh.shared sh refl h in
      let sh' = (channel sh).0 in
      let tried =
        after_outcome-IsTried (f (channel sh).1 sh'.attempts)
          (record sh' { attempts = suc sh'.attempts }) taken.0 in
      (tried.0, tried.1 ∙ ap suc taken.2)

  -- One attempt or two.
  abbrev pub IsCalled : ℕ → SharedChannel × Result Status R → Type 0
  IsCalled n (sh, r) = IsBuilt sh × (n < sh.attempts) × (sh.attempts ≤ n + 2)

  or_retry-IsCalled :
      (f : Attempt R) (n : ℕ) (r : SharedChannel × Result Status R)
      → IsTried (suc n) r
      → IsCalled n (or_retry f r)
  or_retry-IsCalled f n (sh, ok a) h = (h.0, omega (arith, h.1), omega (arith, h.1))
  or_retry-IsCalled f n (sh, err s) h =
      let again = call_once-IsTried f (discard sh) (discard-IsBuilt sh) in
      if_elim (IsCalled n) (is_unavailable s.code)
        (λ _. (again.0, omega (arith, again.1, h.1), omega (arith, again.1, h.1)))
        (λ _. (h.0, omega (arith, h.1), omega (arith, h.1)))

  -- If the shared channel, where there is one, was built, a call of a sidecar ends after one attempt or
  -- two, whatever they answer, and a channel that it leaves behind is one that was built.
  pub call-IsCalled :
      (f : Attempt R) (sh : SharedChannel) → IsBuilt sh → IsCalled sh.attempts (call f sh)
  unfolding call
  call-IsCalled f sh h = or_retry-IsCalled f sh.attempts (call_once f sh) (call_once-IsTried f sh h)
