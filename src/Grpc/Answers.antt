-- ===== src/Grpc/Answers.antt =====
-- doover/src/docker/grpc.rs and platform.rs: where the result of a checked call comes from.
use doover_rs.Base.{ℕ, ◌≡◌, refl, ap, ◌∙◌, Option, Bool-cases, inl, inr}
use doover_rs.Errors.{DooverError, Result, ok, err, ◌>>=◌}
use doover_rs.Grpc.{
  Status, Outcome, replied, refused, elapsed, SharedChannel, Attempt, channel, discard,
  after_outcome, call_once, or_retry, call, is_unavailable, Header, Headed, check, checked, unary,
}

module _ {R : Type 0} where
  outcome-ok :
      (o : Outcome R) (sh : SharedChannel) (r : R) → (after_outcome o sh).1 ≡ ok r → o ≡ replied r
  outcome-ok (replied r') sh r h = cc
  outcome-ok (refused s) sh r h = cc
  outcome-ok elapsed sh r h = cc

  -- Some attempt was answered so.
  abbrev pub IsAnswer : Attempt R → R → Type 0
  IsAnswer f r = (ch : ℕ) × (n : ℕ) × (f ch n ≡ replied r)

  call_once-ok :
      (f : Attempt R) (sh : SharedChannel) (r : R) → (call_once f sh).1 ≡ ok r → IsAnswer f r
  unfolding call_once
  call_once-ok f sh r h = (
    (channel sh).1,
    (channel sh).0.attempts,
    outcome-ok (f (channel sh).1 (channel sh).0.attempts) _ r h,
  )

  or_retry-ok :
      (f : Attempt R) (r : R) (t : SharedChannel × Result Status R)
      → (t.1 ≡ ok r → IsAnswer f r)
      → (or_retry f t).1 ≡ ok r
      → IsAnswer f r
  or_retry-ok f r (sh, ok a) k h = k h
  or_retry-ok f r (sh, err s) k h = elim (Bool-cases (is_unavailable s.code)) [
    | inl again ↦ call_once-ok f (discard sh) r (let second = rw (again) at h in second)
    | inr ended ↦ absurd (let same = rw (ended) at h in cc)
  ]

  call-ok : (f : Attempt R) (sh : SharedChannel) (r : R) → (call f sh).1 ≡ ok r → IsAnswer f r
  unfolding call
  call-ok f sh r h = or_retry-ok f r (call_once f sh) (call_once-ok f sh r) h

module _ {R : Type 0} where
  -- A checked result that is a value.
  abbrev IsGood : Attempt (Headed R) → R → Type 0
  IsGood f v =
      (ch : ℕ) × (n : ℕ) × (header : Option Header) × (f ch n
        ≡ replied (record { header = header; body = v }))
      × (check header ≡ ok tt)

  body-IsGood :
      (f : Attempt (Headed R)) (r : Headed R) (v : R) (c : Result DooverError (Unit {0}))
      → check r.header ≡ c
      → (c >>= λ _. ok r.body) ≡ ok v
      → IsAnswer f r
      → IsGood f v
  body-IsGood f r v (ok _) e h a =
      let same : r.body ≡ v = cc in
      (a.0, a.1, r.header, a.2 ∙ ap (λ b. replied (record { header = r.header; body = b })) same, e)
  body-IsGood f r v (err d) e h a = cc

  checked-IsGood :
      (f : Attempt (Headed R)) (v : R) (c : Result Status (Headed R))
      → ((r : Headed R) → c ≡ ok r → IsAnswer f r)
      → checked c ≡ ok v
      → IsGood f v
  checked-IsGood f v (ok r) a h = body-IsGood f r v (check r.header) refl h (a r refl)
  checked-IsGood f v (err s) a h = cc

  -- A checked call has a value only if an attempt was answered with it, and a header, if there is one, reports no
  -- failure.
  pub unary-ok :
      (f : Attempt (Headed R)) (sh : SharedChannel) (v : R)
      → (unary f sh).1 ≡ ok v
      → (ch : ℕ) × (n : ℕ) × (header : Option Header) × (f ch n
          ≡ replied (record { header = header; body = v }))
        × (check header ≡ ok tt)
  unfolding unary
  unary-ok f sh v h = checked-IsGood f v (call f sh).1 (call-ok f sh) h
