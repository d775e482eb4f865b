-- ===== src/Grpc/Fresh.antt =====
-- doover/src/docker/grpc.rs: the channel on which an unavailable call is made again, and what a deadline leaves.
use doover_rs.Base.{
  ℕ, suc, ◌<◌, ◌≡◌, ◌≢◌, refl, ap, sym, ◌∙◌, true, false, arith, Bool-cases, inl, inr, if_elim,
}
use doover_rs.Errors.{Result, ok, err}
use doover_rs.Grpc.{
  Code, unavailable, deadline_exceeded, unimplemented, other_code, Status, Outcome, replied,
  refused, elapsed, SharedChannel, Attempt, channel, after_outcome, call_once, or_retry, call,
  is_deadline, is_unavailable, late,
}
use doover_rs.Grpc.Retry.{IsBuilt, channel_or-IsTaken, call_once-IsTried}

not_late : (c : Code) → is_unavailable c ≡ true → is_deadline c ≡ false
not_late unavailable h = refl
not_late deadline_exceeded h = cc
not_late unimplemented h = refl
not_late (other_code n) h = refl

module _ {R : Type 0} where
  outcome-unavailable :
      (o : Outcome R) (sh : SharedChannel) (s : Status)
      → (after_outcome o sh).1 ≡ err s
      → is_unavailable s.code ≡ true
      → o ≡ refused s
  outcome-unavailable (replied r) sh s h u = cc
  outcome-unavailable (refused s₀) sh s h u = cc
  outcome-unavailable elapsed sh s h u =
      let same : late sh ≡ s = cc in absurd (let wrong = rw (sym same) at u in cc)

  after_outcome-built :
      (o : Outcome R) (sh : SharedChannel) → (after_outcome o sh).0.built ≡ sh.built
  after_outcome-built (replied r) sh = refl
  after_outcome-built (refused s) sh =
      if_elim (λ (x : SharedChannel). x.built ≡ sh.built) (is_deadline s.code) (λ _. refl)
        (λ _. refl)
  after_outcome-built elapsed sh = refl

  -- The two attempts of a call that starts with an unavailable one.
  abbrev pub IsUnavailable : Attempt R → ℕ → Status → Type 0
  IsUnavailable f n s =
      (first : ℕ) × (fresh : ℕ) × (s₁ : Status) × (first ≢ fresh)
      × (is_unavailable s₁.code ≡ true)
      × (f first n ≡ refused s₁)
      × (f fresh (suc n) ≡ refused s)

  or_retry-IsUnavailable :
      (f : Attempt R) (n first : ℕ) (s : Status) (r : SharedChannel × Result Status R)
      → first < r.0.built
      → r.0.attempts ≡ suc n
      → ((s₁ : Status) → r.1 ≡ err s₁ → is_unavailable s₁.code ≡ true → f first n ≡ refused s₁)
      → (or_retry f r).1 ≡ err s
      → is_unavailable s.code ≡ true
      → IsUnavailable f n s
  unfolding call_once
  or_retry-IsUnavailable f n first s (sh, ok a) b e k h u = cc
  or_retry-IsUnavailable f n first s (sh, err s₁) b e k h u =
      elim (Bool-cases (is_unavailable s₁.code)) [
        | inr ended ↦ absurd (
            let same = rw (ended) at h in
            let equal : s₁ ≡ s = cc in
            let codes = ap (λ (x : Status). is_unavailable x.code) equal in cc)
        | inl again ↦ (
          first,
          sh.built,
          s₁,
          (λ same. absurd (omega (arith, same, b))),
          again,
          k s₁ refl again,
          ap (λ a. f sh.built a) (sym e)
              ∙ outcome-unavailable (f sh.built sh.attempts) _ s
                  (let second = rw (again) at h in second) u,
        )
      ]

  -- If the shared channel, where there is one, was built, a call ends as unavailable only when it was so
  -- twice, the second time on another channel than the first.
  pub call-IsUnavailable :
      (f : Attempt R) (sh : SharedChannel) (s : Status)
      → IsBuilt sh
      → (call f sh).1 ≡ err s
      → is_unavailable s.code ≡ true
      → IsUnavailable f sh.attempts s
  unfolding call call_once
  call-IsUnavailable f sh s h e u =
      let taken = channel_or-IsTaken sh.shared sh refl h in
      let ch = (channel sh).1 in
      let sh' = (channel sh).0 in
      let o = f ch sh'.attempts in
      let tried = record sh' { attempts = suc sh'.attempts } in
      or_retry-IsUnavailable f sh.attempts ch s (call_once f sh)
        (let kept = after_outcome-built o tried in omega (arith, kept, taken.1))
        (call_once-IsTried f sh h).1
        (λ s₁ e₁ u₁. ap (λ n. f ch n) (sym taken.2) ∙ outcome-unavailable o tried s₁ e₁ u₁) e u
