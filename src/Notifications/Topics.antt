-- ===== src/Notifications/Topics.antt =====
-- doover/src/models.rs, `NotificationTopic`: the topics of an app can be read back.
use Prim.Native.Char.{Char}
use text.Mathlib.TextLemmas.{nil-append, cons-append, append_assoc}
use doover_rs.Base.{
  ◌≡◌, refl, ap, sym, String, Bool, true, false, ◌&&◌, [], ◌∷◌, Bool-cases, inl, inr, arith,
}
use doover_rs.Base.Text.{append, split, is_char, in_front}
use doover_rs.Errors.{DooverError, Result, ok, err, ◌>>=◌}
use doover_rs.Notifications.{
  NotificationPolicy, default, opt_in, policy_text, is_first_char, is_segment_char, all_chars,
  is_segment, first_char, validate_topic_segment, topic_text, application,
}

-- No slash is a character of a segment.
no_slash : (c : Char) → is_segment_char c ≡ true → is_char 47 c ≡ false
no_slash c h = ground (arith, h)

each_holds : (a b : Bool) → (a && b) ≡ true → (a ≡ true) × (b ≡ true)
each_holds true b h = (refl, h)
each_holds false b h = cc

-- A text without the separator in front of one is the first piece.
split-segment :
    (s t : String)
    → all_chars is_segment_char s ≡ true
    → split 47 (append s (append "/" t)) ≡ s ∷ split 47 t
unfolding all_chars split
split-segment String.[] t h = rw (nil-append (append "/" t), cons-append, nil-append t) refl
split-segment (String.◌∷◌ c s) t h =
    let (here, rest) = each_holds (is_segment_char c) (all_chars is_segment_char s) h in
    rw (cons-append, no_slash c here) (ap (in_front c) (split-segment s t rest))

split-last : (s : String) → all_chars is_segment_char s ≡ true → split 47 s ≡ s ∷ []
unfolding all_chars split
split-last String.[] h = refl
split-last (String.◌∷◌ c s) h =
    let (here, rest) = each_holds (is_segment_char c) (all_chars is_segment_char s) h in
    rw (no_slash c here) (ap (in_front c) (split-last s rest))

policy-segment :
    (policy : NotificationPolicy) → all_chars is_segment_char (policy_text policy) ≡ true
unfolding all_chars
policy-segment default = refl
policy-segment opt_in = refl

topic_text-split :
    (policy : NotificationPolicy) (app_key event : String)
    → all_chars is_segment_char app_key ≡ true
    → all_chars is_segment_char event ≡ true
    → split 47 (topic_text policy app_key event)
      ≡ "dev" ∷ "applications" ∷ policy_text policy ∷ app_key ∷ event ∷ []
unfolding all_chars
topic_text-split policy app_key event a e =
    let rest = append (policy_text policy) (append "/" (append app_key (append "/" event))) in
    let parted : append "dev/applications/" rest
        ≡ append "dev" (append "/" (append "applications" (append "/" rest))) =
      rw
        (
          sym (append_assoc "applications" "/" rest),
          sym (append_assoc "/" "applications/" rest),
          sym (append_assoc "dev" "/applications/" rest),
        )
        refl in
    rw
      (
        parted,
        split-segment "dev" (append "applications" (append "/" rest)) refl,
        split-segment "applications" rest refl,
        split-segment (policy_text policy) (append app_key (append "/" event))
            (policy-segment policy),
        split-segment app_key event a,
        split-last event e,
      )
      refl

-- A segment that is let through has only the characters of one.
validated-segment :
    (quote_text : String → String) (name value : String) (u : Unit {0})
    → validate_topic_segment quote_text name value ≡ ok u
    → all_chars is_segment_char value ≡ true
unfolding validate_topic_segment is_segment
validated-segment quote_text name value u h = elim (Bool-cases (is_segment value)) [
  | inl fine ↦
      (each_holds (first_char is_first_char value) (all_chars is_segment_char value) fine).1
  | inr wrong ↦ absurd (let h' = rw (wrong) at h in cc)
]

split-then :
    (t app_key event : String) (policy : NotificationPolicy) (a b : Result DooverError (Unit {0}))
    → ((u : Unit {0}) → a ≡ ok u → all_chars is_segment_char app_key ≡ true)
    → ((u : Unit {0}) → b ≡ ok u → all_chars is_segment_char event ≡ true)
    → (a >>= λ _. b >>= λ _. ok (topic_text policy app_key event)) ≡ ok t
    → split 47 t ≡ "dev" ∷ "applications" ∷ policy_text policy ∷ app_key ∷ event ∷ []
split-then t app_key event policy (ok u) (ok v) f g h =
    let same : topic_text policy app_key event ≡ t = cc in
    rw (sym same) (topic_text-split policy app_key event (f u refl) (g v refl))
split-then t app_key event policy (ok u) (err e) f g h = cc
split-then t app_key event policy (err e) b f g h = cc

-- A topic that is built for an app's event reads back as it was built: cut at its slashes it gives the policy, the
-- app's key and the event, so no two of them share a topic.
pub split-application :
    (quote_text : String → String) (app_key event t : String) (policy : NotificationPolicy)
    → application quote_text app_key event policy ≡ ok t
    → split 47 t ≡ "dev" ∷ "applications" ∷ policy_text policy ∷ app_key ∷ event ∷ []
unfolding application
split-application quote_text app_key event t policy h =
    split-then t app_key event policy (validate_topic_segment quote_text "app_key" app_key)
      (validate_topic_segment quote_text "event" event)
      (validated-segment quote_text "app_key" app_key) (validated-segment quote_text "event" event)
      h
