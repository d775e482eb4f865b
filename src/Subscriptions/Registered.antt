-- ===== src/Subscriptions/Registered.antt =====
-- doover/src/docker/subscriptions.rs and events.rs: the callbacks of the kinds that were asked for.
use doover_rs.Base.{
  ℕ, ◌≡◌, refl, ◌∙◌, ap, none, ◌==◌, String, Bool, true, false, some, List, [], ◌∷◌, ◌&&◌, not,
  str_eq, if◌then◌else◌,
}
use doover_rs.Base.Table.{find}
use doover_rs.Events.{
  EventSubscription, no_events, message_create, message_update, aggregate_update, oneshot_message,
  channel_sync_flag, contains, union, Event, subscription_flag,
}
use doover_rs.Subscriptions.{HubState, ChannelState, selected, dispatch}

-- The kinds of events, by the name that the agent sends and by the flag that selects them.
pub data Kind : Type 0 where
  created updated aggregate oneshot synced : Kind

abbrev pub name_of : Kind → String
name_of created = "MessageCreate"
name_of updated = "MessageUpdate"
name_of aggregate = "AggregateUpdate"
name_of oneshot = "OneShotMessage"
name_of synced = "ChannelSync"

abbrev pub flag_of : Kind → EventSubscription
flag_of created = message_create
flag_of updated = message_update
flag_of aggregate = aggregate_update
flag_of oneshot = oneshot_message
flag_of synced = channel_sync_flag

-- A set of kinds, and its mask: the union of the flags of its members.
pub record Kinds : Type 0 where
  pub created : Bool
  pub updated : Bool
  pub aggregate : Bool
  pub oneshot : Bool
  pub synced : Bool

abbrev pub has : Kinds → Kind → Bool
has s created = s.created
has s updated = s.updated
has s aggregate = s.aggregate
has s oneshot = s.oneshot
has s synced = s.synced

abbrev pub either : Bool → EventSubscription → EventSubscription
either true f = f
either false f = no_events

abbrev pub mask : Kinds → EventSubscription
mask s = union (either s.created message_create) (
    union (either s.updated message_update) (
      union (either s.aggregate aggregate_update)
        (union (either s.oneshot oneshot_message) (either s.synced channel_sync_flag))))

-- The callbacks whose set has the kind, in the order of their registration.
abbrev pub asked_for : Kind → List (Kinds × ℕ) → List ℕ
asked_for k [] = []
asked_for k ((s, cb) ∷ r) = let rest = asked_for k r in if has s k then cb ∷ rest else rest

abbrev same : Bool → Bool → Bool
same true b = b
same false b = not b

same_eq : (a b : Bool) → same a b ≡ true → a ≡ b
same_eq true true h = refl
same_eq true false h = cc
same_eq false true h = cc
same_eq false false h = refl

abbrev for_both : (Bool → Bool) → Bool
for_both test = test true && test false

and_left : (a b : Bool) → (a && b) ≡ true → a ≡ true
and_left true b h = refl
and_left false b h = h

and_right : (a b : Bool) → (a && b) ≡ true → b ≡ true
and_right true b h = h
and_right false b h = cc

for_both_at : (test : Bool → Bool) → for_both test ≡ true → (b : Bool) → test b ≡ true
for_both_at test h true = and_left (test true) (test false) h
for_both_at test h false = and_right (test true) (test false) h

abbrev kinds : Bool → Bool → Bool → Bool → Bool → Kinds
kinds c u a o s = record { created = c; updated = u; aggregate = a; oneshot = o; synced = s }

-- The mask tells whether a set has a kind.
abbrev tells : Kind → Bool → Bool → Bool → Bool → Bool → Bool
tells k c u a o s = same (contains (mask (kinds c u a o s)) (flag_of k)) (has (kinds c u a o s) k)

abbrev always : Kind → Bool
always k =
    for_both (λ c. for_both (λ u. for_both (λ a. for_both (λ o. for_both (tells k c u a o)))))

tells-always : (k : Kind) (c u a o s : Bool) → always k ≡ true → tells k c u a o s ≡ true
tells-always k c u a o s h =
    let h₁ =
      for_both_at (λ c. for_both (λ u. for_both (λ a. for_both (λ o. for_both (tells k c u a o)))))
        h c in
    let h₂ = for_both_at (λ u. for_both (λ a. for_both (λ o. for_both (tells k c u a o)))) h₁ u in
    let h₃ = for_both_at (λ a. for_both (λ o. for_both (tells k c u a o))) h₂ a in
    let h₄ = for_both_at (λ o. for_both (tells k c u a o)) h₃ o in
    for_both_at (tells k c u a o) h₄ s

always-true : (k : Kind) → always k ≡ true
always-true created = refl
always-true updated = refl
always-true aggregate = refl
always-true oneshot = refl
always-true synced = refl

contains-mask : (s : Kinds) (k : Kind) → contains (mask s) (flag_of k) ≡ has s k
contains-mask s k =
    same_eq (contains (mask s) (flag_of k)) (has s k)
      (tells-always k s.created s.updated s.aggregate s.oneshot s.synced (always-true k))

-- What is registered for sets of kinds.
abbrev pub masked : List (Kinds × ℕ) → List (EventSubscription × ℕ)
masked [] = []
masked ((s, cb) ∷ r) = (mask s, cb) ∷ masked r

selected-masked :
    (k : Kind) (r : List (Kinds × ℕ)) → selected (flag_of k) (masked r) ≡ asked_for k r
unfolding selected
selected-masked k [] = refl
selected-masked k ((s, cb) ∷ r) = rw (contains-mask s k, selected-masked k r) refl

some_events : (k : Kind) → ((flag_of k).bits == no_events.bits) ≡ false
some_events created = refl
some_events updated = refl
some_events aggregate = refl
some_events oneshot = refl
some_events synced = refl

module _ {N : Type 0} where
  subscription_flag-name :
      (k : Kind) (e : Event N) → e.event_name ≡ name_of k → subscription_flag e ≡ flag_of k
  subscription_flag-name created e h = rw (h) refl
  subscription_flag-name updated e h = rw (h) refl
  subscription_flag-name aggregate e h = rw (h) refl
  subscription_flag-name oneshot e h = rw (h) refl
  subscription_flag-name synced e h = rw (h) refl

  -- An event with the name of a kind calls exactly the callbacks of its channel that were registered for a set of
  -- kinds with that kind in it, each as often as it was registered, in the order of registration. A registration's
  -- mask is the union of the flags of its set.
  pub dispatch-asked_for :
      (key : String) (k : Kind) (e : Event N) (st : HubState N) (ch : ChannelState)
      (r : List (Kinds × ℕ))
      → e.event_name ≡ name_of k
      → find str_eq key st.channels ≡ some ch
      → ch.callbacks ≡ masked r
      → dispatch key e st ≡ asked_for k r
  unfolding dispatch
  dispatch-asked_for key k e st ch r named found registered =
      let called : EventSubscription → List ℕ = λ kind.
        if kind.bits == no_events.bits then [] else elim (find str_eq key st.channels) [
          | none ↦ []
          | some ch ↦ selected kind ch.callbacks
        ] in
      ap called (subscription_flag-name k e named)
      ∙ rw (some_events k, found, registered) (selected-masked k r)
