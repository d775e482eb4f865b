-- ===== src/Processor/Tags/Commit.antt =====
-- doover/src/processor/tags.rs, `commit_tags_with`: what a commit asks of the backend.
use doover_rs.Base.{
  ◌≡◌, refl, ◌∙◌, String, Bool, true, false, Option, none, some, List, [], ◌∷◌, Bool-cases, inl,
  inr, ap, not, ◌&&◌, ◌||◌, if◌then◌else◌,
}
use doover_rs.Json.{Value}
use doover_rs.Processor.Tags.{
  LogMode, never, TagState, Request, update_aggregate, create_message, aggregate_of, log_of,
  write_out, commit_tags_with, is_never, logged_by,
}

taken : {A : Type 0} (b : Bool) (x y : A) → b ≡ true → (if b then x else y) ≡ x
taken true x y h = refl
taken false x y h = cc

module _ {N : Type 0} where
  -- The requests of a commit: at most one aggregate write, and after it at most one message.
  abbrev pub requests : Option (Value N) → Option (Value N) → List (Request N)
  requests none none = []
  requests none (some m) = create_message m ∷ []
  requests (some a) none = update_aggregate a ∷ []
  requests (some a) (some m) = create_message m ∷ update_aggregate a ∷ []

  module _ (answer : Request N → Bool) (own_key : String) (record_log : Bool) where
    -- After a commit nothing is left to commit: a second one, with the same or another answer of the
    -- backend, sends no request and changes nothing, even if the first one failed.
    pub commit_tags_with_twice :
        (again : Request N → Bool) (st : TagState N)
        → commit_tags_with again own_key record_log
            (commit_tags_with answer own_key record_log st).0
          ≡ ((commit_tags_with answer own_key record_log st).0, [], true)
    unfolding commit_tags_with
    commit_tags_with_twice again st = elim (Bool-cases st.update_tags) [
      | inl dirty ↦ rw (dirty) refl
      | inr clean ↦ rw (clean) refl
    ]

    write_out_fine :
        (a m : Option (Value N))
        → ((v : Value N) → answer (update_aggregate v) ≡ true)
        → (write_out answer a m).0 ≡ requests a m
    write_out_fine none none h = refl
    write_out_fine none (some m) h = refl
    write_out_fine (some a) none h = rw (h a) refl
    write_out_fine (some a) (some m) h = rw (h a) refl

    write_out_failed :
        (a m : Option (Value N)) (v : Value N)
        → a ≡ some v
        → answer (update_aggregate v) ≡ false
        → write_out answer a m ≡ (update_aggregate v ∷ [], false)
    write_out_failed a m v is_v h = rw (is_v, h) refl

    -- A commit whose aggregate write fails writes no message and reports the failure.
    pub commit_tags_with_failed :
        (st : TagState N) (v : Value N)
        → st.update_tags ≡ true
        → aggregate_of own_key st ≡ some v
        → answer (update_aggregate v) ≡ false
        → ((commit_tags_with answer own_key record_log st).1 ≡ update_aggregate v ∷ [])
          × ((commit_tags_with answer own_key record_log st).2 ≡ false)
    unfolding commit_tags_with
    commit_tags_with_failed st v dirty is_v h =
        let e =
          write_out_failed (aggregate_of own_key st) (log_of own_key record_log st) v is_v h in
        (
          ap (λ (r : TagState N × List (Request N) × Bool). r.1) (taken _ _ _ dirty)
              ∙ ap (λ (r : List (Request N) × Bool). r.0) e,
          ap (λ (r : TagState N × List (Request N) × Bool). r.2) (taken _ _ _ dirty)
              ∙ ap (λ (r : List (Request N) × Bool). r.1) e,
        )

    no_log :
        (b : Bool) (mode : LogMode) (st : TagState N)
        → is_never mode ≡ true
        → (if b && not (is_never mode) then logged_by mode own_key st else none) ≡ none
    no_log true mode st h = rw (h) refl
    no_log false mode st h = refl

    -- While every aggregate write succeeds, a commit under the mode that never logs sends the
    -- aggregate write alone, if there is one, whatever the record flags say.
    pub commit_tags_with_never :
        (st : TagState N)
        → st.update_tags ≡ true
        → st.log_mode ≡ never
        → ((v : Value N) → answer (update_aggregate v) ≡ true)
        → (commit_tags_with answer own_key record_log st).1
          ≡ requests (aggregate_of own_key st) none
    unfolding commit_tags_with
    commit_tags_with_never st dirty mode h =
        let quiet : log_of own_key record_log st ≡ none =
          no_log (st.record_tag_update || record_log) st.log_mode st (rw (mode) refl) in
        ap (λ (r : TagState N × List (Request N) × Bool). r.1) (taken _ _ _ dirty)
        ∙ ap (λ (l : Option (Value N)). (write_out answer (aggregate_of own_key st) l).0) quiet
        ∙ write_out_fine (aggregate_of own_key st) none h
