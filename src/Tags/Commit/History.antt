-- ===== src/Tags/Commit/History.antt =====
-- doover/src/tags/runtime.rs, `log_history`: the messages that it writes.
use doover_rs.Base.{
  ℕ, suc, ◌+◌, ◌≡◌, refl, sym, ap, ◌∙◌, String, true, some, List, [], ◌∷◌, ◌++◌, Bool-cases, inl,
  inr, arith, if◌then◌else◌,
}
use doover_rs.Json.{Value}
use doover_rs.Tags.Triggers.{Floats}
use doover_rs.Tags.Runtime.{Request, create_message_at, World, Io, is_empty_object, send}
use doover_rs.Tags.Commit.{log_history, log_history_from, scoped_payload}

module _ (𝓕 : Floats) where
  open 𝓕 use {Number}

  -- The messages for a list of points: one for each point that has tags, in their order.
  abbrev pub messages : String → List (ℕ × Value Number) → List (Request Number)
  messages app_key [] = []
  messages app_key ((timestamp, tags) ∷ points) =
      let rest = messages app_key points in
      if is_empty_object tags
      then rest
      else create_message_at (scoped_payload 𝓕 app_key tags) timestamp ∷ rest

  abbrev pub number_of_points : List (ℕ × Value Number) → ℕ
  number_of_points [] = 0
  number_of_points ((timestamp, tags) ∷ points) =
      let rest = number_of_points points in if is_empty_object tags then rest else suc rest

  append_nil : {A : Type 0} (xs : List A) → xs ++ [] ≡ xs
  append_nil [] = refl
  append_nil (x ∷ xs) = rw (append_nil xs) refl

  append_assoc :
      {A : Type 0} (xs : List A) (y : A) (zs : List A) → (xs ++ y ∷ []) ++ zs ≡ xs ++ y ∷ zs
  append_assoc [] y zs = refl
  append_assoc (x ∷ xs) y zs = rw (append_assoc xs y zs) refl

  module _ (𝓦 : World 𝓕)
      (fine : (sent : List (Request Number)) (r : Request Number) → 𝓦.answer sent r ≡ true) where
    history :
        (app_key : String) (points : List (ℕ × Value Number)) (count : ℕ) (io : Io 𝓕)
        → ((log_history_from 𝓕 𝓦 app_key points count io).0
            ≡ some (count + number_of_points points))
          × ((log_history_from 𝓕 𝓦 app_key points count io).1.sent
              ≡ io.sent ++ messages app_key points)
    unfolding log_history_from
    history app_key [] count io = (ap some (ground arith), sym (append_nil io.sent))
    history app_key ((timestamp, tags) ∷ points) count io =
        elim (Bool-cases (is_empty_object tags)) [
          | inl empty ↦ rw (empty) (history app_key points count io)
          | inr full ↦
              let r = create_message_at (scoped_payload 𝓕 app_key tags) timestamp in
              let h = history app_key points (suc count) (send 𝓕 𝓦 r io).1 in
              rw (full, fine io.sent r)
                (
                  h.0 ∙ ap some (ground arith),
                  h.1 ∙ append_assoc io.sent r (messages app_key points),
                )
        ]

    -- While every request succeeds, a history of points is written as one message for each point
    -- that has tags, in their order, and the result is their number.
    pub log_history_lem :
        (app_key : String) (points : List (ℕ × Value Number)) (io : Io 𝓕)
        → ((log_history 𝓕 𝓦 app_key points io).0 ≡ some (number_of_points points))
          × ((log_history 𝓕 𝓦 app_key points io).1.sent ≡ io.sent ++ messages app_key points)
    unfolding log_history
    log_history_lem app_key points io =
        let h = history app_key points 0 io in (h.0 ∙ ap some (ground arith), h.1)
