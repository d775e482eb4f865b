-- ===== src/Ui/Publish.antt =====
-- doover/src/ui/runtime.rs, `publish_schema` and `set_value`: what is sent, and what is remembered.
use doover_rs.Base.{
  ◌≡◌, refl, ap, ◌∙◌, String, Bool, true, false, Option, none, some, List, eq_iff, if_elim,
}
use doover_rs.Base.Int.{ℤ, negsuc}
use doover_rs.Errors.{DooverError, Result, ok, err}
use doover_rs.Json.{Value, null}
use doover_rs.Ui.{
  UiState, Request, Backend, Io, update_channel_aggregate, send, and_ok, wrap, is_published,
  published, publish_schema,
}

abbrev age : Option ℤ
age = some (negsuc 0)

module _ {N : Type 0} (𝓑 : Backend N) (serialize : Value N → String) where
  -- No other task changes what was published last.
  abbrev pub IsUndisturbed : Type 0
  IsUndisturbed =
      (sent : List (Request N)) (st : UiState N)
      → (𝓑.meanwhile sent st).last_published ≡ st.last_published

  -- After a publication: the schema is the last published if it went well; if it failed, the last published
  -- is the one before.
  abbrev pub Remembers : Option String → String → Result DooverError Bool × Io N → Type 0
  Remembers before text (ok sent, io) = io.state.last_published ≡ some text
  Remembers before text (err e, io) = io.state.last_published ≡ before

  module _ (undisturbed : IsUndisturbed) where
    and_ok-Remembers :
        (before : Option String) (text : String) (r : Result DooverError (Unit {0}) × Io N)
        (f : Io N → Result DooverError Bool × Io N)
        → r.1.state.last_published ≡ before
        → ((io : Io N) → io.state.last_published ≡ before → Remembers before text (f io))
        → Remembers before text (and_ok 𝓑 r f)
    and_ok-Remembers before text (ok _, io) f h k = k io h
    and_ok-Remembers before text (err e, io) f h k = h

    published_before :
        (last : Option String) (text : String) → is_published last text ≡ true → last ≡ some text
    published_before none text h = cc
    published_before (some last) text h = ap (λ s. some s) ((eq_iff last text).0 h)

    publish_schema-Remembers :
        (schema : Value N) (io : Io N)
        → Remembers io.state.last_published
            (serialize schema)
            (publish_schema 𝓑 serialize schema io)
    unfolding publish_schema
    publish_schema-Remembers schema io =
        let before = io.state.last_published in
        let text = serialize schema in
        if_elim (Remembers before text) (is_published before text)
          (λ same. published_before before text same)
          (λ _.
            and_ok-Remembers before text
              (send 𝓑 (update_channel_aggregate "ui_state" (wrap 𝓑 null) age) io) _
              (undisturbed _ io.state)
              (λ io₁ h.
                and_ok-Remembers before text
                  (send 𝓑 (update_channel_aggregate "ui_state" (wrap 𝓑 schema) age) io₁)
                  (published 𝓑 text) (undisturbed _ io₁.state ∙ h) (λ io₂ _. refl)))

    again :
        (schema : Value N) (r : Result DooverError Bool × Io N) (before : Option String) (b : Bool)
        → Remembers before (serialize schema) r
        → r.0 ≡ ok b
        → publish_schema 𝓑 serialize schema r.1 ≡ (ok false, r.1)
    unfolding publish_schema
    again schema (err e, io) before b h k = cc
    again schema (ok sent, io) before b h k =
        let same : is_published io.state.last_published (serialize schema) ≡ true =
          rw (h) ((eq_iff (serialize schema) (serialize schema)).1 refl) in
        rw (same) refl

    -- If no other task publishes, a schema whose publication ended well is not sent again: publishing it once
    -- more sends nothing, changes nothing and says so.
    pub publish_schema_again :
        (schema : Value N) (io : Io N) (b : Bool)
        → (publish_schema 𝓑 serialize schema io).0 ≡ ok b
        → publish_schema 𝓑 serialize schema (publish_schema 𝓑 serialize schema io).1
          ≡ (ok false, (publish_schema 𝓑 serialize schema io).1)
    publish_schema_again schema io b h =
        again schema (publish_schema 𝓑 serialize schema io) io.state.last_published b
          (publish_schema-Remembers schema io) h

    kept :
        (before : Option String) (text : String) (r : Result DooverError Bool × Io N)
        (e : DooverError)
        → Remembers before text r
        → r.0 ≡ err e
        → r.1.state.last_published ≡ before
    kept before text (ok sent, io) e h k = cc
    kept before text (err e', io) e h k = h

    -- If no other task publishes, a publication that fails is not remembered: what was published last is what
    -- it was, so a schema that differs from it is sent again in full.
    pub publish_schema_failed :
        (schema : Value N) (io : Io N) (e : DooverError)
        → (publish_schema 𝓑 serialize schema io).0 ≡ err e
        → (publish_schema 𝓑 serialize schema io).1.state.last_published ≡ io.state.last_published
    publish_schema_failed schema io e h =
        kept io.state.last_published (serialize schema) (publish_schema 𝓑 serialize schema io) e
          (publish_schema-Remembers schema io) h
