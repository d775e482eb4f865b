-- ===== src/Rpc/Cancelled.antt =====
-- doover/src/rpc.rs: a command that its issuer withdraws while its handler runs.
use doover_rs.Base.{
  ℕ, ◌≡◌, ◌≢◌, refl, String, Bool, true, false, Option, none, some, Bool-cases, inl, inr, ◌⊎◌, ◌==◌,
  is_some, arith, if◌then◌else◌,
}
use doover_rs.Base.Int.{ℤ}
use doover_rs.Base.Table.{Table, find, put, find-drop_other}
use doover_rs.Json.{Value, at}
use doover_rs.Events.{Event, message_data}
use doover_rs.Rpc.{
  Readers, Outcome, RpcContext, Update, written, progress, acknowledge, defer, status_is_cancelled,
  report_with, cancellation_body,
}
use doover_rs.Rpc.Manager.{RpcState, cancellation, get_handler, track, untrack, resolve_with}
use doover_rs.Rpc.Serve.{
  id_of, begin_request, finish_request, answer, begin_body, begin_accepted, begin_with, accepted,
  context,
}
use doover_rs.Rpc.Resolve.{
  handle_response, respond_body, respond_status, respond_in, serving, settle, unless_none,
}

module _ (𝓡 : Readers) (own_key : Option String) where
  open 𝓡 use {Number}

  -- The manager at work: events come in at some time, and handlers return.
  pub data Step : RpcState Number → RpcState Number → Type 0 where
    begun :
        (now : ℤ) (e : Event Number) (st : RpcState Number)
        → Step st (begin_request 𝓡 own_key now e st).0
    finished :
        (now : ℤ) (ctx : RpcContext Number) (result : Outcome Number) (st : RpcState Number)
        → Step st (finish_request 𝓡 own_key now ctx result st).0
    responded :
        (now : ℤ) (e : Event Number) (st : RpcState Number)
        → Step st (handle_response 𝓡 own_key now e st).0

  pub data Steps : RpcState Number → RpcState Number → Type 0 where
    done : (st : RpcState Number) → Steps st st
    next : (a b c : RpcState Number) → Step a b → Steps b c → Steps a c

  -- The cancellations of a later state: those of the former, and at most one more.
  abbrev Grows : Table ℕ (Value Number) → Table ℕ (Value Number) → Type 0
  Grows a b = (b ≡ a) ⊎ ((cell : ℕ) × (body : Value Number) × (b ≡ put (λ x y. x == y) cell body a))

  Grows-keeps :
      (cell : ℕ) (a b : Table ℕ (Value Number))
      → Grows a b
      → is_some (find (λ x y. x == y) cell a) ≡ true
      → is_some (find (λ x y. x == y) cell b) ≡ true
  unfolding find
  Grows-keeps cell a b (inl same) h = rw (same) h
  Grows-keeps cell a b (inr (other, body, p)) h = elim (Bool-cases (other == cell)) [
    | inl hit ↦ rw (p, hit) refl
    | inr miss ↦ rw (p, miss, find-drop_other (λ x y. x == y) other cell a (λ j e. ground arith)) h
  ]

  track_cells :
      (id : Option ℕ) (ctx : RpcContext Number) (st : RpcState Number)
      → (track id ctx st).cells ≡ st.cells
  track_cells none ctx st = refl
  track_cells (some id) ctx st = refl

  untrack_cells : (id : Option ℕ) (st : RpcState Number) → (untrack id st).cells ≡ st.cells
  untrack_cells none st = refl
  untrack_cells (some id) st = refl

  begin_with_cells :
      (now : ℤ) (e : Event Number) (v : Value Number) (request : String × Value Number)
      (h : Option ℕ) (st : RpcState Number)
      → (begin_with 𝓡 own_key now e v request h st).0.cells ≡ st.cells
  begin_with_cells now e v request none st = refl
  begin_with_cells now e v (m, p) (some handler) st =
      track_cells (id_of 𝓡 own_key now e) (context 𝓡 own_key now e v m st.next_cell)
        (record st { next_cell = _ })

  begin_cells :
      (now : ℤ) (e : Event Number) (d : Option (Value Number)) (st : RpcState Number)
      → (begin_body 𝓡 own_key now e d st).0.cells ≡ st.cells
  begin_cells now e none st = refl
  begin_cells now e (some v) st = accepted_cells (accepted 𝓡 own_key now e v)
    where
      accepted_cells :
          (a : Option (String × Value Number))
          → (begin_accepted 𝓡 own_key now e v a st).0.cells ≡ st.cells
      accepted_cells none = refl
      accepted_cells (some request) =
          begin_with_cells now e v request (get_handler e.channel request.0 st) st

  resolve_cells :
      (o : Option ℕ) (id : ℕ) (outcome : Outcome Number) (st : RpcState Number)
      → (resolve_with o id outcome st).0.cells ≡ st.cells
  resolve_cells none id outcome st = refl
  resolve_cells (some sender) id outcome st = refl

  unless_cells :
      (o : Option (Outcome Number)) (now : ℤ) (id : ℕ) (st : RpcState Number)
      → (unless_none 𝓡 own_key now o id st).0.cells ≡ st.cells
  unless_cells none now id st = refl
  unless_cells (some outcome) now id st = resolve_cells _ id outcome st

  if_cells :
      (b : Bool) (x y : RpcState Number × Option (ℕ × Outcome Number)) (c : Table ℕ (Value Number))
      → x.0.cells ≡ c
      → y.0.cells ≡ c
      → (if b then x else y).0.cells ≡ c
  if_cells true x y c p q = p
  if_cells false x y c p q = q

  settle_cells :
      (now : ℤ) (v status : Value Number) (id : ℕ) (st : RpcState Number)
      → (settle 𝓡 own_key now v status id st).0.cells ≡ st.cells
  settle_cells now v status id st = if_cells _ _ _ st.cells refl (
      if_cells (status_is_cancelled 𝓡 status) _ _ st.cells
        (resolve_cells (find (λ a b. a == b) id st.pending) id _ st) (unless_cells _ now id st))

  respond-Grows :
      (now : ℤ) (d : Option (Value Number)) (id : Option ℕ) (st : RpcState Number)
      → Grows st.cells (respond_body 𝓡 own_key now d id st).0.cells
  respond-Grows now none id st = inl refl
  respond-Grows now (some v) id st = by_status (at v "status") id
    where
      by_context :
          (o : Option (RpcContext Number)) (status : Value Number) (n : ℕ)
          → Grows st.cells (respond_in 𝓡 own_key now o v status n st).0.cells
      by_context none status n = inl (settle_cells now v status n st)
      by_context (some ctx) status n =
          inr (ctx.cell, cancellation_body 𝓡 (at status "message"), refl)

      by_status :
          (o : Option (Value Number)) (i : Option ℕ)
          → Grows st.cells (respond_status 𝓡 own_key now v o i st).0.cells
      by_status none i = inl refl
      by_status (some status) none = inl refl
      by_status (some status) (some n) =
          by_context (serving 𝓡 own_key now (status_is_cancelled 𝓡 status) n st) status n

  Step-Grows : (a b : RpcState Number) → Step a b → Grows a.cells b.cells
  unfolding begin_request finish_request handle_response
  Step-Grows a _ (begun now e _) = inl (begin_cells now e (message_data e) a)
  Step-Grows a _ (finished now ctx result _) = inl (untrack_cells ctx.request_message_id a)
  Step-Grows a _ (responded now e _) = respond-Grows now (message_data e) (id_of 𝓡 own_key now e) a

  -- A command that is cancelled stays so, whatever events come in and whatever handlers return.
  pub Steps-keep_cancelled :
      (ctx : RpcContext Number) (a b : RpcState Number)
      → Steps a b
      → is_some (cancellation ctx a) ≡ true
      → is_some (cancellation ctx b) ≡ true
  Steps-keep_cancelled ctx a _ (done _) h = h
  Steps-keep_cancelled ctx a c (next _ b _ s more) h =
      Steps-keep_cancelled ctx b c more (Grows-keeps ctx.cell a.cells b.cells (Step-Grows a b s) h)

  no_answer :
      (channel : String) (mid : Option ℕ) (c : Option (Value Number)) (p : Option (Value Number))
      (u : Update Number)
      → is_some c ≡ true
      → report_with 𝓡 channel mid c p ≢ written u
  no_answer channel none (some body) p u h w = cc
  no_answer channel (some id) (some body) p u h w = cc
  no_answer channel none none p u h w = cc
  no_answer channel (some id) none p u h w = cc

  no_finish :
      (now : ℤ) (ctx : RpcContext Number) (result : Outcome Number) (mid : Option ℕ)
      (c : Option (Value Number))
      → is_some c ≡ true
      → answer 𝓡 own_key now ctx result mid c ≡ none
  no_finish now ctx result none c h = refl
  no_finish now ctx result (some id) (some body) h = refl
  no_finish now ctx result (some id) none h = cc

  cancels :
      (now : ℤ) (e : Event Number) (v status : Value Number) (id : ℕ) (ctx : RpcContext Number)
      (st : RpcState Number)
      → message_data e ≡ some v
      → at v "status" ≡ some status
      → id_of 𝓡 own_key now e ≡ some id
      → status_is_cancelled 𝓡 status ≡ true
      → find (λ a b. a == b) id st.inflight ≡ some ctx
      → is_some (cancellation ctx (handle_response 𝓡 own_key now e st).0) ≡ true
  unfolding handle_response find
  cancels now e v status id ctx st d s i c f = rw (d, s, i, c, f) ground arith

  -- When a cancelling update reaches a command whose handler runs, then from there on, whatever
  -- events come in and whatever handlers return, neither the end of that handler nor a report of
  -- progress, an acknowledgement or a deferral by it writes to the command's message.
  pub cancelled_never_written :
      (now : ℤ) (e : Event Number) (v status : Value Number) (id : ℕ) (ctx : RpcContext Number)
      (st later : RpcState Number) (result : Outcome Number) (text : Option String)
      (fields : Value Number) (wait_ms : ℤ) (u : Update Number)
      → message_data e ≡ some v
      → at v "status" ≡ some status
      → id_of 𝓡 own_key now e ≡ some id
      → status_is_cancelled 𝓡 status ≡ true
      → find (λ a b. a == b) id st.inflight ≡ some ctx
      → Steps (handle_response 𝓡 own_key now e st).0 later
      → ((finish_request 𝓡 own_key now ctx result later).1 ≡ none)
        × (progress 𝓡 ctx (cancellation ctx later) text fields ≢ written u)
        × (acknowledge 𝓡 ctx (cancellation ctx later) now ≢ written u)
        × (defer 𝓡 ctx (cancellation ctx later) now wait_ms ≢ written u)
  unfolding finish_request progress acknowledge defer
  cancelled_never_written now e v status id ctx st later result text fields wait_ms u d s i c f
        steps =
      let h : is_some (cancellation ctx later) ≡ true =
        Steps-keep_cancelled ctx _ later steps (cancels now e v status id ctx st d s i c f) in
      (
        no_finish now ctx result ctx.message_id _ h,
        no_answer ctx.channel ctx.message_id _ _ u h,
        no_answer ctx.channel ctx.message_id _ _ u h,
        no_answer ctx.channel ctx.message_id _ _ u h,
      )
