-- ===== src/Rpc/Manager.antt =====
-- doover/src/rpc.rs: `RpcManager`, its handlers, the calls that wait and the commands that run.
-- A handler is known by a number and so is the sender of a waiting call.
use doover_rs.Base.{
  ℕ, String, Bool, true, false, not, ◌&&◌, ◌||◌, Option, none, some, List, [], ◌∷◌, str_eq, ◌==◌,
  or_else, if◌then◌else◌,
}
use doover_rs.Base.Table.{Table, find, drop, put}
use doover_rs.Json.{Value}
use doover_rs.Rpc.{Outcome, RpcContext}

abbrev pub option_str_eq : Option String → Option String → Bool
option_str_eq none none = true
option_str_eq (some a) (some b) = str_eq a b
option_str_eq _ _ = false

abbrev pub handler_key_eq : Option String × String → Option String × String → Bool
handler_key_eq a b = option_str_eq a.0 b.0 && str_eq a.1 b.1

abbrev pub strings_have : String → List String → Bool
strings_have s [] = false
strings_have s (t ∷ r) = str_eq t s || strings_have s r

module _ (N : Type 0) where
  -- `cells` holds the cancellations that the contexts share; a context takes the next free place.
  pub record RpcState : Type 0 where
    pub handlers : Table (Option String × String) ℕ
    pub pending : Table ℕ ℕ
    pub inflight : Table ℕ (RpcContext N)
    pub subscribed : List String
    pub subscriber : Bool
    pub cells : Table ℕ (Value N)
    pub next_cell : ℕ

module _ {N : Type 0} where
  -- The channels that are announced to a hook when it is installed.
  abbrev pub set_subscriber : RpcState N → RpcState N × List String
  set_subscriber st = (record st { subscriber = true }, st.subscribed)

  -- The result says which channel is announced to the hook.
  unfoldable pub subscribe : Bool → String → RpcState N → RpcState N × List String
  subscribe persistent channel st =
      if not persistent
      then (st, [])
      else if strings_have channel st.subscribed
      then (st, [])
      else (
        record st { subscribed = channel ∷ st.subscribed },
        if st.subscriber then channel ∷ [] else [],
      )

  unfoldable pub register_handler :
      Bool → Option String → String → ℕ → RpcState N → RpcState N × List String
  unfolding subscribe
  register_handler persistent channel method handler st =
      let st' = record st { handlers = put handler_key_eq (channel, method) handler st.handlers } in
      elim channel [ none ↦ (st', []) | some c ↦ subscribe persistent c st' ]

  -- A handler of the channel goes before a global one.
  unfoldable pub get_handler : String → String → RpcState N → Option ℕ
  get_handler channel method st =
      or_else (find handler_key_eq (some channel, method) st.handlers)
        (find handler_key_eq (none, method) st.handlers)

  -- Whether the issuer has withdrawn the command of a context.
  abbrev pub cancellation : RpcContext N → RpcState N → Option (Value N)
  cancellation ctx st = find (λ a b. a == b) ctx.cell st.cells

  abbrev pub start_call : ℕ → ℕ → RpcState N → RpcState N
  start_call id sender st = record st { pending = put (λ a b. a == b) id sender st.pending }

  abbrev pub end_call : ℕ → RpcState N → RpcState N
  end_call id st = record st { pending = drop (λ a b. a == b) id st.pending }

  abbrev pub track : Option ℕ → RpcContext N → RpcState N → RpcState N
  track none ctx st = st
  track (some id) ctx st = record st { inflight = put (λ a b. a == b) id ctx st.inflight }

  abbrev pub untrack : Option ℕ → RpcState N → RpcState N
  untrack none st = st
  untrack (some id) st = record st { inflight = drop (λ a b. a == b) id st.inflight }

  abbrev pub mark_cancelled : RpcContext N → Value N → RpcState N → RpcState N
  mark_cancelled ctx body st = record st { cells = put (λ a b. a == b) ctx.cell body st.cells }

  abbrev pub resolve_with :
      Option ℕ → ℕ → Outcome N → RpcState N → RpcState N × Option (ℕ × Outcome N)
  resolve_with none id outcome st = (st, none)
  resolve_with (some sender) id outcome st = (end_call id st, some (sender, outcome))

  -- The outcome handed to the waiting call of a message, if there is one.
  abbrev pub resolve_pending : ℕ → Outcome N → RpcState N → RpcState N × Option (ℕ × Outcome N)
  resolve_pending id outcome st = resolve_with (find (λ a b. a == b) id st.pending) id outcome st
