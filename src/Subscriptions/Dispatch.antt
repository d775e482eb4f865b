-- ===== src/Subscriptions/Dispatch.antt =====
-- doover/src/docker/subscriptions.rs: the pauses between attempts to connect.
use doover_rs.Base.{ℕ, zero, ◌≤◌, Option, none, some, List, [], ◌∷◌, arith, String}
use doover_rs.Subscriptions.{next_backoff, run_connections, HubState, Item, run_items}

-- A pause is at least a second and at most ten.
abbrev pub AllBounded : List ℕ → Type 0
AllBounded [] = zero ≤ zero
AllBounded (p ∷ r) = (1 ≤ p) × (p ≤ 10) × AllBounded r

next_backoff_bounded : (b : ℕ) → 1 ≤ b → (1 ≤ next_backoff b) × (next_backoff b ≤ 10)
next_backoff_bounded b low = (ground arith, ground arith)

-- From a pause of one to ten seconds on, every pause before the next attempt to connect is one to
-- ten seconds, whatever the connections answer.
pub run_connections-AllBounded :
    {N : Type 0} (key : String) (backoff : ℕ) (attempts : List (Option (List (Item N))))
    (st : HubState N)
    → 1 ≤ backoff
    → backoff ≤ 10
    → AllBounded (run_connections key backoff attempts st).2
unfolding run_connections
run_connections-AllBounded key backoff [] st low high = ground arith
run_connections-AllBounded key backoff (none ∷ more) st low high =
    let (l, h) = next_backoff_bounded backoff low in
    (low, high, run_connections-AllBounded key (next_backoff backoff) more st l h)
run_connections-AllBounded key backoff (some items ∷ more) st low high = (
  ground arith,
  ground arith,
  run_connections-AllBounded key (next_backoff 1) more (run_items key items st).0 (ground arith)
      (ground arith),
)
