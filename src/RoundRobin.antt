-- ===== src/RoundRobin.antt =====
-- pkg/networkservice/common/roundrobin/round_robin_selector.go: the endpoints of a service in turn. A
-- counter is an `int` that never gets near its bound; no endpoint is nil.
pub mod Turns
use nsm_sdk.Prelude.{
  ℕ, zero, suc, ◌+◌, ◌%◌, List, [], ◌∷◌, Option, none, some, Bool, if◌then◌else◌, get_elem?, length,
  String, same,
}

-- The counters: a missing one reads 0.
abbrev pub Counters : Type 0
Counters = String → ℕ

unfoldable pub select_endpoint : {E : Type 0} → String → List E → Counters → Option E × Counters
select_endpoint name [] m = (none, m)
select_endpoint name (e ∷ es) m = elim (get_elem? (e ∷ es) (m name % length (e ∷ es))) [
  | none ↦ (none, m)
  | some x ↦ (some x, λ k. if same name k then m name + 1 else m k)
]

-- The counters after a number of selections.
unfoldable pub after : {E : Type 0} → ℕ → String → List E → Counters → Counters
unfolding select_endpoint
after zero name es m = m
after (suc n) name es m = after n name es (select_endpoint name es m).1
