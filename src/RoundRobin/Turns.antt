-- ===== src/RoundRobin/Turns.antt =====
-- The order in which the endpoints are selected.
use native.Mathlib.Nat.{mod-lt}
use nsm_sdk.Prelude.{
  ℕ, zero, suc, ◌+◌, ◌%◌, ◌≡◌, ◌∙◌, refl, ap, arith, List, ◌∷◌, get_elem?, get-inside, length,
  String, ≡→same,
}
use nsm_sdk.RoundRobin.{Counters, select_endpoint, after}

select_lem :
    {E : Type 0} (name : String) (e : E) (es : List E) (m : Counters)
    → ((select_endpoint name (e ∷ es) m).0 ≡ get_elem? (e ∷ es) (m name % length (e ∷ es)))
      × ((select_endpoint name (e ∷ es) m).1 name ≡ m name + 1)
unfolding select_endpoint
select_lem name e es m =
    let (x, h) = get-inside (e ∷ es) (m name % length (e ∷ es)) (mod-lt (m name) (omega arith)) in
    (rw (h, select_endpoint) refl, rw (h, select_endpoint) (rw (≡→same name name refl) refl))

-- Of a service with endpoints, the selection after `n` others takes the endpoint `n` places on from
-- the first one, round and round the list: as many selections as there are endpoints take each once.
pub select_endpoint_lem :
    {E : Type 0} (n : ℕ) (name : String) (e : E) (es : List E) (m : Counters)
    → (select_endpoint name (e ∷ es) (after n name (e ∷ es) m)).0
      ≡ get_elem? (e ∷ es) ((m name + n) % length (e ∷ es))
unfolding after
select_endpoint_lem zero name e es m =
    (select_lem name e es m).0 ∙ ap (λ i. get_elem? (e ∷ es) (i % length (e ∷ es))) (omega arith)
select_endpoint_lem (suc n) name e es m =
    select_endpoint_lem n name e es (select_endpoint name (e ∷ es) m).1
    ∙ ap (λ i. get_elem? (e ∷ es) (i % length (e ∷ es))) (omega (arith, (select_lem name e es m).1))
